-- ===== src/Shutdown/System.antt =====
-- The three processes of practica2 together: P1 and P3 (`main` of P1.c and P3.c, `client_receive` of
-- proxy.c) and P2 (`server_receive`), with the messages on their way. A move is what one process does
-- from one receive or send to the next; the schedule says whose turn it is. A socket keeps the order
-- of the messages and loses none, and a process that has nothing to receive waits.
use sistemas_distribuidos_y.Common.{
  ℕ, String, List, [], ◌∷◌, ◌++◌, Bool, true, false, ◌==◌, if◌then◌else◌,
}
use sistemas_distribuidos_y.Shutdown.Types.{
  Message, ready_to_shutdown, shutdown_ack, shutdown_now, expected_lamport_p1, expected_lamport_p2,
  expected_lamport_p3,
}
use sistemas_distribuidos_y.Shutdown.Messages.{tick, observe}
use sistemas_distribuidos_y.Shutdown.Server.{answers}

-- Where a client stands: before its first message, in the loop with the clocks it still waits for,
-- or behind its `close`.
pub data Phase : Type 0 where
  start : Phase
  waiting : (expected : List ℕ) → Phase
  closed : Phase

-- A client, its name and the clocks it expects, and the two directions of its socket.
pub record Peer : Type 0 where
  pub name : String
  pub expected : List ℕ
  pub lamport : ℕ
  pub phase : Phase
  pub inbox : List Message
  pub outbox : List Message

pub record System : Type 0 where
  pub p1 : Peer
  pub p3 : Peer
  pub lamport : ℕ
  pub expected : List ℕ

-- One receive of a client: a message with another clock is thrown away.
unfoldable pub client_hear : Message → List Message → ℕ → List ℕ → Peer → Peer
client_hear m ms x xs p =
    if m.clock_lamport == x
    then record p { lamport = observe p.lamport m.clock_lamport; phase = waiting xs; inbox = ms }
    else record p { inbox = ms }

-- A move of a client: READY_TO_SHUTDOWN, then a receive as long as a clock is expected, then
-- SHUTDOWN_ACK and the close.
unfoldable pub client_move : Peer → Peer
client_move p = elim p.phase [
  | start ↦ record p {
    lamport = tick p.lamport;
    phase = waiting p.expected;
    outbox =
        p.outbox
        ++ record { origin = p.name; action = ready_to_shutdown; clock_lamport = tick p.lamport }
          ∷ [];
  }
  | waiting [] ↦ record p {
    lamport = tick p.lamport;
    phase = closed;
    outbox =
        p.outbox
        ++ record { origin = p.name; action = shutdown_ack; clock_lamport = tick p.lamport } ∷ [];
  }
  | waiting (x ∷ xs) ↦ elim p.inbox [ [] ↦ p | m ∷ ms ↦ client_hear m ms x xs p ]
  | closed ↦ p
]

abbrev pub now : ℕ → Message
now lamport = record { origin = "P2"; action = shutdown_now; clock_lamport = lamport }

-- SHUTDOWN_NOW on both sockets.
abbrev pub notify_both : System → System
notify_both s =
    let t = tick s.lamport in
    record s {
      lamport = t;
      p1 = record s.p1 { inbox = s.p1.inbox ++ now t ∷ [] };
      p3 = record s.p3 { inbox = s.p3.inbox ++ now t ∷ [] };
    }

-- What the server does with a message that it has read, when it waits for the clock `x`.
unfoldable pub server_hear : Message → ℕ → List ℕ → System → System
server_hear m x xs s =
    if m.clock_lamport == x
    then (let s1 = record s { lamport = observe s.lamport m.clock_lamport; expected = xs } in
        if answers m.clock_lamport then notify_both s1 else s1)
    else s

-- A receive of the server on the socket of P1 or on that of P3.
unfoldable pub server_move_p1 : System → System
server_move_p1 s = elim s.expected [
  | [] ↦ s
  | x ∷ xs ↦ elim s.p1.outbox [
    | [] ↦ s
    | m ∷ ms ↦ server_hear m x xs (record s { p1 = record s.p1 { outbox = ms } })
  ]
]

unfoldable pub server_move_p3 : System → System
server_move_p3 s = elim s.expected [
  | [] ↦ s
  | x ∷ xs ↦ elim s.p3.outbox [
    | [] ↦ s
    | m ∷ ms ↦ server_hear m x xs (record s { p3 = record s.p3 { outbox = ms } })
  ]
]

pub data Move : Type 0 where
  p1_moves p3_moves server_reads_p1 server_reads_p3 : Move

-- A process whose turn it is and that cannot move stays where it is.
unfoldable pub move : Move → System → System
move p1_moves s = record s { p1 = client_move s.p1 }
move p3_moves s = record s { p3 = client_move s.p3 }
move server_reads_p1 s = server_move_p1 s
move server_reads_p3 s = server_move_p3 s

unfoldable pub run : List Move → System → System
run [] s = s
run (m ∷ ms) s = run ms (move m s)

-- Both clients are connected and nothing is sent.
abbrev pub initial : System
initial = record {
  p1 = record {
    name = "P1";
    expected = expected_lamport_p1;
    lamport = 0;
    phase = start;
    inbox = [];
    outbox = [];
  };
  p3 = record {
    name = "P3";
    expected = expected_lamport_p3;
    lamport = 0;
    phase = start;
    inbox = [];
    outbox = [];
  };
  lamport = 0;
  expected = expected_lamport_p2;
}

-- Whether a client or the server can move.
abbrev pub is_empty : {A : Type 0} → List A → Bool
is_empty [] = true
is_empty (x ∷ xs) = false

abbrev pub client_can : Phase → List Message → Bool
client_can start ms = true
client_can (waiting []) ms = true
client_can (waiting (x ∷ xs)) [] = false
client_can (waiting (x ∷ xs)) (m ∷ ms) = true
client_can closed ms = false

abbrev pub server_can : List ℕ → List Message → Bool
server_can [] ms = false
server_can (x ∷ xs) [] = false
server_can (x ∷ xs) (m ∷ ms) = true

abbrev pub can : Move → System → Bool
can p1_moves s = client_can s.p1.phase s.p1.inbox
can p3_moves s = client_can s.p3.phase s.p3.inbox
can server_reads_p1 s = server_can s.expected s.p1.outbox
can server_reads_p3 s = server_can s.expected s.p3.outbox
