-- ===== src/Shutdown/Stages.antt =====
-- The stages of the shutdown of practica2, and what each process and each socket may be in at each
-- stage.
use sistemas_distribuidos_y.Common.{ℕ, List, [], ◌∷◌, ◌++◌}
use sistemas_distribuidos_y.Shutdown.Types.{Message, ready_to_shutdown, shutdown_ack}
use sistemas_distribuidos_y.Shutdown.Messages.{tick, observe}
use sistemas_distribuidos_y.Shutdown.Server.{answers}
use sistemas_distribuidos_y.Shutdown.System.{
  Phase, start, waiting, closed, Peer, System, client_hear, client_move, now, server_hear,
  server_move_p1, server_move_p3, Move, p1_moves, p3_moves, server_reads_p1, server_reads_p3, move,
  run,
}

-- The clocks that the server still waits for: the stages of the shutdown.
pub data Stage : Type 0 where
  readying stopping_p1 stopping_p3 finished : Stage

abbrev pub clock_at : Stage → ℕ
clock_at readying = 0
clock_at stopping_p1 = 3
clock_at stopping_p3 = 7
clock_at finished = 10

abbrev pub expected_at : Stage → List ℕ
expected_at readying = 1 ∷ 5 ∷ 9 ∷ []
expected_at stopping_p1 = 5 ∷ 9 ∷ []
expected_at stopping_p3 = 9 ∷ []
expected_at finished = []

abbrev pub peer_p1 : ℕ → Phase → List Message → List Message → Peer
peer_p1 lamport phase inbox outbox = record {
  name = "P1";
  expected = 3 ∷ [];
  lamport = lamport;
  phase = phase;
  inbox = inbox;
  outbox = outbox;
}

abbrev pub peer_p3 : ℕ → Phase → List Message → List Message → Peer
peer_p3 lamport phase inbox outbox = record {
  name = "P3";
  expected = 7 ∷ [];
  lamport = lamport;
  phase = phase;
  inbox = inbox;
  outbox = outbox;
}

abbrev pub ready_p1 : Message
ready_p1 = record { origin = "P1"; action = ready_to_shutdown; clock_lamport = 1 }

abbrev pub ready_p3 : Message
ready_p3 = record { origin = "P3"; action = ready_to_shutdown; clock_lamport = 1 }

abbrev pub ack_p1 : Message
ack_p1 = record { origin = "P1"; action = shutdown_ack; clock_lamport = 5 }

abbrev pub ack_p3 : Message
ack_p3 = record { origin = "P3"; action = shutdown_ack; clock_lamport = 9 }

-- What the server has not yet read of one message.
pub data Unread (m : Message) : List Message → List Message → Type 0 where
  unread : (ms : List Message) → Unread m (m ∷ ms) ms
  read : (ms : List Message) → Unread m ms ms

-- P1 in each stage.
pub data ShapeP1 : Stage → Peer → Type 0 where
  at_start : ShapeP1 readying (peer_p1 0 start [] [])
  ready : ShapeP1 readying (peer_p1 1 (waiting (3 ∷ [])) [] (ready_p1 ∷ []))
  late : ShapeP1 stopping_p1 (peer_p1 0 start (now 3 ∷ []) [])
  called :
      (out : List Message)
      → Unread ready_p1 out []
      → ShapeP1 stopping_p1 (peer_p1 1 (waiting (3 ∷ [])) (now 3 ∷ []) out)
  leaving :
      (out : List Message)
      → Unread ready_p1 out []
      → ShapeP1 stopping_p1 (peer_p1 4 (waiting []) [] out)
  left :
      (out : List Message)
      → Unread ready_p1 out (ack_p1 ∷ [])
      → ShapeP1 stopping_p1 (peer_p1 5 closed [] out)
  gone : ShapeP1 stopping_p3 (peer_p1 5 closed (now 7 ∷ []) [])
  over : ShapeP1 finished (peer_p1 5 closed (now 7 ∷ []) [])

-- P3 in each stage.
pub data ShapeP3 : Stage → Peer → Type 0 where
  at_start : ShapeP3 readying (peer_p3 0 start [] [])
  ready : ShapeP3 readying (peer_p3 1 (waiting (7 ∷ [])) [] (ready_p3 ∷ []))
  late : ShapeP3 stopping_p1 (peer_p3 0 start (now 3 ∷ []) [])
  late_twice : ShapeP3 stopping_p3 (peer_p3 0 start (now 3 ∷ now 7 ∷ []) [])
  stays :
      (inb out : List Message)
      → Unread (now 3) inb []
      → Unread ready_p3 out []
      → ShapeP3 stopping_p1 (peer_p3 1 (waiting (7 ∷ [])) inb out)
  called :
      (inb out : List Message)
      → Unread (now 3) inb (now 7 ∷ [])
      → Unread ready_p3 out []
      → ShapeP3 stopping_p3 (peer_p3 1 (waiting (7 ∷ [])) inb out)
  leaving :
      (out : List Message)
      → Unread ready_p3 out []
      → ShapeP3 stopping_p3 (peer_p3 8 (waiting []) [] out)
  left :
      (out : List Message)
      → Unread ready_p3 out (ack_p3 ∷ [])
      → ShapeP3 stopping_p3 (peer_p3 9 closed [] out)
  over : ShapeP3 finished (peer_p3 9 closed [] [])

-- The states that the system gets to.
pub data Inv : System → Type 0 where
  inv :
      (k : Stage) {a b : Peer}
      → ShapeP1 k a
      → ShapeP3 k b
      → Inv (record { p1 = a; p3 = b; lamport = clock_at k; expected = expected_at k })

p1_moves-ShapeP1 : {k : Stage} {a : Peer} → ShapeP1 k a → ShapeP1 k (client_move a)
unfolding client_move client_hear tick observe
p1_moves-ShapeP1 at_start = ready
p1_moves-ShapeP1 ready = ready
p1_moves-ShapeP1 late = called (ready_p1 ∷ []) (unread [])
p1_moves-ShapeP1 (called out u) = leaving out u
p1_moves-ShapeP1 (leaving out (unread ms)) = left (ready_p1 ∷ ack_p1 ∷ []) (unread (ack_p1 ∷ []))
p1_moves-ShapeP1 (leaving out (read ms)) = left (ack_p1 ∷ []) (read (ack_p1 ∷ []))
p1_moves-ShapeP1 (left out u) = left out u
p1_moves-ShapeP1 gone = gone
p1_moves-ShapeP1 over = over

p3_moves-ShapeP3 : {k : Stage} {b : Peer} → ShapeP3 k b → ShapeP3 k (client_move b)
unfolding client_move client_hear tick observe
p3_moves-ShapeP3 at_start = ready
p3_moves-ShapeP3 ready = ready
p3_moves-ShapeP3 late = stays (now 3 ∷ []) (ready_p3 ∷ []) (unread []) (unread [])
p3_moves-ShapeP3 late_twice =
    called (now 3 ∷ now 7 ∷ []) (ready_p3 ∷ []) (unread (now 7 ∷ [])) (unread [])
p3_moves-ShapeP3 (stays inb out (unread ms) u) = stays [] out (read []) u
p3_moves-ShapeP3 (stays inb out (read ms) u) = stays [] out (read []) u
p3_moves-ShapeP3 (called inb out (unread ms) u) = called (now 7 ∷ []) out (read (now 7 ∷ [])) u
p3_moves-ShapeP3 (called inb out (read ms) u) = leaving out u
p3_moves-ShapeP3 (leaving out (unread ms)) = left (ready_p3 ∷ ack_p3 ∷ []) (unread (ack_p3 ∷ []))
p3_moves-ShapeP3 (leaving out (read ms)) = left (ack_p3 ∷ []) (read (ack_p3 ∷ []))
p3_moves-ShapeP3 (left out u) = left out u
p3_moves-ShapeP3 over = over

-- The first READY_TO_SHUTDOWN, whoever sent it, and the other client.
called-ShapeP3 :
    {b : Peer}
    → ShapeP3 readying b
    → ShapeP3 stopping_p1 (record b { inbox = b.inbox ++ now 3 ∷ [] })
called-ShapeP3 at_start = late
called-ShapeP3 ready = stays (now 3 ∷ []) (ready_p3 ∷ []) (unread []) (unread [])

called-ShapeP1 :
    {a : Peer}
    → ShapeP1 readying a
    → ShapeP1 stopping_p1 (record a { inbox = a.inbox ++ now 3 ∷ [] })
called-ShapeP1 at_start = late
called-ShapeP1 ready = called (ready_p1 ∷ []) (unread [])

-- P3 gets the second SHUTDOWN_NOW.
again-ShapeP3 :
    {b : Peer}
    → ShapeP3 stopping_p1 b
    → ShapeP3 stopping_p3 (record b { inbox = b.inbox ++ now 7 ∷ [] })
again-ShapeP3 late = late_twice
again-ShapeP3 (stays inb out (unread ms) u) =
    called (now 3 ∷ now 7 ∷ []) out (unread (now 7 ∷ [])) u
again-ShapeP3 (stays inb out (read ms) u) = called (now 7 ∷ []) out (read (now 7 ∷ [])) u

server_reads_p1-Inv : {s : System} → Inv s → Inv (server_move_p1 s)
unfolding server_move_p1 server_hear answers tick observe
server_reads_p1-Inv (inv k at_start b) = inv readying at_start b
server_reads_p1-Inv (inv k ready b) = inv stopping_p1 (called [] (read [])) (called-ShapeP3 b)
server_reads_p1-Inv (inv k late b) = inv stopping_p1 late b
server_reads_p1-Inv (inv k (called out (unread ms)) b) = inv stopping_p1 (called [] (read [])) b
server_reads_p1-Inv (inv k (called out (read ms)) b) = inv stopping_p1 (called [] (read [])) b
server_reads_p1-Inv (inv k (leaving out (unread ms)) b) = inv stopping_p1 (leaving [] (read [])) b
server_reads_p1-Inv (inv k (leaving out (read ms)) b) = inv stopping_p1 (leaving [] (read [])) b
server_reads_p1-Inv (inv k (left out (unread ms)) b) =
    inv stopping_p1 (left (ack_p1 ∷ []) (read (ack_p1 ∷ []))) b
server_reads_p1-Inv (inv k (left out (read ms)) b) = inv stopping_p3 gone (again-ShapeP3 b)
server_reads_p1-Inv (inv k gone b) = inv stopping_p3 gone b
server_reads_p1-Inv (inv k over b) = inv finished over b

server_reads_p3-Inv : {s : System} → Inv s → Inv (server_move_p3 s)
unfolding server_move_p3 server_hear answers tick observe
server_reads_p3-Inv (inv k a at_start) = inv readying a at_start
server_reads_p3-Inv (inv k a ready) =
    inv stopping_p1 (called-ShapeP1 a) (stays (now 3 ∷ []) [] (unread []) (read []))
server_reads_p3-Inv (inv k a late) = inv stopping_p1 a late
server_reads_p3-Inv (inv k a late_twice) = inv stopping_p3 a late_twice
server_reads_p3-Inv (inv k a (stays inb out u (unread ms))) =
    inv stopping_p1 a (stays inb [] u (read []))
server_reads_p3-Inv (inv k a (stays inb out u (read ms))) =
    inv stopping_p1 a (stays inb [] u (read []))
server_reads_p3-Inv (inv k a (called inb out u (unread ms))) =
    inv stopping_p3 a (called inb [] u (read []))
server_reads_p3-Inv (inv k a (called inb out u (read ms))) =
    inv stopping_p3 a (called inb [] u (read []))
server_reads_p3-Inv (inv k a (leaving out (unread ms))) = inv stopping_p3 a (leaving [] (read []))
server_reads_p3-Inv (inv k a (leaving out (read ms))) = inv stopping_p3 a (leaving [] (read []))
server_reads_p3-Inv (inv k a (left out (unread ms))) =
    inv stopping_p3 a (left (ack_p3 ∷ []) (read (ack_p3 ∷ [])))
server_reads_p3-Inv (inv k gone (left out (read ms))) = inv finished over over
server_reads_p3-Inv (inv k a over) = inv finished a over

move-Inv : (m : Move) {s : System} → Inv s → Inv (move m s)
unfolding move
move-Inv p1_moves (inv k a b) = inv k (p1_moves-ShapeP1 a) b
move-Inv p3_moves (inv k a b) = inv k a (p3_moves-ShapeP3 b)
move-Inv server_reads_p1 i = server_reads_p1-Inv i
move-Inv server_reads_p3 i = server_reads_p3-Inv i

pub run-Inv : (ms : List Move) {s : System} → Inv s → Inv (run ms s)
unfolding run
run-Inv [] i = i
run-Inv (m ∷ ms) i = run-Inv ms (move-Inv m i)
