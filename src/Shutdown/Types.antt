-- ===== src/Shutdown/Types.antt =====
-- The data of the processes of practica2: proxy.h, the global variables of proxy.c, and the system
-- calls that it makes.
use sistemas_distribuidos_y.Common.{ℕ, ℤ, String, Os, Thread, SockaddrIn, List, [], ◌∷◌}

-- `enum operations`.
pub data Operation : Type 0 where
  ready_to_shutdown shutdown_now shutdown_ack : Operation

-- `struct message`.
pub record Message : Type 0 where
  pub origin : String
  pub action : Operation
  pub clock_lamport : ℕ

-- The global variables of a process, but for `msg`, which is set anew before each use.
pub record Process : Type 0 where
  pub addr : SockaddrIn
  pub proc_name : String
  pub socket_ : ℤ
  pub client_socket_1_ : ℤ
  pub client_socket_2_ : ℤ
  pub lamport_ : ℕ

-- `expected_lamport_p1`, `expected_lamport_p2` and `expected_lamport_p3` up to the -1 at their ends.
abbrev pub expected_lamport_p1 : List ℕ
expected_lamport_p1 = 3 ∷ []

abbrev pub expected_lamport_p2 : List ℕ
expected_lamport_p2 = 1 ∷ 5 ∷ 9 ∷ []

abbrev pub expected_lamport_p3 : List ℕ
expected_lamport_p3 = 7 ∷ []

-- A line that is printed: the name, the clock and what happened.
pub data Line : Type 0 where
  sent : (proc_name : String) (lamport : ℕ) (action : Operation) → Line
  received : (proc_name : String) (lamport : ℕ) (origin : String) (action : String) → Line
  apagados : (lamport : ℕ) → Line

-- What a process asks of the system. `fd_isset` is the question whether the last `select` found
-- data on a socket; its answer is 0 if not.
pub data Call : Type 0 where
  socket : Call
  connect : (fd : ℤ) (addr : SockaddrIn) → Call
  bind : (fd : ℤ) (addr : SockaddrIn) → Call
  listen : (fd : ℤ) → Call
  accept : (fd : ℤ) → Call
  close : (fd : ℤ) → Call
  select : (fd : ℤ) → Call
  fd_isset : (fd : ℤ) → Call
  recv : (fd : ℤ) → Call
  send : (fd : ℤ) (message : Message) → Call
  pthread_create : Call
  pthread_join : Call
  print : (line : Line) → Call

abbrev pub ProcessOs : Type 0
ProcessOs = Os Call Message

abbrev pub ProcessThread : Type 0 → Type 0
ProcessThread = Thread Process Call
