-- ===== src/Chat/ThreadServer.antt =====
-- practica1/ServidorMultiHilo/server.c.
use sistemas_distribuidos_y.Common.{
  ℕ, zero, suc, ◌+◌, ℤ, pos, negsuc, is_neg, rounds, Bool, true, false, ◌&&◌, leb, ltb, ◌==◌, List,
  [], ◌∷◌, ◌++◌, length, slice, update, Thread, ◌>>=◌, ◌>>◌, get, modify, when, exit, pthread_exit,
  call, call_, pure, undefined, if◌then◌else◌,
}
use sistemas_distribuidos_y.Chat.Buffers.{Buffer, buffer_size, fill, text, c_string}
use sistemas_distribuidos_y.Chat.Talk.{
  Call, socket, bind, listen, accept, close, recv, send, print, create, join, TalkOs,
}
pub mod Batches

-- NUMBER_OF_THREADS.
abbrev pub number_of_threads : ℕ
number_of_threads = 100

-- The socket of the program, and the variables of `main`.
pub record Crowd : Type 0 where
  pub server_socket : ℤ
  pub fds : ℕ → ℤ
  pub current_thread : ℕ

abbrev pub CrowdThread : Type 0 → Type 0
CrowdThread = Thread Crowd Call

-- The ports that the parameters allow.
unfoldable pub is_port : ℤ → Bool
is_port (pos n) = leb 1024 n && leb n 65535
is_port (negsuc n) = false

-- "Hello client!" with its 0.
abbrev pub hello : List ℕ
hello = 72 ∷ 101 ∷ 108 ∷ 108 ∷ 111 ∷ 32 ∷ 99 ∷ 108 ∷ 105 ∷ 101 ∷ 110 ∷ 116 ∷ 33 ∷ 0 ∷ []

-- An assignment to an entry of `fds`.
unfoldable pub set_fd : ℕ → ℤ → CrowdThread (Unit {0})
set_fd i fd =
    if ltb i number_of_threads
    then modify (λ s. record s { fds = update s.fds i fd })
    else undefined

module _ (os : TalkOs) where
  unfoldable pub sighandler : CrowdThread (Unit {0})
  sighandler = do s ← get; call_ os (close s.server_socket); exit 1

  -- `close(server_socket); exit(1);` where a call failed.
  unfoldable pub check : ℤ → CrowdThread (Unit {0})
  check ret = when (is_neg ret) sighandler

  -- What the thread of entry `i` does; `in_buffer` holds what its stack held before.
  unfoldable pub talk_to_client : Buffer → ℕ → CrowdThread (Unit {0})
  talk_to_client in_buffer i = do
    s ← get
    r ← call os (recv (s.fds i) buffer_size)
    when (is_neg r.ret) (exit 1)
    call_ os (print (c_string buffer_size 0 (fill (rounds r.ret) r.msg.bytes in_buffer)))
    sent ← call os (send (s.fds i) hello)
    when (is_neg sent.ret) (exit 1)
    pthread_exit

  -- The two loops over the table, for the `n` entries from `i` on.
  unfoldable pub join_all : ℕ → ℕ → CrowdThread (Unit {0})
  join_all zero i = pure tt
  join_all (suc n) i = do r ← call os (join i); check r.ret; join_all n (suc i)

  unfoldable pub close_all : ℕ → ℕ → CrowdThread (Unit {0})
  close_all zero i = pure tt
  close_all (suc n) i = do s ← get; r ← call os (close (s.fds i)); check r.ret; close_all n (suc i)

  -- If there are 100 threads: they are waited for, and their descriptors closed.
  unfoldable pub make_room : CrowdThread (Unit {0})
  make_room = do
    s ← get
    when (leb number_of_threads s.current_thread) (do
      join_all number_of_threads 0
      close_all number_of_threads 0
      modify (λ s. record s { current_thread = 0 }))

  unfoldable pub accept_client : CrowdThread (Unit {0})
  accept_client = do
    s ← get
    r ← call os (accept s.server_socket)
    set_fd s.current_thread r.ret
    check r.ret
    t ← call os (create s.current_thread)
    check t.ret
    modify (λ s. record s { current_thread = suc s.current_thread })

  -- `while(1)`: the first `n` rounds.
  unfoldable pub serve : ℕ → CrowdThread (Unit {0})
  serve zero = pure tt
  serve (suc n) = (make_room >> accept_client) >> serve n

  -- With the parameters of the program.
  unfoldable pub main : ℕ → ℤ → ℕ → CrowdThread (Unit {0})
  main argc port n = do
    when (if argc == 2 then false else true) (exit 1)
    when (if is_port port then false else true) (exit 1)
    r ← call os socket
    modify (λ s. record s { server_socket = r.ret })
    when (is_neg r.ret) (exit 1)
    b ← call os (bind r.ret)
    check b.ret
    l ← call os (listen r.ret 5)
    check l.ret
    modify (λ s. record s { current_thread = 0 })
    serve n
