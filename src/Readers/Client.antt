-- ===== src/Readers/Client.antt =====
-- The client of practica3: `talk_2_server` and its sockets in proxy.c, and the loops of `main` of client.c.
use sistemas_distribuidos_y.Common.{
  ℕ, zero, suc, ℤ, pos, is_neg, eq_ℤ, rounds, String, str_eq, not, if◌then◌else◌, Os, Thread, ◌>>=◌,
  ◌>>◌, when, exit, call, call_, must, call_or_exit, pthread_exit, pure, List, [], ◌∷◌, ◌≡◌, refl,
  ◌⊎◌, inl, inr, arith, Bool-cases, SockaddrIn, get, exited, ended,
}
use sistemas_distribuidos_y.Readers.{Action, read, write}
use sistemas_distribuidos_y.Readers.Server.{Request, Response}

pub data Line : Type 0 where
  turno : (thread_id : ℕ) (action : Action) (counter : ℕ) (waiting_time : ℤ) → Line

pub data Call : Type 0 where
  socket : Call
  connect : (fd : ℤ) (addr : SockaddrIn) → Call
  send : (fd : ℤ) (request : Request) → Call
  recv : (fd : ℤ) → Call
  close : (fd : ℤ) → Call
  print : (line : Line) → Call
  pthread_create : (thread_id : ℕ) (mode : String) → Call
  pthread_join : (thread_id : ℕ) → Call

abbrev pub ClientOs : Type 0
ClientOs = Os Call Response

-- The state is `addr`, which is set before the threads start and is the only global variable that
-- they read.
abbrev pub ClientThread : Type 0 → Type 0
ClientThread = Thread SockaddrIn Call

unfoldable pub action_of : String → Action
action_of mode = if str_eq mode "reader" then read else write

module _ (os : ClientOs) where
  unfoldable pub socket_create : ClientThread ℤ
  socket_create = do r ← call_or_exit os socket; pure r.ret

  unfoldable pub socket_connect : ℤ → ClientThread (Unit {0})
  socket_connect fd = do
    addr ← get
    r ← call os (connect fd addr)
    when (not (eq_ℤ r.ret (pos 0))) (exit 1)

  unfoldable pub receive_response : ℤ → ClientThread Response
  receive_response fd = do
    r ← call os (recv fd)
    if is_neg r.ret then call_ os (close fd) >> exit 1 else pure r.msg

  unfoldable pub talk_2_server : String → ℕ → ClientThread (Unit {0})
  talk_2_server mode thread_id = do
    fd ← socket_create
    socket_connect fd
    must os (send fd (record { action = action_of mode; id = thread_id }))
    response ← receive_response fd
    call_ os (print (turno thread_id response.action response.counter response.waiting_time))
    call_ os (close fd)
    pthread_exit

  -- The loops of `main`, with `n` rounds left, at position `i`.
  unfoldable pub start_threads : String → ℕ → ℕ → ClientThread (Unit {0})
  start_threads mode zero i = pure tt
  start_threads mode (suc n) i = do must os (pthread_create i mode); start_threads mode n (suc i)

  unfoldable pub join_threads : ℕ → ℕ → ClientThread (Unit {0})
  join_threads zero i = pure tt
  join_threads (suc n) i = do must os (pthread_join i); join_threads n (suc i)

  -- `main` from its threads on. It ends by `exit(EXIT_SUCCESS)`.
  unfoldable pub run_threads : String → ℤ → ClientThread (Unit {0})
  run_threads mode thread_num = do
    start_threads mode (rounds thread_num) 0
    join_threads (rounds thread_num) 0
    exit 0

-- Whatever the system answers, a thread of the client either exits with status 1, and then it has
-- printed nothing, or it has sent one request, for its mode and with its number, printed the response
-- to it, and closed its socket.
pub talk_2_server_lem :
    (os : ClientOs) (mode : String) (thread_id : ℕ) (addr : SockaddrIn)
    → let fd = (os [] socket).ret in
      let asked =
        send fd (record { action = action_of mode; id = thread_id })
        ∷ connect fd addr
        ∷ socket
        ∷ [] in
      let response = (os asked (recv fd)).msg in
      ((tr : List Call) × (talk_2_server os mode thread_id (record { st = addr; trace = [] })
          ≡ exited 1 (record { st = addr; trace = tr }))
        × ((tr ≡ socket ∷ [])
            ⊎ (tr ≡ connect fd addr ∷ socket ∷ [])
            ⊎ (tr ≡ asked)
            ⊎ (tr ≡ close fd ∷ recv fd ∷ asked)))
      ⊎ (talk_2_server os mode thread_id (record { st = addr; trace = [] })
          ≡ ended (record {
            st = addr;
            trace =
                close fd
                ∷ print (turno thread_id response.action response.counter response.waiting_time)
                ∷ recv fd
                ∷ asked;
          }))
unfolding talk_2_server socket_create socket_connect receive_response
talk_2_server_lem os mode thread_id addr = elim (Bool-cases (is_neg fd_ret)) [
  | inl a ↦ inl (socket ∷ [], ground arith, inl refl)
  | inr a ↦ elim (Bool-cases (eq_ℤ connected (pos 0))) [
    | inr b ↦ inl (connect fd_ret addr ∷ socket ∷ [], ground arith, inr (inl refl))
    | inl b ↦
        elim (Bool-cases
          (is_neg (os (connect fd_ret addr ∷ socket ∷ []) (send fd_ret request)).ret)) [
            | inl c ↦ inl (asked, ground arith, inr (inr (inl refl)))
            | inr c ↦ elim (Bool-cases (is_neg (os asked (recv fd_ret)).ret)) [
              | inl d ↦ inl (close fd_ret ∷ recv fd_ret ∷ asked, ground arith, inr (inr (inr refl)))
              | inr d ↦ inr (ground arith)
            ]
          ]
  ]
]
  where
    fd_ret : ℤ
    fd_ret = (os [] socket).ret

    connected : ℤ
    connected = (os (socket ∷ []) (connect fd_ret addr)).ret

    request : Request
    request = record { action = action_of mode; id = thread_id }

    asked : List Call
    asked = send fd_ret request ∷ connect fd_ret addr ∷ socket ∷ []
