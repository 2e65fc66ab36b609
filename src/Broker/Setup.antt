-- ===== src/Broker/Setup.antt =====
-- The start of the broker: `init_broker`, `init_server_thread` and the socket functions of
-- practica4/proxy_broker.c, and the loop of `main` of practica4/broker.c.
use sistemas_distribuidos_y.Common.{
  ℕ, zero, suc, ℤ, String, str_eq, List, ◌∷◌, ◌≡◌, refl, ◌⊎◌, inl, inr, arith, Bool-cases,
  if◌then◌else◌, is_neg, World, ok, exited, ◌>>=◌, ◌>>◌, get, modify, exit, call, call_, must,
  call_or_exit, pure, SockaddrIn, Libc, address_of,
}
use sistemas_distribuidos_y.Broker.Types.{
  Broker, Mode, secuencial, paralelo, justo, Call, BrokerOs, BrokerThread, socket, bind, listen,
  accept, close, pthread_create_client,
}

module _ (os : BrokerOs) where
  unfoldable pub socket_create : BrokerThread ℤ
  socket_create = do r ← call_or_exit os socket; pure r.ret

  unfoldable pub socket_bind : ℤ → BrokerThread (Unit {0})
  socket_bind fd = do
    b ← get
    r ← call os (bind fd b.addr)
    if is_neg r.ret then call_ os (close fd) >> exit 1 else pure tt

  unfoldable pub socket_listen : ℤ → BrokerThread (Unit {0})
  socket_listen fd = do
    r ← call os (listen fd 1000)
    if is_neg r.ret then call_ os (close fd) >> exit 1 else pure tt

  unfoldable pub socket_accept : ℤ → BrokerThread ℤ
  socket_accept fd = do
    r ← call os (accept fd)
    if is_neg r.ret then call_ os (close r.ret) >> (call_ os (close fd) >> exit 1) else pure r.ret

-- The strings that `init_broker` compares with; any other leaves `mode` as it is.
unfoldable pub mode_of : String → Mode → Mode
mode_of mode_ mode =
    if str_eq mode_ "secuencial"
    then secuencial
    else if str_eq mode_ "paralelo"
    then paralelo
    else if str_eq mode_ "justo"
    then justo
    else mode

unfoldable pub set_ip_port : Libc → String → ℤ → BrokerThread (Unit {0})
set_ip_port libc ip port = modify (λ b. record b { addr = address_of libc ip port })

module _ (os : BrokerOs) where
  unfoldable pub init_broker : Libc → String → ℤ → String → BrokerThread (Unit {0})
  init_broker libc ip port mode_ = do
    fd ← socket_create os
    modify (λ b. record b { server_socket = fd })
    set_ip_port libc ip port
    socket_bind os fd
    socket_listen os fd
    modify (λ b. record b { mode = mode_of mode_ b.mode })

  -- `thread_info[0]` of the next client.
  unfoldable pub init_server_thread : BrokerThread ℤ
  init_server_thread = do b ← get; socket_accept os b.server_socket

  -- `while(1)` of `main`: the first `n` clients.
  unfoldable pub accept_clients : ℕ → BrokerThread (Unit {0})
  accept_clients zero = pure tt
  accept_clients (suc n) = do
    fd ← init_server_thread
    must os (pthread_create_client fd)
    accept_clients n

-- At its start, either the broker listens on the socket that it created, in the mode that was asked for and at the
-- address that it was given, and with the rest of its state as it was; or the process exits with status 1, and has closed the socket if
-- there was one.
pub init_broker_lem :
    (os : BrokerOs) (libc : Libc) (ip : String) (port : ℤ) (mode_ : String) (w : World Broker Call)
    → let fd = (os w.trace socket).ret in
      let addr = address_of libc ip port in
      (init_broker os libc ip port mode_ w
        ≡ ok tt (record {
          st = record w.st { addr = addr; server_socket = fd; mode = mode_of mode_ w.st.mode };
          trace = listen fd 1000 ∷ bind fd addr ∷ socket ∷ w.trace;
        }))
      ⊎ ((w' : World Broker Call) × (init_broker os libc ip port mode_ w ≡ exited 1 w')
          × ((w'.trace ≡ socket ∷ w.trace) ⊎ ((calls : List Call) × (w'.trace ≡ close fd ∷ calls))))
unfolding init_broker socket_create socket_bind socket_listen set_ip_port
init_broker_lem os libc ip port mode_ w = elim (Bool-cases (is_neg (os w.trace socket).ret)) [
  | inl no_socket ↦ inr (record { st = w.st; trace = socket ∷ w.trace }, ground arith, inl refl)
  | inr made ↦ elim (Bool-cases (is_neg (os (socket ∷ w.trace) (bind fd addr)).ret)) [
    | inl not_bound ↦ inr (
      record { st = opened; trace = close fd ∷ bind fd addr ∷ socket ∷ w.trace },
      ground arith,
      inr (_, refl),
    )
    | inr bound ↦
        elim (Bool-cases (is_neg (os (bind fd addr ∷ socket ∷ w.trace) (listen fd 1000)).ret)) [
          | inl deaf ↦ inr (
            record {
              st = opened;
              trace = close fd ∷ listen fd 1000 ∷ bind fd addr ∷ socket ∷ w.trace;
            },
            ground arith,
            inr (_, refl),
          )
          | inr listening ↦ inl (ground arith)
        ]
  ]
]
  where
    addr : SockaddrIn
    addr = address_of libc ip port

    fd : ℤ
    fd = (os w.trace socket).ret

    opened : Broker
    opened = record w.st { addr = address_of libc ip port; server_socket = fd }
