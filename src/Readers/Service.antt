-- ===== src/Readers/Service.antt =====
-- The rest of the server of practica3: its sockets, its table of sockets and the thread of a client in
-- proxy.c, and `read_output` and the loop of `main` of server.c.
pub mod Slots
pub mod Visit
use sistemas_distribuidos_y.Common.{
  ℕ, zero, suc, ◌+◌, ◌-◌, ◌*◌, ℤ, pos, negsuc, is_neg, eq_ℤ, inc, dec, String, str_eq, Bool, true,
  false, not, ◌&&◌, ◌||◌, ltb, ◌==◌, if◌then◌else◌, update, ◌>>=◌, ◌>>◌, undefined, get, put,
  modify, when, exit, call, call_, must, call_or_exit, pthread_exit, pure, Libc, address_of,
}
use sistemas_distribuidos_y.Readers.{max_threads, set_priority, get_free_fd}
use sistemas_distribuidos_y.Readers.Server.{
  Request, Response, Server, free_fd_mutex, current_threads_mutex, not_full, Call, socket, bind,
  listen, accept, close, recv_request, send_response, pthread_create, cond_signal, fopen, read_last,
  fclose, ServerOs, ServerThread, on_shared, acquire, release, wait_for, do_request,
}

-- `current_threads >= MAX_THREADS`
abbrev pub is_full : ℤ → Bool
is_full (pos n) = not (ltb n max_threads)
is_full (negsuc n) = false

unfoldable pub set_ip_port : Libc → String → ℤ → ServerThread (Unit {0})
set_ip_port libc ip port = modify (λ s. record s { addr = address_of libc ip port })

module _ (os : ServerOs) where
  unfoldable pub socket_create : ServerThread ℤ
  socket_create = do r ← call_or_exit os socket; pure r.ret

  unfoldable pub socket_bind : ℤ → ServerThread (Unit {0})
  socket_bind fd = do
    s ← get
    r ← call os (bind fd s.addr)
    when (is_neg r.ret) (call_ os (close fd) >> exit 1)

  unfoldable pub socket_listen : ℤ → ServerThread (Unit {0})
  socket_listen fd = do
    r ← call os (listen fd 1000)
    when (is_neg r.ret) (call_ os (close fd) >> exit 1)

  unfoldable pub socket_accept : ℤ → ServerThread ℤ
  socket_accept fd = do
    r ← call os (accept fd)
    if is_neg r.ret then call_ os (close r.ret) >> (call_ os (close fd) >> exit 1) else pure r.ret

  unfoldable pub init_server : Libc → String → ℤ → String → ℤ → ServerThread (Unit {0})
  init_server libc ip port priority ratio = do
    fd ← socket_create
    modify (λ s. record s { server_socket = fd })
    set_ip_port libc ip port
    socket_bind fd
    socket_listen fd
    modify (on_shared (set_priority priority))
    modify (on_shared (λ s. record s { ratio = ratio }))

  unfoldable pub receive_request : ℤ → ServerThread Request
  receive_request fd = do r ← call_or_exit os (recv_request fd); pure r.msg.request

  unfoldable pub respond : Response → ℤ → ServerThread (Unit {0})
  respond response fd = must os (send_response fd response)

  -- `set_counter` of the last line of the file, or of 0 if there is none.
  unfoldable pub read_output : ServerThread (Unit {0})
  read_output = do
    r ← call os (fopen "r")
    counter ←
        (if eq_ℤ r.ret (pos 0)
          then (do
            a ← call os (fopen "a")
            if eq_ℤ a.ret (pos 0) then undefined else (do call_ os fclose; pure 0))
          else (do line ← call os read_last; call_ os fclose; pure line.msg.number))
    modify (λ s. record s { counter = counter })

module _ (os : ServerOs) (meanwhile : Server → Server) where
  -- `get_free_fd`, with its wait.
  unfoldable pub take_free_fd : ServerThread ℕ
  take_free_fd = do
    acquire os meanwhile free_fd_mutex
    s ← get
    when (is_full s.current_threads) (wait_for os meanwhile not_full free_fd_mutex)
    s ← get
    let (id, sockets) = get_free_fd s.client_sockets
    modify (λ s. record s { client_sockets = sockets })
    release os meanwhile free_fd_mutex
    pure id

  -- A write behind the table is a fault.
  unfoldable pub set_value_fd : ℕ → ℤ → ServerThread (Unit {0})
  set_value_fd id value = do
    acquire os meanwhile free_fd_mutex
    if ltb id max_threads
        then modify (λ s. record s { client_sockets = update s.client_sockets id value })
        else undefined
    release os meanwhile free_fd_mutex

  unfoldable pub thread_starts : ServerThread (Unit {0})
  thread_starts = do
    acquire os meanwhile current_threads_mutex
    modify (λ s. record s { current_threads = inc s.current_threads })
    release os meanwhile current_threads_mutex

  unfoldable pub thread_ends : ServerThread (Unit {0})
  thread_ends = do
    acquire os meanwhile current_threads_mutex
    modify (λ s. record s { current_threads = dec s.current_threads })
    call_ os (cond_signal not_full)
    release os meanwhile current_threads_mutex

  -- The two numbers that the thread of a client is given.
  unfoldable pub init_server_thread : ServerThread (ℕ × ℤ)
  init_server_thread = do
    s ← get
    fd ← socket_accept os s.server_socket
    id ← take_free_fd
    set_value_fd id fd
    pure (id, fd)

  unfoldable pub talk_2_client : ℕ → ℤ → ServerThread (Unit {0})
  talk_2_client id fd = do
    request ← receive_request os fd
    response ← do_request os meanwhile request
    respond os response fd
    s ← get
    call_ os (close (s.client_sockets id))
    set_value_fd id (pos 0)
    thread_ends
    pthread_exit

  -- `while (1)` of `main`: the first `n` clients.
  unfoldable pub accept_clients : ℕ → ServerThread (Unit {0})
  accept_clients zero = pure tt
  accept_clients (suc n) = do
    info ← init_server_thread
    must os (pthread_create info.0 info.1)
    thread_starts
    accept_clients n
