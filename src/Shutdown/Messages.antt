-- ===== src/Shutdown/Messages.antt =====
-- The messages of practica2/proxy.c, what is done with the clock, and the sockets.
use sistemas_distribuidos_y.Common.{
  ℕ, zero, suc, ◌+◌, ℤ, is_neg, eq_ℤ, pos, negsuc, String, Bool, true, false, ◌||◌, ltb,
  if◌then◌else◌, ◌>>=◌, ◌>>◌, get, modify, exit, call, call_, pure,
}
use sistemas_distribuidos_y.Shutdown.Types.{
  Operation, ready_to_shutdown, shutdown_now, shutdown_ack, Message, Process, ProcessOs,
  ProcessThread, sent, received, socket, connect, bind, listen, accept, close, select, fd_isset,
  recv, send, print,
}

-- The new clock at a send.
unfoldable pub tick : ℕ → ℕ
tick lamport = lamport + 1

-- The new clock at a receive: it goes past the one of the message, and never back.
unfoldable pub observe : ℕ → ℕ → ℕ
observe lamport clock = if ltb lamport clock then clock + 1 else lamport

unfoldable pub action_to_str : Operation → String
action_to_str ready_to_shutdown = "READY_TO_SHUTDOWN"
action_to_str shutdown_now = "SHUTDOWN_NOW"
action_to_str shutdown_ack = "SHUTDOWN_ACK"

-- A message of a process at its clock.
abbrev pub stamped : Process → Operation → Message
stamped p action = record { origin = p.proc_name; action = action; clock_lamport = p.lamport_ }

-- The body of the `if` that a message passes which was waited for: the clock, and a line.
abbrev pub deliver : ProcessOs → Message → ProcessThread (Unit {0})
deliver os message = do
  modify (λ p. record p { lamport_ = observe p.lamport_ message.clock_lamport })
  p ← get
  call_ os (print (received p.proc_name p.lamport_ message.origin (action_to_str message.action)))

module _ (os : ProcessOs) where
  -- `if (send(…) < 0) { close(…); exit(1); }`
  unfoldable pub send_or_close : ℤ → Message → ProcessThread (Unit {0})
  send_or_close fd message = do
    r ← call os (send fd message)
    if is_neg r.ret then call_ os (close fd) >> exit 1 else pure tt

  unfoldable pub notify_ready_shutdown : ProcessThread (Unit {0})
  notify_ready_shutdown = do
    modify (λ p. record p { lamport_ = tick p.lamport_ })
    p ← get
    send_or_close p.socket_ (stamped p ready_to_shutdown)
    call_ os (print (sent p.proc_name p.lamport_ ready_to_shutdown))

  unfoldable pub notify_shutdown_ack : ProcessThread (Unit {0})
  notify_shutdown_ack = do
    modify (λ p. record p { lamport_ = tick p.lamport_ })
    p ← get
    send_or_close p.socket_ (stamped p shutdown_ack)
    call_ os (print (sent p.proc_name p.lamport_ shutdown_ack))

  unfoldable pub notify_shutdown_now : ProcessThread (Unit {0})
  notify_shutdown_now = do
    modify (λ p. record p { lamport_ = tick p.lamport_ })
    p ← get
    send_or_close p.client_socket_1_ (stamped p shutdown_now)
    send_or_close p.client_socket_2_ (stamped p shutdown_now)
    call_ os (print (sent p.proc_name p.lamport_ shutdown_now))

  unfoldable pub close_client : ProcessThread (Unit {0})
  close_client = do notify_shutdown_ack; p ← get; call_ os (close p.socket_)

  unfoldable pub close_server : ProcessThread (Unit {0})
  close_server = do
    p ← get
    call_ os (close p.socket_)
    call_ os (close p.client_socket_1_)
    call_ os (close p.client_socket_2_)

  unfoldable pub signal_handler : ProcessThread (Unit {0})
  signal_handler = do
    p ← get
    call_ os (close p.client_socket_1_)
    call_ os (close p.client_socket_2_)
    exit 1

  unfoldable pub socket_create : ProcessThread (Unit {0})
  socket_create = do
    r ← call os socket
    modify (λ p. record p { socket_ = r.ret })
    if is_neg r.ret then exit 1 else pure tt

  -- It tries again until it is connected: the first `n` times. Returns whether it is.
  unfoldable pub socket_connect : ℕ → ProcessThread Bool
  socket_connect zero = pure false
  socket_connect (suc n) = do
    p ← get
    r ← call os (connect p.socket_ p.addr)
    if eq_ℤ r.ret (pos 0) then pure true else socket_connect n

  unfoldable pub socket_bind : ProcessThread (Unit {0})
  socket_bind = do
    p ← get
    r ← call os (bind p.socket_ p.addr)
    if is_neg r.ret then call_ os (close p.socket_) >> exit 1 else pure tt

  unfoldable pub socket_listen : ProcessThread (Unit {0})
  socket_listen = do
    p ← get
    r ← call os (listen p.socket_)
    if is_neg r.ret then call_ os (close p.socket_) >> exit 1 else pure tt

  unfoldable pub socket_accept : ProcessThread (Unit {0})
  socket_accept = do
    p ← get
    r1 ← call os (accept p.socket_)
    r2 ← call os (accept p.socket_)
    modify (λ p. record p { client_socket_1_ = r1.ret; client_socket_2_ = r2.ret })
    if is_neg r1.ret || is_neg r2.ret
        then (do
          call_ os (close r1.ret)
          call_ os (close r2.ret)
          call_ os (close p.socket_)
          exit 1)
        else pure tt

  unfoldable pub init_server : ProcessThread (Unit {0})
  init_server = do socket_create; socket_bind; socket_listen; socket_accept

  unfoldable pub init_client : ℕ → ProcessThread Bool
  init_client n = do socket_create; socket_connect n

  -- Whether there was data, and the variable `message` of the caller: the new message, or the old.
  unfoldable pub do_receive_in_socket : ℤ → Message → ProcessThread (Bool × Message)
  do_receive_in_socket fd message = do
    p ← get
    r ← call os (select fd)
    if eq_ℤ r.ret (negsuc 0)
        then (do call_ os (close fd); call_ os (close p.socket_); exit 1)
        else (do
          set ← call os (fd_isset fd)
          if eq_ℤ set.ret (pos 0) then pure (false, message) else (do
            m ← call os (recv fd)
            if is_neg m.ret
                then (do call_ os (close fd); call_ os (close p.socket_); exit 1)
                else pure (true, m.msg)))
