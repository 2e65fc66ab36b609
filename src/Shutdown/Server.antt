-- ===== src/Shutdown/Server.antt =====
-- P2 of practica2: `server_receive` and `send_msg_to_client` of proxy.c, and `main` of P2.c from
-- `init_server` on.
use sistemas_distribuidos_y.Common.{
  ℕ, zero, suc, Bool, true, false, ◌&&◌, List, [], ◌∷◌, Option, none, some, ◌==◌, if◌then◌else◌,
  is_neg, ◌>>=◌, ◌>>◌, get, exit, call, call_, pure,
}
use sistemas_distribuidos_y.Shutdown.Types.{
  Message, ProcessOs, ProcessThread, expected_lamport_p2, pthread_create, pthread_join, print,
  apagados,
}
use sistemas_distribuidos_y.Shutdown.Messages.{
  deliver, notify_shutdown_now, close_server, init_server, do_receive_in_socket,
}

-- The cases of `send_msg_to_client`.
unfoldable pub answers : ℕ → Bool
answers clock = if clock == 1 then true else clock == 5

module _ (os : ProcessOs) where
  unfoldable pub send_msg_to_client : ℕ → ProcessThread (Unit {0})
  send_msg_to_client clock = if answers clock then notify_shutdown_now os else pure tt

  -- One round of the inner loop: the second socket is not read if the first one had the message that
  -- is waited for.
  unfoldable pub receive_once : ℕ → Message → ProcessThread Message
  receive_once x message = do
    p ← get
    first ← do_receive_in_socket os p.client_socket_1_ message
    if first.0 && x == first.1.clock_lamport
        then pure first.1
        else (do second ← do_receive_in_socket os p.client_socket_2_ first.1; pure second.1)

  -- `do … while`: at most `n` rounds.
  unfoldable pub receive_until : ℕ → ℕ → Message → ProcessThread (Option Message)
  receive_until zero x message = pure none
  receive_until (suc n) x message = do
    m ← receive_once x message
    if m.clock_lamport == x then pure (some m) else receive_until n x m

  -- `while(1)` with the clocks that are still waited for, each for at most `n` rounds. Returns
  -- whether the loop was left.
  unfoldable pub server_loop : ℕ → List ℕ → Message → ProcessThread Bool
  server_loop n [] message = pure true
  server_loop n (x ∷ xs) message = do
    got ← receive_until n x message
    elim got [
      | none ↦ pure false
      | some m ↦ do
        deliver os m
        send_msg_to_client m.clock_lamport
        server_loop n xs (record m { clock_lamport = 0 })
    ]

  -- `garbage` is what the variable `message` holds before it is set.
  unfoldable pub server_receive : ℕ → Message → ProcessThread Bool
  server_receive n garbage = server_loop n expected_lamport_p2 garbage

  -- `main` from `init_server` on.
  unfoldable pub run_server : ℕ → Message → ProcessThread Bool
  run_server n garbage = do
    init_server os
    r ← call os pthread_create
    if is_neg r.ret then close_server os >> exit 1 else (do
      done ← server_receive n garbage
      if done
          then (do
            j ← call os pthread_join
            if is_neg j.ret then close_server os >> exit 1 else (do
              p ← get
              call_ os (print (apagados p.lamport_))
              close_server os
              pure true))
          else pure false)
