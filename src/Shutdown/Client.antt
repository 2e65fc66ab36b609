-- ===== src/Shutdown/Client.antt =====
-- P1 and P3 of practica2: `client_receive` of proxy.c, and `main` of P1.c and P3.c from `init_client` on.
use sistemas_distribuidos_y.Common.{
  ℕ, zero, suc, String, str_eq, Bool, true, false, List, [], ◌∷◌, ◌==◌, if◌then◌else◌, is_neg,
  ◌>>=◌, ◌>>◌, get, exit, call, call_, pure,
}
use sistemas_distribuidos_y.Shutdown.Types.{
  ProcessOs, ProcessThread, expected_lamport_p1, expected_lamport_p3, recv, close, pthread_create,
  pthread_join,
}
use sistemas_distribuidos_y.Shutdown.Messages.{
  deliver, notify_ready_shutdown, close_client, init_client,
}

-- The array of clocks that a client waits for.
unfoldable pub expected_of : String → List ℕ
expected_of name = if str_eq name "P1" then expected_lamport_p1 else expected_lamport_p3

module _ (os : ProcessOs) where
  -- `while(1)` with the clocks that are still waited for: at most `n` messages. Returns whether the
  -- loop was left.
  unfoldable pub client_loop : ℕ → List ℕ → ProcessThread Bool
  client_loop n [] = pure true
  client_loop zero (x ∷ xs) = pure false
  client_loop (suc n) (x ∷ xs) = do
    p ← get
    r ← call os (recv p.socket_)
    if is_neg r.ret
        then call_ os (close p.socket_) >> exit 1
        else (if r.msg.clock_lamport == x
            then deliver os r.msg >> client_loop n xs
            else client_loop n (x ∷ xs))

  unfoldable pub client_receive : ℕ → ProcessThread Bool
  client_receive n = do notify_ready_shutdown os; p ← get; client_loop n (expected_of p.proc_name)

  -- `main` from `init_client` on, with bounds for the two loops. The thread is the only one that is
  -- active until it ends.
  unfoldable pub run_client : ℕ → ℕ → ProcessThread Bool
  run_client tries n = do
    connected ← init_client os tries
    if connected
        then (do
          r ← call os pthread_create
          if is_neg r.ret then close_client os >> exit 1 else (do
            done ← client_receive n
            if done
                then (do
                  j ← call os pthread_join
                  if is_neg j.ret then close_client os >> exit 1 else close_client os >> pure true)
                else pure false))
        else pure false
