-- ===== src/Chat/PollingServer.antt =====
-- practica1/ServidorSimpleNoBloqueante/server.c.
use sistemas_distribuidos_y.Common.{
  ℕ, zero, suc, ℤ, negsuc, is_neg, eq_ℤ, ◌>>=◌, ◌>>◌, get, exit, call, call_, pure, if◌then◌else◌,
}
use sistemas_distribuidos_y.Chat.Talk.{
  accept, close, TalkOs, TalkThread, send_line, poll_line, start_server, close_and_exit,
}

module _ (os : TalkOs) where
  unfoldable pub sighandler : TalkThread (Unit {0})
  sighandler = close_and_exit os

  -- What follows a call that failed.
  unfoldable pub fail : ℤ → TalkThread (Unit {0})
  fail fd = do s ← get; call_ os (close s.main_socket); call_ os (close fd); exit 1

  unfoldable pub send_message : ℤ → TalkThread (Unit {0})
  send_message fd = send_line os (fail fd) fd

  unfoldable pub receive_message : ℤ → TalkThread (Unit {0})
  receive_message fd = poll_line os (λ r. eq_ℤ r (negsuc 0)) (fail fd) fd

  -- `while(1)`: the first `n` rounds.
  unfoldable pub serve : ℕ → ℤ → TalkThread (Unit {0})
  serve zero fd = pure tt
  serve (suc n) fd = do receive_message fd; send_message fd; serve n fd

  unfoldable pub main : ℕ → TalkThread (Unit {0})
  main n = do
    start_server os
    s ← get
    r ← call os (accept s.main_socket)
    if is_neg r.ret
        then (do s ← get; call_ os (close s.main_socket); call_ os (close r.ret); exit 1)
        else serve n r.ret
