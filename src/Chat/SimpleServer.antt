-- ===== src/Chat/SimpleServer.antt =====
-- practica1/ServidorSimple/server.c.
use sistemas_distribuidos_y.Common.{
  ℕ, zero, suc, ℤ, is_neg, ◌>>=◌, ◌>>◌, get, exit, call, call_, pure, if◌then◌else◌,
}
use sistemas_distribuidos_y.Chat.Talk.{
  accept, close, TalkOs, TalkThread, send_line, receive_line, start_server, close_and_exit,
}

module _ (os : TalkOs) where
  unfoldable pub sighandler : TalkThread (Unit {0})
  sighandler = close_and_exit os

  -- What follows a call that failed.
  unfoldable pub fail : ℤ → TalkThread (Unit {0})
  fail fd = do s ← get; call_ os (close s.main_socket); call_ os (close fd); exit 1

  unfoldable pub send_message : ℤ → TalkThread (Unit {0})
  send_message fd = send_line os (fail fd) fd

  unfoldable pub receive_message : ℤ → TalkThread (Unit {0})
  receive_message fd = receive_line os (fail fd) fd

  -- `while(1)`: the first `n` rounds.
  unfoldable pub serve : ℕ → ℤ → TalkThread (Unit {0})
  serve zero fd = pure tt
  serve (suc n) fd = do receive_message fd; send_message fd; serve n fd

  unfoldable pub main : ℕ → TalkThread (Unit {0})
  main n = do
    start_server os
    s ← get
    r ← call os (accept s.main_socket)
    if is_neg r.ret
        then (do call_ os (close r.ret); s ← get; call_ os (close s.main_socket); exit 1)
        else serve n r.ret
