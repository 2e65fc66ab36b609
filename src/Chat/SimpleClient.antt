-- ===== src/Chat/SimpleClient.antt =====
-- practica1/ServidorSimple/client.c.
use sistemas_distribuidos_y.Common.{ℕ, zero, suc, ◌>>=◌, ◌>>◌, get, pure, if◌then◌else◌}
use sistemas_distribuidos_y.Chat.Talk.{
  TalkOs, TalkThread, send_line, receive_line, start_client, close_and_exit,
}

module _ (os : TalkOs) where
  unfoldable pub sighandler : TalkThread (Unit {0})
  sighandler = close_and_exit os

  unfoldable pub send_message : TalkThread (Unit {0})
  send_message = do s ← get; send_line os (close_and_exit os) s.main_socket

  unfoldable pub receive_message : TalkThread (Unit {0})
  receive_message = do s ← get; receive_line os (close_and_exit os) s.main_socket

  -- `while (1)`: the first `n` rounds.
  unfoldable pub talk : ℕ → TalkThread (Unit {0})
  talk zero = pure tt
  talk (suc n) = do send_message; receive_message; talk n

  -- With bounds for its two loops.
  unfoldable pub main : ℕ → ℕ → TalkThread (Unit {0})
  main tries n = do connected ← start_client os tries; if connected then talk n else pure tt
