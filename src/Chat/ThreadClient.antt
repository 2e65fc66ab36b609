-- ===== src/Chat/ThreadClient.antt =====
-- practica1/ServidorMultiHilo/client.c. The text of a number is made by `snprintf`, a parameter.
use sistemas_distribuidos_y.Common.{
  ℕ, zero, suc, ◌+◌, ℤ, pos, is_neg, eq_ℤ, rounds, Bool, true, false, leb, ◌==◌, List, [], ◌∷◌,
  ◌++◌, length, slice, update, Thread, ◌>>=◌, ◌>>◌, get, modify, when, exit, call, call_, pure,
  undefined, if◌then◌else◌,
}
use sistemas_distribuidos_y.Chat.Buffers.{Buffer, buffer_size, fill, text, c_string}
use sistemas_distribuidos_y.Chat.Talk.{
  Talk, Call, recv, send, print, malloc, TalkOs, TalkThread, start_client, close_and_exit,
}
use sistemas_distribuidos_y.Chat.ThreadServer.{is_port}
pub mod Overflow

-- `sprintf` into a block of `size` bytes: the text and the 0 behind it.
unfoldable pub sprintf : ℕ → List ℕ → TalkThread (Unit {0})
sprintf size line =
    if leb (suc (length line)) size
    then modify (λ s. record s { out_buffer = fill (suc (length line)) (text line) s.out_buffer })
    else undefined

module _ (os : TalkOs) where
  unfoldable pub sighandler : TalkThread (Unit {0})
  sighandler = close_and_exit os

  -- `strlen` of the text and its 0; that many bytes are sent.
  unfoldable pub send_message : TalkThread (Unit {0})
  send_message = do
    s ← get
    r ← call os (
        send s.main_socket
          (slice s.out_buffer 0 (suc (length (c_string buffer_size 0 s.out_buffer)))))
    when (is_neg r.ret) (close_and_exit os)

  unfoldable pub receive_message : TalkThread (Unit {0})
  receive_message = do
    modify (λ s. record s { in_buffer = update s.in_buffer 0 0 })
    s ← get
    r ← call os (recv s.main_socket buffer_size)
    when (is_neg r.ret) (close_and_exit os)
    modify (λ s. record s { in_buffer = fill (rounds r.ret) r.msg.bytes s.in_buffer })
    s ← get
    call_ os (print (c_string buffer_size 0 s.in_buffer))

  -- The body of the loop, which returns at its end. A call of `malloc` returns 0 for `NULL`.
  unfoldable pub talk : List ℕ → TalkThread (Unit {0})
  talk line = do
    r ← call os (malloc (length line))
    when (eq_ℤ r.ret (pos 0)) (close_and_exit os)
    sprintf (length line) line
    send_message
    receive_message

  -- `greeting` is the text that the format and the identifier give.
  unfoldable pub main : ℕ → ℤ → List ℕ → ℕ → TalkThread (Unit {0})
  main argc port greeting tries = do
    when (if argc == 4 then false else true) (exit 1)
    when (if is_port port then false else true) (exit 1)
    connected ← start_client os tries
    if connected then talk greeting else pure tt
