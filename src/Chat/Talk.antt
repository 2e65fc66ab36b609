-- ===== src/Chat/Talk.antt =====
-- What the programs of practica1 share: their global variables and buffers, the system calls, and the
-- text of `send_message` and `receive_message` up to what they do when a call fails.
use sistemas_distribuidos_y.Common.{
  ℕ, zero, suc, ℤ, pos, is_neg, eq_ℤ, rounds, List, Bool, true, false, if◌then◌else◌, Os, Thread,
  ◌>>=◌, ◌>>◌, get, modify, when, exit, call, call_, pure, update, length, slice,
}
use sistemas_distribuidos_y.Chat.Buffers.{Buffer, buffer_size, pointer_size, fill, text, c_string}

-- The socket of the program and the buffers of `main`.
pub record Talk : Type 0 where
  pub main_socket : ℤ
  pub in_buffer : Buffer
  pub out_buffer : Buffer

-- `select_` waits for a descriptor or for standard input; `fd_isset` asks whether the descriptor was
-- the one, and is 0 if not. `recv` says how many bytes it wants, and
-- `create` and `join` which entry of the table of threads they are about.
pub data Call : Type 0 where
  socket : Call
  connect : (fd : ℤ) → Call
  bind : (fd : ℤ) → Call
  listen : (fd : ℤ) (backlog : ℕ) → Call
  accept : (fd : ℤ) → Call
  close : (fd : ℤ) → Call
  select_ : (fd : ℤ) → Call
  fd_isset : (fd : ℤ) → Call
  recv : (fd : ℤ) (size : ℕ) → Call
  send : (fd : ℤ) (bytes : List ℕ) → Call
  fgets : Call
  print : (text : List ℕ) → Call
  malloc : (size : ℕ) → Call
  create : (i : ℕ) → Call
  join : (i : ℕ) → Call

-- What the system fills in: the line that `fgets` read, or the bytes that a `recv` got. The value of
-- `fgets` is 0 for `NULL`.
pub record Filled : Type 0 where
  pub line : List ℕ
  pub bytes : Buffer

abbrev pub TalkOs : Type 0
TalkOs = Os Call Filled

abbrev pub TalkThread : Type 0 → Type 0
TalkThread = Thread Talk Call

module _ (os : TalkOs) where
  -- A line of standard input is put into `out_buffer`, and the first bytes of that are sent.
  unfoldable pub send_line : TalkThread (Unit {0}) → ℤ → TalkThread (Unit {0})
  send_line fail fd = do
    r ← call os fgets
    if eq_ℤ r.ret (pos 0) then fail else (do
      modify (λ s. record s {
        out_buffer = fill (suc (length r.msg.line)) (text r.msg.line) s.out_buffer;
      })
      s ← get
      sent ← call os (send fd (slice s.out_buffer 0 pointer_size))
      when (is_neg sent.ret) fail)

  -- What arrives is put into `in_buffer`, and printed.
  unfoldable pub receive_line : TalkThread (Unit {0}) → ℤ → TalkThread (Unit {0})
  receive_line fail fd = do
    modify (λ s. record s { in_buffer = update s.in_buffer 0 0 })
    r ← call os (recv fd pointer_size)
    if is_neg r.ret then fail else (do
      modify (λ s. record s { in_buffer = fill (rounds r.ret) r.msg.bytes s.in_buffer })
      s ← get
      call_ os (print (c_string buffer_size 0 s.in_buffer)))

  -- `receive_line` if something arrives within half a second, and no line was typed before.
  unfoldable pub poll_line : (ℤ → Bool) → TalkThread (Unit {0}) → ℤ → TalkThread (Unit {0})
  poll_line failed fail fd = do
    r ← call os (select_ fd)
    when (failed r.ret) fail
    set ← call os (fd_isset fd)
    if eq_ℤ set.ret (pos 0) then pure tt else receive_line fail fd

  -- The start of a server: until it listens.
  unfoldable pub start_server : TalkThread (Unit {0})
  start_server = do
    r ← call os socket
    modify (λ s. record s { main_socket = r.ret })
    when (is_neg r.ret) (exit 1)
    b ← call os (bind r.ret)
    when (is_neg b.ret) (call_ os (close r.ret) >> exit 1)
    l ← call os (listen r.ret 5)
    when (is_neg l.ret) (call_ os (close r.ret) >> exit 1)

  -- `while (connect(…) != 0)`: the first `n` times. Returns whether it is connected.
  unfoldable pub connect_until : ℕ → TalkThread Bool
  connect_until zero = pure false
  connect_until (suc n) = do
    s ← get
    r ← call os (connect s.main_socket)
    if eq_ℤ r.ret (pos 0) then pure true else connect_until n

  -- The start of a client. Its test `socket < 0` is of the function and never holds.
  unfoldable pub start_client : ℕ → TalkThread Bool
  start_client tries = do
    r ← call os socket
    modify (λ s. record s { main_socket = r.ret })
    connect_until tries

  unfoldable pub close_and_exit : TalkThread (Unit {0})
  close_and_exit = do s ← get; call_ os (close s.main_socket); exit 1
