-- ===== src/Readers.antt =====
-- The server of practica3/proxy.c, which readers and writers of a counter ask: its table of sockets,
-- and whom a client wakes up when it leaves.
pub mod Table
pub mod Turn
pub mod Requests
pub mod Server
pub mod Service
pub mod Client
pub mod Start
pub mod Exchange
mod Tests
use sistemas_distribuidos_y.Common.{
  ℕ, zero, suc, ◌-◌, ℤ, pos, negsuc, eq_ℤ, String, str_eq, Bool, true, false, not, ◌&&◌, ltb, ◌==◌,
  if◌then◌else◌, update,
}

-- MAX_THREADS.
abbrev pub max_threads : ℕ
max_threads = 250

-- READ and WRITE, the values of `action` and of `priority`.
pub data Action : Type 0 where
  read write : Action

abbrev pub same : Action → Action → Bool
same read read = true
same write write = true
same _ _ = false

-- The global variables that `do_request` decides with. The counters of clients only go down after
-- they went up.
pub record Shared : Type 0 where
  pub priority : Action
  pub ratio : ℤ
  pub ratio_counter : ℕ
  pub current_readers : ℕ
  pub current_writers : ℕ

unfoldable pub set_priority : String → Shared → Shared
set_priority prio s = record s { priority = if str_eq prio "reader" then read else write }

-- The loop of `get_free_fd`, with `n` rounds left, at position `i`: the first entry that is 0, or the
-- end.
unfoldable pub find_free : ℕ → ℕ → (ℕ → ℤ) → ℕ
find_free zero i sockets = i
find_free (suc n) i sockets = if eq_ℤ (sockets i) (pos 0) then i else find_free n (suc i) sockets

-- `get_free_fd` behind its wait: the position, and the table.
unfoldable pub get_free_fd : (ℕ → ℤ) → ℕ × (ℕ → ℤ)
get_free_fd sockets =
    let id = find_free max_threads 0 sockets in
    if ltb id max_threads then (id, update sockets id (pos 1)) else (id, sockets)

-- `ratio_counter >= ratio && ratio != 0`
abbrev pub at_least : ℕ → ℤ → Bool
at_least n (pos r) = not (ltb n r)
at_least n (negsuc r) = true

unfoldable pub is_due : Shared → Bool
is_due s = at_least s.ratio_counter s.ratio && not (eq_ℤ s.ratio (pos 0))

-- `current_readers--` or `current_writers--`
unfoldable pub depart : Action → Shared → Shared
depart read s = record s { current_readers = s.current_readers - 1 }
depart write s = record s { current_writers = s.current_writers - 1 }

-- The `if`s of `do_request` that say whom to signal: `allow_readers` is `read` here, and
-- `allow_writers` is `write`.
unfoldable pub signal_next : Action → Shared → Action × Shared
signal_next action s =
    if is_due s && (same action read && ltb 0 s.current_writers)
    then (write, record s { ratio_counter = 0 })
    else if is_due s && (same action write && ltb 0 s.current_readers)
    then (read, record s { ratio_counter = 0 })
    else if same s.priority read && ltb 0 s.current_readers
    then (read, s)
    else if same s.priority write && ltb 0 s.current_writers
    then (write, s)
    else if same action read && ltb 0 s.current_readers
    then (read, s)
    else if same action write && ltb 0 s.current_writers
    then (write, s)
    else if same action read && (s.current_readers == 0)
    then (write, s)
    else if same action write && (s.current_writers == 0)
    then (read, s)
    else (read, s)

-- From the second lock of `counter_mutex` to its unlock.
unfoldable pub leave : Action → Shared → Action × Shared
leave action s = signal_next action (depart action s)
