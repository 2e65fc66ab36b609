-- ===== src/Broker/Just.antt =====
-- The fair mode: the threads that `publish_msg` starts with `send_just` (practica4/proxy_broker.c),
-- interleaved in any order. What a thread does between a lock and the next unlock or wait of `mutex`
-- is one step; `pthread_cond_wait` gives the mutex back and takes it again when it is woken up.
pub mod Barrier
pub mod Stuck
mod Tests
use sistemas_distribuidos_y.Common.{
  ℕ, suc, ◌+◌, ◌-◌, ◌<◌, ◌≡◌, Bool, true, false, ltb, if◌then◌else◌, update,
}

-- Where a thread stands.
pub data Pc : Type 0 where
  start : Pc  -- before the lock
  waiting : Pc  -- in `pthread_cond_wait`
  woken : Pc  -- signalled, waiting for the mutex
  passed : Pc  -- behind the unlock, before `send`
  sent : Pc

-- `just_threads` and the threads.
pub record State : Type 0 where
  pub just_threads : ℕ
  pub pc : ℕ → Pc

-- `pthread_cond_broadcast(&just_condition)`.
abbrev pub wake : Pc → Pc
wake waiting = woken
wake p = p

unfoldable pub broadcast : (ℕ → Pc) → ℕ → Pc
broadcast pc i = wake (pc i)

-- From the `just_threads--` to the unlock.
unfoldable pub leave : ℕ → State → State
leave i s = record { just_threads = s.just_threads - 1; pc = update (broadcast s.pc) i passed }

-- From the lock to the wait or to the unlock, for the thread `i` and a topic with `subs` subscribers.
unfoldable pub arrive : ℕ → ℕ → State → State
arrive subs i s =
    if ltb (suc s.just_threads) subs
    then record { just_threads = suc s.just_threads; pc = update s.pc i waiting }
    else leave i (record s { just_threads = suc s.just_threads })

-- A step of one of `n` threads. With `spurious`, a wait may end with nobody to signal it.
pub data Step (spurious : Bool) (n subs : ℕ) (s : State) : State → Type 0 where
  arrives : (i : ℕ) → i < n → s.pc i ≡ start → Step spurious n subs s (arrive subs i s)
  wakes : (i : ℕ) → i < n → s.pc i ≡ woken → Step spurious n subs s (leave i s)
  sends :
      (i : ℕ)
      → i < n
      → s.pc i ≡ passed
      → Step spurious n subs s (record s { pc = update s.pc i sent })
  wakes_up :
      (i : ℕ)
      → i < n
      → s.pc i ≡ waiting
      → spurious ≡ true
      → Step spurious n subs s (record s { pc = update s.pc i woken })

abbrev pub started : State
started = record { just_threads = 0; pc = λ _. start }

pub data Reach (spurious : Bool) (n subs : ℕ) : State → Type 0 where
  begin : Reach spurious n subs started
  later :
      {s t : State} → Reach spurious n subs s → Step spurious n subs s t → Reach spurious n subs t
