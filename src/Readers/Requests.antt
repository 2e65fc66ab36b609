-- ===== src/Readers/Requests.antt =====
-- `do_request` of practica3/proxy.c, run by any number of threads of the server at once, interleaved in
-- any order. What a thread does under `counter_mutex` is one step, and so is each line outside of it,
-- but that a writer reads the counter in one step and stores it in another. `counter_mutex` is only held
-- within a step: no thread waits for anything while it has it but `readers_mutex` and `writers_mutex`,
-- and the thread that has one of those goes on alone. The change of the ratio is one step.
pub mod Counts
pub mod Invariant
pub mod Guard
pub mod Exclusion
pub mod Progress
pub mod Termination
pub mod Stuck
mod Tests
use sistemas_distribuidos_y.Common.{
  ℕ, zero, suc, ◌+◌, ◌<◌, ℤ, pos, eq_ℤ, ◌≡◌, ◌≢◌, Bool, true, false, not, ◌&&◌, ◌||◌, ltb, ◌==◌,
  if◌then◌else◌, update,
}
use sistemas_distribuidos_y.Readers.{Action, read, write, same, Shared, leave}

-- Where a thread stands. `locked` is the variable of that name.
pub data Pc : Type 0 where
  start : Pc
  dozing : Pc  -- with the mutex of its condition, before the wait
  waiting : Pc  -- in `pthread_cond_wait`
  woken : Pc  -- signalled, before it has that mutex again
  checking : Pc  -- before the test of `current_writers`
  locking : Pc  -- before the lock of `mutex`
  inside : (locked : Bool) → Pc  -- before the ratio is changed
  counting : (locked : Bool) → Pc  -- before the counter is read
  storing : (locked : Bool) (c : ℕ) → Pc  -- with `c` read from the counter, before it is stored
  worked : (locked : Bool) → Pc  -- before the second lock of `counter_mutex`
  leaving : (locked : Bool) → Pc  -- before the unlock of `mutex`
  answering : Pc  -- before the response is filled in
  done : (counter : ℕ) → Pc  -- with the number in its response

-- A thread and the action of its request.
pub record Session : Type 0 where
  pub action : Action
  pub at : Pc

pub record State : Type 0 where
  pub shared : Shared
  pub counter : ℕ
  pub mutex : Bool
  pub readers_mutex : Bool
  pub writers_mutex : Bool
  pub sessions : ℕ → Session

-- `current_readers++` or `current_writers++`
unfoldable pub enter : Action → Shared → Shared
enter read s = record s { current_readers = suc s.current_readers }
enter write s = record s { current_writers = suc s.current_writers }

-- The tests behind it, which are the same for both actions.
unfoldable pub must_wait : Shared → Bool
must_wait s = (ltb 1 s.current_writers || ltb 1 s.current_readers) && not (eq_ℤ s.ratio (pos 0))

-- Whether `mutex` is taken.
unfoldable pub needs_mutex : Action → Shared → Bool
needs_mutex action s = (ltb 0 s.current_writers && same action read) || same action write

unfoldable pub count_ratio : Action → Shared → Shared
count_ratio action s =
    if same action s.priority
    then record s { ratio_counter = suc s.ratio_counter }
    else record s { ratio_counter = 0 }

unfoldable pub change_counter : Action → ℕ → ℕ
change_counter action counter = if same action write then suc counter else counter

-- `readers_mutex` or `writers_mutex`
abbrev pub own_mutex : Action → State → Bool
own_mutex read s = s.readers_mutex
own_mutex write s = s.writers_mutex

abbrev pub set_own_mutex : Action → Bool → State → State
set_own_mutex action b s = record s {
  readers_mutex = if same action read then b else s.readers_mutex;
  writers_mutex = if same action write then b else s.writers_mutex;
}

-- A thread goes on.
abbrev pub go : ℕ → Pc → State → State
go i p s = record s { sessions = update s.sessions i (record (s.sessions i) { at = p }) }

-- A step of one of `n` threads. With `spurious`, a wait may end with nobody to signal it.
pub data Step (spurious : Bool) (n : ℕ) (s : State) : State → Type 0 where
  waits :
      (i : ℕ)
      → i < n
      → (s.sessions i).at ≡ start
      → must_wait (enter (s.sessions i).action s.shared) ≡ true
      → own_mutex (s.sessions i).action s ≡ false
      → Step spurious n s (
          go i dozing (
            set_own_mutex
              (s.sessions i).action
              true
              (record s { shared = enter (s.sessions i).action s.shared })))
  passes :
      (i : ℕ)
      → i < n
      → (s.sessions i).at ≡ start
      → must_wait (enter (s.sessions i).action s.shared) ≡ false
      → Step spurious n s
          (go i checking (record s { shared = enter (s.sessions i).action s.shared }))
  sleeps :
      (i : ℕ)
      → i < n
      → (s.sessions i).at ≡ dozing
      → Step spurious n s (go i waiting (set_own_mutex (s.sessions i).action false s))
  returns :
      (i : ℕ)
      → i < n
      → (s.sessions i).at ≡ woken
      → own_mutex (s.sessions i).action s ≡ false
      → Step spurious n s (go i checking s)
  checks :
      (i : ℕ)
      → i < n
      → (s.sessions i).at ≡ checking
      → Step spurious n s
          (go i (if needs_mutex (s.sessions i).action s.shared then locking else inside false) s)
  locks :
      (i : ℕ)
      → i < n
      → (s.sessions i).at ≡ locking
      → s.mutex ≡ false
      → Step spurious n s (go i (inside true) (record s { mutex = true }))
  rates :
      (i : ℕ) (locked : Bool)
      → i < n
      → (s.sessions i).at ≡ inside locked
      → Step spurious n s (
          go i (counting locked) (record s { shared = count_ratio (s.sessions i).action s.shared }))
  -- `counter++` of a writer reads the counter and stores it in two steps.
  loads :
      (i : ℕ) (locked : Bool)
      → i < n
      → (s.sessions i).at ≡ counting locked
      → (s.sessions i).action ≡ write
      → Step spurious n s (go i (storing locked s.counter) s)
  skips :
      (i : ℕ) (locked : Bool)
      → i < n
      → (s.sessions i).at ≡ counting locked
      → (s.sessions i).action ≡ read
      → Step spurious n s (go i (worked locked) s)
  stores :
      (i : ℕ) (locked : Bool) (c : ℕ)
      → i < n
      → (s.sessions i).at ≡ storing locked c
      → Step spurious n s
          (go i (worked locked) (record s { counter = change_counter (s.sessions i).action c }))
  -- The signal reaches one thread that waits for it.
  leaves_waking :
      (i j : ℕ) (locked : Bool)
      → i < n
      → (s.sessions i).at ≡ worked locked
      → j < n
      → (s.sessions j).at ≡ waiting
      → (s.sessions j).action ≡ (leave (s.sessions i).action s.shared).0
      → Step spurious n s (
          go j woken (
            go i (leaving locked) (record s { shared = (leave (s.sessions i).action s.shared).1 })))
  -- No thread waits for it, and it is lost.
  leaves_alone :
      (i : ℕ) (locked : Bool)
      → i < n
      → (s.sessions i).at ≡ worked locked
      → ((j : ℕ)
          → j < n
          → (s.sessions j).action ≡ (leave (s.sessions i).action s.shared).0
          → (s.sessions j).at ≢ waiting)
      → Step spurious n s
          (go i (leaving locked) (record s { shared = (leave (s.sessions i).action s.shared).1 }))
  unlocks :
      (i : ℕ) (locked : Bool)
      → i < n
      → (s.sessions i).at ≡ leaving locked
      → Step spurious n s (go i answering (record s { mutex = if locked then false else s.mutex }))
  answers :
      (i : ℕ) → i < n → (s.sessions i).at ≡ answering → Step spurious n s (go i (done s.counter) s)
  wakes_up :
      (i : ℕ)
      → i < n
      → (s.sessions i).at ≡ waiting
      → spurious ≡ true
      → Step spurious n s (go i woken s)

-- The server after its start, with the value of the counter that it read from its file, and one
-- thread for each request.
abbrev pub started : Action → ℤ → ℕ → (ℕ → Action) → State
started priority ratio counter action = record {
  shared = record {
    priority = priority;
    ratio = ratio;
    ratio_counter = 0;
    current_readers = 0;
    current_writers = 0;
  };
  counter = counter;
  mutex = false;
  readers_mutex = false;
  writers_mutex = false;
  sessions = λ i. record { action = action i; at = start };
}

pub data Reach (spurious : Bool) (n : ℕ) (s : State) : State → Type 0 where
  begin : Reach spurious n s s
  later : {t u : State} → Reach spurious n s t → Step spurious n t u → Reach spurious n s u
