-- ===== src/Readers/Requests/Exclusion.antt =====
-- Who is in the critical section of `do_request` (practica3/proxy.c), and what becomes of the counter.
use sistemas_distribuidos_y.Common.{
  ℕ, ◌+◌, ◌≤◌, ◌<◌, ℤ, ◌≡◌, Bool, true, false, arith, if◌then◌else◌, count, count-pos, count_unique,
}
use sistemas_distribuidos_y.Readers.{Action, read, write, same}
use sistemas_distribuidos_y.Readers.Requests.{
  Pc, done, Session, State, change_counter, Step, waits, passes, sleeps, returns, checks, locks,
  rates, loads, skips, stores, leaves_waking, leaves_alone, unlocks, answers, wakes_up, started,
  Reach, begin, later,
}
use sistemas_distribuidos_y.Readers.Requests.Counts.{
  counted, has_written, is_inside, has_mutex, Inv, IsGuarded,
}
use sistemas_distribuidos_y.Readers.Requests.Guard.{Reach-Inv, Reach-IsGuarded}

abbrev pub is_done : Pc → Bool
is_done (done k) = true
is_done _ = false

-- The number in the response.
abbrev pub answer : Pc → ℕ
answer (done k) = k
answer _ = 0

-- An answer is not above the counter, and not below the first value of it, or below the next one for a
-- writer.
abbrev IsFair : ℕ → ℕ → Session → Type 0
IsFair low high c =
    is_done c.at ≡ true
    → (low + (if same c.action write then 1 else 0) ≤ answer c.at) × (answer c.at ≤ high)

module _ {n low : ℕ} {s : State} (v : Inv n low s)
    (g : (j : ℕ) → j < n → IsGuarded s.counter (s.sessions j))
    (w : (j : ℕ) → IsFair low s.counter (s.sessions j)) where
  Step-IsFair :
      {spurious : Bool} {t : State}
      → Step spurious n s t
      → (j : ℕ) → IsFair low t.counter (t.sessions j)
  unfolding change_counter
  Step-IsFair (waits i h e m q) j = ground (arith, w i, w j)
  Step-IsFair (passes i h e m) j = ground (arith, w i, w j)
  Step-IsFair (sleeps i h e) j = ground (arith, w i, w j)
  Step-IsFair (returns i h e q) j = ground (arith, w i, w j)
  Step-IsFair (checks i h e) j = ground (arith, w i, w j)
  Step-IsFair (locks i h e q) j = ground (arith, w i, w j)
  Step-IsFair (rates i b h e) j = ground (arith, w i, w j)
  Step-IsFair (loads i b h e q) j = ground (arith, w i, w j)
  Step-IsFair (skips i b h e q) j = ground (arith, w i, w j)
  Step-IsFair (stores i b c h e) j = ground (arith, w i, w j, g i h)
  Step-IsFair (leaves_waking i k b h e p q r) j = ground (arith, w i, w j, w k)
  Step-IsFair (leaves_alone i b h e q) j = ground (arith, w i, w j)
  Step-IsFair (unlocks i b h e) j = ground (arith, w i, w j)
  Step-IsFair (answers i h e) j =
      ground (arith, w i, w j, v.written, count-pos has_written n i s.sessions h)
  Step-IsFair (wakes_up i h e q) j = ground (arith, w i, w j)

-- The threads of a server that was started, and what they were asked for.
module _ (priority : Action) (ratio : ℤ) (counter : ℕ) (action : ℕ → Action) where
  Reach-IsFair :
      {spurious : Bool} {n : ℕ} {s : State}
      → Reach spurious n (started priority ratio counter action) s
      → (j : ℕ) → IsFair counter s.counter (s.sessions j)
  Reach-IsFair begin j = λ a. cc
  Reach-IsFair (later r st) j = Step-IsFair (Reach-Inv r) (Reach-IsGuarded r) (Reach-IsFair r) st j

  -- Two writers are never in the critical section together, whatever the priority, the ratio and the
  -- waits that end by themselves.
  pub do_request-exclusive :
      {spurious : Bool} {n : ℕ} {s : State}
      → Reach spurious n (started priority ratio counter action) s
      → (i j : ℕ) → i < n
      → j < n
      → (s.sessions i).action ≡ write
      → (s.sessions j).action ≡ write
      → is_inside (s.sessions i).at ≡ true
      → is_inside (s.sessions j).at ≡ true
      → i ≡ j
  do_request-exclusive {n} {s} r i j p q a b c d =
      let v = Reach-Inv r in
      count_unique has_mutex n i j s.sessions (ground (arith, v.owned)) p q
        (ground (arith, Reach-IsGuarded r i p)) (ground (arith, Reach-IsGuarded r j q))

  -- In every state, `current_readers` and `current_writers` are the numbers of the readers and the
  -- writers between their two changes of them, and no `counter++` is lost, though it loads and stores
  -- the counter in two steps: it is the first value and one more for each writer that has stored it.
  pub do_request-counts :
      {spurious : Bool} {n : ℕ} {s : State}
      → Reach spurious n (started priority ratio counter action) s
      → (s.shared.current_readers ≡ count (counted read) n s.sessions)
        × (s.shared.current_writers ≡ count (counted write) n s.sessions)
        × (s.counter ≡ counter + count has_written n s.sessions)
  do_request-counts {n} r = let v = Reach-Inv r in (v.readers, v.writers, v.written)

  -- The number in a response is between the first value of the counter and the value that it has,
  -- and that of a writer is above the first value.
  pub do_request-answer :
      {spurious : Bool} {n : ℕ} {s : State}
      → Reach spurious n (started priority ratio counter action) s
      → (i k : ℕ) → (s.sessions i).at ≡ done k
      → (counter + (if same (s.sessions i).action write then 1 else 0) ≤ k) × (k ≤ s.counter)
  do_request-answer r i k e = ground (arith, Reach-IsFair r i)
