-- ===== src/Readers/Requests/Stuck.antt =====
-- Two histories of `do_request` (practica3/proxy.c) that it does not mean to have.
use sistemas_distribuidos_y.Common.{
  ℕ, zero, suc, ◌<◌, ℤ, pos, eq_ℤ_iff, ◌≡◌, ◌≢◌, refl, true, false, ◌||◌, arith, ◌==◌,
  if◌then◌else◌,
}
use sistemas_distribuidos_y.Readers.{Action, read, write, leave}
use sistemas_distribuidos_y.Readers.Requests.{
  dozing, waiting, worked, leaving, answering, done, State, enter, must_wait, needs_mutex,
  count_ratio, change_counter, set_own_mutex, go, Step, waits, passes, sleeps, returns, checks,
  locks, rates, loads, skips, stores, leaves_waking, leaves_alone, unlocks, answers, wakes_up,
  started, Reach, begin, later,
}
use sistemas_distribuidos_y.Readers.Requests.Exclusion.{is_done}
use sistemas_distribuidos_y.Readers.Requests.Counts.{is_inside}
use sistemas_distribuidos_y.Readers.Requests.Progress.{is_waiting}

-- No step is left when every thread is done or waits.
pub asleep_stuck :
    (n : ℕ) (s : State)
    → ((i : ℕ) → i < n → (is_done (s.sessions i).at || is_waiting (s.sessions i).at) ≡ true)
    → (t : State) → ¬ Step false n s t
asleep_stuck n s v t (waits i h e m q) = absurd (ground (arith, v i h))
asleep_stuck n s v t (passes i h e m) = absurd (ground (arith, v i h))
asleep_stuck n s v t (sleeps i h e) = absurd (ground (arith, v i h))
asleep_stuck n s v t (returns i h e q) = absurd (ground (arith, v i h))
asleep_stuck n s v t (checks i h e) = absurd (ground (arith, v i h))
asleep_stuck n s v t (locks i h e q) = absurd (ground (arith, v i h))
asleep_stuck n s v t (rates i b h e) = absurd (ground (arith, v i h))
asleep_stuck n s v t (loads i b h e q) = absurd (ground (arith, v i h))
asleep_stuck n s v t (skips i b h e q) = absurd (ground (arith, v i h))
asleep_stuck n s v t (stores i b c h e) = absurd (ground (arith, v i h))
asleep_stuck n s v t (leaves_waking i j b h e p q r) = absurd (ground (arith, v i h))
asleep_stuck n s v t (leaves_alone i b h e q) = absurd (ground (arith, v i h))
asleep_stuck n s v t (unlocks i b h e) = absurd (ground (arith, v i h))
asleep_stuck n s v t (answers i h e) = absurd (ground (arith, v i h))
asleep_stuck n s v t (wakes_up i h e q) = absurd (cc)

-- Of two threads.
both :
    (s : State)
    → (is_done (s.sessions 0).at || is_waiting (s.sessions 0).at) ≡ true
    → (is_done (s.sessions 1).at || is_waiting (s.sessions 1).at) ≡ true
    → (i : ℕ) → i < 2
    → (is_done (s.sessions i).at || is_waiting (s.sessions i).at) ≡ true
both s a b zero h = a
both s a b (suc zero) h = b
both s a b (suc (suc i)) h = absurd (omega arith)

none_waits :
    (s : State)
    → (s.sessions 0).at ≡ worked false
    → (s.sessions 1).at ≡ dozing
    → (j : ℕ) → j < 2
    → (s.sessions j).at ≢ waiting
none_waits s a b zero h w = cc
none_waits s a b (suc zero) h w = cc
none_waits s a b (suc (suc j)) h w = omega arith

-- The first thread leaves, and the second one goes to sleep.
abbrev missed_end : State → State
missed_end s =
    let left : State =
      go 0 (leaving false) (record s { shared = (leave (s.sessions 0).action s.shared).1 }) in
    let asleep : State = go 1 waiting (set_own_mutex (left.sessions 1).action false left) in
    let unlocked : State = go 0 answering asleep in go 0 (done unlocked.counter) unlocked

module _ (priority : Action) (ratio : ℤ) (counter : ℕ) where
  abbrev two_readers : State
  two_readers = started priority ratio counter (λ i. read)

  -- The second reader has not begun its wait when the first one leaves and signals it.
  missed :
      ratio ≢ pos 0
      → (s : State) × Reach false 2 two_readers s
        × ((s.sessions 0).at ≡ worked false)
        × ((s.sessions 1).at ≡ dozing)
        × (s.counter ≡ counter)
  unfolding enter must_wait needs_mutex count_ratio change_counter
  missed h = (
    _,
    later
        (later
          (later
            (later (later begin (passes 0 (omega arith) refl refl))
              (waits 1 (omega arith) refl (ground (arith, eq_ℤ_iff ratio (pos 0))) refl))
            (checks 0 (omega arith) refl))
          (rates 0 false (omega arith) refl))
        (skips 0 false (omega arith) refl refl),
    refl,
    refl,
    refl,
  )

  -- With any ratio but 0, one of two readers can wait for ever: the other is done, and nobody is left
  -- to signal it.
  pub do_request-stuck :
      ratio ≢ pos 0
      → (s : State) × Reach false 2 two_readers s
        × (is_done (s.sessions 0).at ≡ true)
        × (is_waiting (s.sessions 1).at ≡ true)
        × ((t : State) → ¬ Step false 2 s t)
  do_request-stuck h =
      let (s, r, a, b, c) = missed h in
      (
        missed_end s,
        later
            (later
              (later
                (later r (leaves_alone 0 false (omega arith) a (λ j p q w. none_waits s a b j p w)))
                (sleeps 1 (omega arith) b))
              (unlocks 0 false (omega arith) refl))
            (answers 0 (omega arith) refl),
        refl,
        refl,
        asleep_stuck 2 (missed_end s) (both (missed_end s) refl refl),
      )

  -- A reader that came when no writer was there, and a writer that came after it.
  pub do_request-overlap :
      (s : State) × Reach false 2
        (started priority ratio counter (λ i. if i == 0 then read else write))
        s
      × (is_inside (s.sessions 0).at ≡ true)
      × (is_inside (s.sessions 1).at ≡ true)
  unfolding enter must_wait needs_mutex
  do_request-overlap = (
    _,
    later
        (later
          (later
            (later (later begin (passes 0 (omega arith) refl refl)) (checks 0 (omega arith) refl))
            (passes 1 (omega arith) refl refl))
          (checks 1 (omega arith) refl))
        (locks 1 (omega arith) refl refl),
    refl,
    refl,
  )
