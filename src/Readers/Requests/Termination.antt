-- ===== src/Readers/Requests/Termination.antt =====
-- How the requests of `do_request` (practica3/proxy.c) end without a ratio.
use sistemas_distribuidos_y.Common.{
  ℕ, ◌+◌, ◌<◌, pos, ◌≡◌, refl, inl, inr, Bool, true, false, arith, if◌then◌else◌, Bool-cases, count,
  count_agree,
}
use sistemas_distribuidos_y.Readers.{Action, read, write, same, Shared, depart, signal_next, leave}
use sistemas_distribuidos_y.Readers.Requests.{
  Pc, dozing, waiting, woken, checking, inside, counting, storing, worked, leaving, answering, done,
  State, enter, must_wait, count_ratio, change_counter, go, Step, waits, passes, sleeps, returns,
  checks, locks, rates, loads, skips, stores, leaves_waking, leaves_alone, unlocks, answers,
  wakes_up, started, Reach, begin, later,
}
use sistemas_distribuidos_y.Readers.Requests.Counts.{has_written}
use sistemas_distribuidos_y.Readers.Requests.Guard.{Reach-Inv}
use sistemas_distribuidos_y.Readers.Requests.Exclusion.{is_done}
use sistemas_distribuidos_y.Readers.Requests.Progress.{is_waiting, do_request-progress}

-- Asleep, or about to be, or just woken up.
abbrev is_asleep : Pc → Bool
is_asleep dozing = true
is_asleep waiting = true
is_asleep woken = true
is_asleep _ = false

-- Without a ratio, no thread is ever asleep; and a thread keeps its action.
record IsAwake (action : ℕ → Action) (s : State) : Type 0 where
  no_ratio : s.shared.ratio ≡ pos 0
  awake : (i : ℕ) → is_asleep (s.sessions i).at ≡ false
  kept : (i : ℕ) → (s.sessions i).action ≡ action i

leave_ratio : (a : Action) (s : Shared) → (leave a s).1.ratio ≡ s.ratio
unfolding leave signal_next depart
leave_ratio read s = ground arith
leave_ratio write s = ground arith

module _ {action : ℕ → Action} {s : State} (v : IsAwake action s) where
  go-IsAwake :
      (i : ℕ) (p : Pc) (t : State)
      → is_asleep p ≡ false
      → t.shared.ratio ≡ s.shared.ratio
      → t.sessions ≡ s.sessions
      → IsAwake action (go i p t)
  go-IsAwake i p t a r q = record {
    no_ratio = cc (v.no_ratio);
    awake = λ j. rw q (ground (arith, v.awake j));
    kept = λ j. rw q (ground (arith, v.kept j, v.kept i));
  }

  open_gate : (a : Action) → must_wait (enter a s.shared) ≡ false
  unfolding must_wait enter
  open_gate read = ground (arith, v.no_ratio)
  open_gate write = ground (arith, v.no_ratio)

  sleepless : (i : ℕ) (p : Pc) → (s.sessions i).at ≡ p → is_asleep p ≡ true → ⊥
  sleepless i p e a = ground (arith, v.awake i)

  Step-IsAwake : {spurious : Bool} {n : ℕ} {t : State} → Step spurious n s t → IsAwake action t
  unfolding enter count_ratio
  Step-IsAwake (waits i h e m q) = absurd (ground (arith, open_gate (s.sessions i).action))
  Step-IsAwake (passes i h e m) =
      go-IsAwake i checking (record s { shared = enter (s.sessions i).action s.shared }) refl
        (ground arith) refl
  Step-IsAwake (sleeps i h e) = absurd (sleepless i dozing e refl)
  Step-IsAwake (returns i h e q) = absurd (sleepless i woken e refl)
  Step-IsAwake (checks i h e) = go-IsAwake i _ s (ground arith) refl refl
  Step-IsAwake (locks i h e q) =
      go-IsAwake i (inside true) (record s { mutex = true }) refl refl refl
  Step-IsAwake (rates i b h e) =
      go-IsAwake i (counting b) (record s { shared = count_ratio (s.sessions i).action s.shared })
        refl (ground arith) refl
  Step-IsAwake (loads i b h e q) = go-IsAwake i (storing b s.counter) s refl refl refl
  Step-IsAwake (skips i b h e q) = go-IsAwake i (worked b) s refl refl refl
  Step-IsAwake (stores i b c h e) =
      go-IsAwake i (worked b) (record s { counter = change_counter (s.sessions i).action c }) refl
        refl refl
  Step-IsAwake (leaves_waking i j b h e p q r) = absurd (sleepless j waiting q refl)
  Step-IsAwake (leaves_alone i b h e q) =
      go-IsAwake i (leaving b) (record s { shared = (leave (s.sessions i).action s.shared).1 }) refl
        (leave_ratio (s.sessions i).action s.shared) refl
  Step-IsAwake (unlocks i b h e) =
      go-IsAwake i answering (record s { mutex = if b then false else s.mutex }) refl refl refl
  Step-IsAwake (answers i h e) = go-IsAwake i (done s.counter) s refl refl refl
  Step-IsAwake (wakes_up i h e q) = absurd (sleepless i waiting e refl)

module _ (priority : Action) (counter : ℕ) (action : ℕ → Action) where
  Reach-IsAwake :
      {spurious : Bool} {n : ℕ} {s : State}
      → Reach spurious n (started priority (pos 0) counter action) s
      → IsAwake action s
  Reach-IsAwake begin = record { no_ratio = refl; awake = λ i. refl; kept = λ i. refl }
  Reach-IsAwake (later r st) = Step-IsAwake (Reach-IsAwake r) st

  all_done :
      {spurious : Bool} {n : ℕ} {s : State}
      → Reach spurious n (started priority (pos 0) counter action) s
      → ((t : State) → ¬ Step false n s t)
      → (i : ℕ) → i < n
      → is_done (s.sessions i).at ≡ true
  all_done {n} {s} r stuck i h = elim (Bool-cases (is_done (s.sessions i).at)) [
    | inl yes_done ↦ yes_done
    | inr not_done ↦
        let (t, st) =
          do_request-progress priority (pos 0) counter action r i h not_done
            (awake_waits (s.sessions i).at ((Reach-IsAwake r).awake i)) in
        absurd (stuck t st)
  ]
    where
      awake_waits : (p : Pc) → is_asleep p ≡ false → is_waiting p ≡ false
      awake_waits p a = ground arith

-- Without a ratio, a history of `n` requests that cannot go on has answered them all, with the counter
-- raised by one for each writer.
pub do_request-finishes :
    (priority : Action) (counter : ℕ) (action : ℕ → Action) {spurious : Bool} {n : ℕ} {s : State}
    → Reach spurious n (started priority (pos 0) counter action) s
    → ((t : State) → ¬ Step false n s t)
    → ((i : ℕ) → i < n → is_done (s.sessions i).at ≡ true)
      × (s.counter ≡ counter + count (λ a. same a write) n action)
do_request-finishes priority counter action {n} {s} r stuck = (
  all_done priority counter action r stuck,
  omega (
    arith,
    (Reach-Inv r).written,
    count_agree has_written (λ (a : Action). same a write) n s.sessions action
        (λ i h. ground (
          arith,
          all_done priority counter action r stuck i h,
          (Reach-IsAwake priority counter action r).kept i,
        )),
  ),
)
