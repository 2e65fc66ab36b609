-- ===== src/Readers/Requests/Tests.antt =====
-- The theorems on `do_request` of practica3/proxy.c at concrete histories.
use sistemas_distribuidos_y.Common.{
  ℕ, zero, suc, ◌+◌, ◌≤◌, ◌<◌, pos, ◌≡◌, ◌≢◌, refl, ap, Bool, true, false, ◌||◌, arith,
  if◌then◌else◌, count,
}
use sistemas_distribuidos_y.Readers.{read, write, same}
use sistemas_distribuidos_y.Readers.Requests.{
  waiting, inside, worked, done, State, enter, must_wait, needs_mutex, change_counter, Step, passes,
  checks, locks, rates, loads, stores, leaves_alone, unlocks, answers, started, Reach, begin, later,
}
use sistemas_distribuidos_y.Readers.Requests.Counts.{counted, has_written}
use sistemas_distribuidos_y.Readers.Requests.Exclusion.{
  is_done, do_request-exclusive, do_request-counts, do_request-answer,
}
use sistemas_distribuidos_y.Readers.Requests.Progress.{is_waiting, do_request-progress}
use sistemas_distribuidos_y.Readers.Requests.Termination.{do_request-finishes}
use sistemas_distribuidos_y.Readers.Requests.Stuck.{asleep_stuck, do_request-stuck}

abbrev first : ℕ
first = 0

abbrev writer : State
writer = started write (pos 0) 5 (λ i. write)

-- The writer is in the critical section.
entered :
    (s : State) × Reach false 1 writer s
    × ((s.sessions 0).at ≡ inside true)
    × ((s.sessions 0).action ≡ write)
unfolding enter must_wait needs_mutex
entered = (
  _,
  later (later (later begin (passes 0 (omega arith) refl refl)) (checks 0 (omega arith) refl))
      (locks 0 (omega arith) refl refl),
  refl,
  refl,
)

do_request-exclusive_example : first ≡ first
do_request-exclusive_example =
    do_request-exclusive write (pos 0) 5 (λ i. write) entered.1 first first (omega arith)
      (omega arith) entered.3 entered.3 (rw entered.2 refl) (rw entered.2 refl)

do_request-counts_example :
    (entered.0.shared.current_readers ≡ count (counted read) 1 entered.0.sessions)
    × (entered.0.shared.current_writers ≡ count (counted write) 1 entered.0.sessions)
    × (entered.0.counter ≡ 5 + count has_written 1 entered.0.sessions)
do_request-counts_example = do_request-counts write (pos 0) 5 (λ i. write) entered.1

do_request-progress_example : (t : State) × Step false 1 entered.0 t
do_request-progress_example =
    do_request-progress write (pos 0) 5 (λ i. write) entered.1 0 (omega arith) (rw entered.2 refl)
      (rw entered.2 refl)

nobody :
    (s : State) (b : Bool)
    → (s.sessions 0).at ≡ worked b
    → (j : ℕ) → j < 1
    → (s.sessions j).at ≢ waiting
nobody s b e zero h w = cc
nobody s b e (suc j) h w = omega arith

only :
    (s : State) (k : ℕ)
    → (s.sessions 0).at ≡ done k
    → (i : ℕ) → i < 1
    → (is_done (s.sessions i).at || is_waiting (s.sessions i).at) ≡ true
only s k e zero h = rw e refl
only s k e (suc i) h = absurd (omega arith)

left :
    (s : State) (b : Bool) (r : Reach false 1 writer s)
    → (s.sessions 0).at ≡ worked b
    → s.counter ≡ 6
    → (t : State) × Reach false 1 writer t × ((t.sessions 0).at ≡ done 6)
left s b r e c = (
  _,
  later
      (later (later r (leaves_alone 0 b (omega arith) e (λ j h q w. nobody s b e j h w)))
        (unlocks 0 b (omega arith) refl))
      (answers 0 (omega arith) refl),
  ap done c,
)

-- The writer has its answer.
served : (s : State) × Reach false 1 writer s × ((s.sessions 0).at ≡ done 6)
unfolding change_counter entered
served =
    left _ true
      (later
        (later (later entered.1 (rates 0 true (omega arith) entered.2))
          (loads 0 true (omega arith) refl entered.3))
        (stores 0 true 5 (omega arith) refl))
      refl refl

do_request-answer_example :
    (5 + (if same (served.0.sessions 0).action write then 1 else 0) ≤ 6) × (6 ≤ served.0.counter)
do_request-answer_example = do_request-answer write (pos 0) 5 (λ i. write) served.1 0 6 served.2

do_request-finishes_example :
    ((i : ℕ) → i < 1 → is_done (served.0.sessions i).at ≡ true)
    × (served.0.counter ≡ 5 + count (λ a. same a write) 1 (λ i. write))
do_request-finishes_example =
    do_request-finishes write 5 (λ i. write) served.1
      (asleep_stuck 1 served.0 (only served.0 6 served.2))

do_request-stuck_example :
    (s : State) × Reach false 2 (started read (pos 3) 5 (λ i. read)) s
    × (is_done (s.sessions 0).at ≡ true)
    × (is_waiting (s.sessions 1).at ≡ true)
    × ((t : State) → ¬ Step false 2 s t)
do_request-stuck_example = do_request-stuck read (pos 3) 5 (λ e. ground arith)
