-- ===== src/Broker/Just/Tests.antt =====
-- The theorems on the barrier at a short history of two threads.
use sistemas_distribuidos_y.Common.{ℕ, ◌<◌, ◌≡◌, ◌≢◌, refl, arith, false, true}
use sistemas_distribuidos_y.Broker.Just.{
  sent, State, arrive, leave, Step, arrives, started, Reach, begin, later,
}
use sistemas_distribuidos_y.Broker.Just.Stuck.{IsBefore, send_just-stuck}
use sistemas_distribuidos_y.Broker.Just.Barrier.{
  arrived, is_past, send_just-barrier, send_just-progress,
}

-- The first thread waits, and the second one passes.
abbrev both : State
both = arrive 2 1 (arrive 2 0 started)

both-Reach : Reach false 2 2 both
unfolding arrive
both-Reach = later (later begin (arrives 0 (omega arith) refl)) (arrives 1 (omega arith) refl)

send_just-barrier_example :
    ((i j : ℕ) → i < 2 → j < 2 → is_past (both.pc i) ≡ true → arrived (both.pc j) ≡ true)
    × (((i : ℕ) → i < 2 → both.pc i ≡ sent) → both.just_threads ≡ 0)
send_just-barrier_example = send_just-barrier both-Reach

both-unsent : both.pc 1 ≢ sent
unfolding arrive leave
both-unsent e = absurd (cc)

send_just-progress_example : (t : State) × Step false 2 2 both t
send_just-progress_example = send_just-progress both-Reach 1 (omega arith) both-unsent

-- Two threads for a topic that has three subscribers by the time they arrive.
abbrev both_early : State
both_early = arrive 3 1 (arrive 3 0 started)

both_early-Reach : Reach false 2 3 both_early
unfolding arrive
both_early-Reach = later (later begin (arrives 0 (omega arith) refl)) (arrives 1 (omega arith) refl)

send_just-stuck_example : IsBefore (both_early.pc 0)
send_just-stuck_example = send_just-stuck (omega arith) both_early-Reach 0 (omega arith)
