-- ===== src/Readers/Server/Parts.antt =====
-- The parts of `do_request` (practica3/proxy.c) as one thread runs them while no other one is there.
use sistemas_distribuidos_y.Common.{
  ℕ, ◌+◌, ◌-◌, ◌*◌, ◌≤◌, pos, is_neg, eq_ℤ, false, List, ◌∷◌, ◌≡◌, arith, if◌then◌else◌, World, ok,
}
use sistemas_distribuidos_y.Readers.{Action, read, write, same, Shared, depart, signal_next, leave}
use sistemas_distribuidos_y.Readers.Requests.{
  enter, must_wait, needs_mutex, count_ratio, change_counter,
}
use Prim.Native.Nat.{◌/◌}
use sistemas_distribuidos_y.Readers.Turn.{other}
use sistemas_distribuidos_y.Readers.Server.{
  Request, Timespec, Server, mutex, counter_mutex, ratio_mutex, Call, clock_gettime, nanosleep,
  lock, unlock, cond_signal, print, turno, fopen, fprintf, fclose, ServerOs, waiting_time, by_ratio,
  take_turn, update_ratio, give_turn, write_output, now, work, on_shared, condition_of,
}

-- The time between two readings of a clock that does not go back.
pub waiting_time_lem :
    (begin end : Timespec)
    → begin.tv_sec * 1000000000 + begin.tv_nsec ≤ end.tv_sec * 1000000000 + end.tv_nsec
    → waiting_time begin end
      ≡ pos (end.tv_sec * 1000000000 + end.tv_nsec - (begin.tv_sec * 1000000000 + begin.tv_nsec))
unfolding waiting_time
waiting_time_lem begin end h = ground arith

-- Nobody is there.
abbrev pub IsIdle : Shared → Type 0
IsIdle s = (s.current_readers ≡ 0) × (s.current_writers ≡ 0)

module _ (os : ServerOs) where
  pub now_lem :
      (w : World Server Call)
      → (os w.trace clock_gettime).ret ≡ pos 0
      → now os (λ s. s) w
        ≡ ok (os w.trace clock_gettime).msg.time (record w { trace = clock_gettime ∷ w.trace })
  unfolding now
  now_lem w e = ground arith

  pub work_lem :
      (request : Request) (n : ℕ) (w : World Server Call)
      → is_neg (os w.trace (nanosleep n)).ret ≡ false
      → ((tr : List Call) → eq_ℤ (os tr (fopen "w")).ret (pos 0) ≡ false)
      → let counter = change_counter request.action w.st.counter in
        work os (λ s. s) request n w
        ≡ ok tt (record {
          st = record w.st { counter = counter };
          trace =
              fclose
              ∷ fprintf counter
              ∷ fopen "w"
              ∷ print (turno (n / 1000) request.action request.id counter)
              ∷ nanosleep n
              ∷ w.trace;
        })
  unfolding work write_output
  work_lem request n w e opens = ground (
    arith,
    opens (
        print
          (turno (n / 1000) request.action request.id (change_counter request.action w.st.counter))
        ∷ nanosleep n
        ∷ w.trace),
  )

  pub take_turn-alone :
      (action : Action) (w : World Server Call)
      → IsIdle w.st.shared
      → take_turn os (λ s. s) action w
        ≡ ok (same action write) (record {
          st = on_shared (enter action) w.st;
          trace =
              if same action write
              then lock mutex ∷ unlock counter_mutex ∷ lock counter_mutex ∷ w.trace
              else unlock counter_mutex ∷ lock counter_mutex ∷ w.trace;
        })
  unfolding take_turn enter must_wait needs_mutex
  take_turn-alone read w idle = ground arith
  take_turn-alone write w idle = ground arith

  pub update_ratio_lem :
      (action : Action) (w : World Server Call)
      → update_ratio os (λ s. s) action w
        ≡ ok tt (record {
          st = on_shared (count_ratio action) w.st;
          trace =
              if same action w.st.shared.priority
              then unlock ratio_mutex ∷ lock ratio_mutex ∷ w.trace
              else w.trace;
        })
  unfolding update_ratio count_ratio
  update_ratio_lem action w = ground arith

  pub give_turn-alone :
      (action : Action) (w : World Server Call)
      → IsIdle (depart action w.st.shared)
      → give_turn os (λ s. s) action w
        ≡ ok tt (record {
          st = on_shared (depart action) w.st;
          trace =
              unlock counter_mutex
              ∷ cond_signal (condition_of (other action))
              ∷ lock counter_mutex
              ∷ w.trace;
        })
  unfolding give_turn by_ratio leave signal_next depart
  give_turn-alone read w idle = ground arith
  give_turn-alone write w idle = ground arith
