-- ===== src/Readers/Server/Alone.antt =====
-- A request to the server of practica3/proxy.c that is served while no other one is there.
use sistemas_distribuidos_y.Common.{
  ℕ, suc, ◌+◌, ℤ, pos, is_neg, eq_ℤ, Bool, true, false, List, [], ◌∷◌, ◌≡◌, refl, ◌==◌, arith,
  if◌then◌else◌, World, ok, >>=-ok, ◌∙◌,
}
use sistemas_distribuidos_y.Readers.{Action, read, write, same, Shared, depart}
use sistemas_distribuidos_y.Readers.Requests.{enter, count_ratio, change_counter}
use Prim.Native.Nat.{◌/◌, ◌%◌}
use sistemas_distribuidos_y.Readers.Turn.{other}
use sistemas_distribuidos_y.Readers.Server.{
  Request, Server, Mutex, mutex, counter_mutex, ratio_mutex, Call, clock_gettime, rand, nanosleep,
  lock, unlock, cond_signal, print, turno, fopen, fprintf, fclose, current_threads_mutex,
  free_fd_mutex, writers_mutex, readers_mutex, ServerOs, waiting_time, take_turn, update_ratio,
  give_turn, now, work, do_request, on_shared, condition_of,
}
use sistemas_distribuidos_y.Readers.Server.Parts.{
  now_lem, work_lem, take_turn-alone, update_ratio_lem, give_turn-alone, IsIdle,
}

-- Whether a mutex was locked and not unlocked since.
abbrev pub tag : Mutex → ℕ
tag mutex = 0
tag counter_mutex = 1
tag current_threads_mutex = 2
tag free_fd_mutex = 3
tag ratio_mutex = 4
tag writers_mutex = 5
tag readers_mutex = 6

unfoldable pub is_taken : Mutex → List Call → Bool
is_taken m [] = false
is_taken m (lock k ∷ tr) = if tag k == tag m then true else is_taken m tr
is_taken m (unlock k ∷ tr) = if tag k == tag m then false else is_taken m tr
is_taken m (_ ∷ tr) = is_taken m tr

-- The calls that the request makes, newest first.
abbrev ratio_calls : Action → Action → List Call → List Call
ratio_calls action priority tr =
    if same action priority then unlock ratio_mutex ∷ lock ratio_mutex ∷ tr else tr

abbrev turn_calls : Action → List Call → List Call
turn_calls action tr =
    if same action write
    then lock mutex ∷ unlock counter_mutex ∷ lock counter_mutex ∷ tr
    else unlock counter_mutex ∷ lock counter_mutex ∷ tr

abbrev request_calls : Action → ℕ → ℕ → Action → ℕ → List Call → List Call
request_calls action id nanoseconds priority counter tr =
    let left =
      unlock counter_mutex
      ∷ cond_signal (condition_of (other action))
      ∷ lock counter_mutex
      ∷ fclose
      ∷ fprintf counter
      ∷ fopen "w"
      ∷ print (turno (nanoseconds / 1000) action id counter)
      ∷ nanosleep nanoseconds
      ∷ clock_gettime
      ∷ ratio_calls action priority (turn_calls action (clock_gettime ∷ rand ∷ tr)) in
    if same action write then unlock mutex ∷ left else left

request_calls-free :
    (m : Mutex) (action priority : Action) (id nanoseconds counter : ℕ) (tr : List Call)
    → is_taken m tr ≡ false
    → is_taken m (request_calls action id nanoseconds priority counter tr) ≡ false
unfolding is_taken
request_calls-free m read read id n c tr h = ground arith
request_calls-free m read write id n c tr h = ground arith
request_calls-free m write read id n c tr h = ground arith
request_calls-free m write write id n c tr h = ground arith

-- The clock can be read, no sleep fails, and the file of the counter can be opened to be written.
abbrev pub IsReliable : ServerOs → Type 0
IsReliable os =
    ((tr : List Call) → (os tr clock_gettime).ret ≡ pos 0)
    × ((tr : List Call) (n : ℕ) → is_neg (os tr (nanosleep n)).ret ≡ false)
    × ((tr : List Call) → eq_ℤ (os tr (fopen "w")).ret (pos 0) ≡ false)

-- The shared variables come back to what they were, but for the ratio.
depart-IsIdle : (a : Action) (s : Shared) → IsIdle s → IsIdle (depart a (count_ratio a (enter a s)))
unfolding enter count_ratio depart
depart-IsIdle read s idle = ground arith
depart-IsIdle write s idle = ground arith

enter_priority : (a : Action) (s : Shared) → (enter a s).priority ≡ s.priority
unfolding enter
enter_priority read s = refl
enter_priority write s = refl

left :
    (a : Action) (s : Shared)
    → IsIdle s
    → depart a (count_ratio a (enter a s))
      ≡ record s { ratio_counter = if same a s.priority then suc s.ratio_counter else 0 }
unfolding enter count_ratio depart
left read s idle = ground arith
left write s idle = ground arith

module _ (os : ServerOs) (request : Request) (w : World Server Call) (reliable : IsReliable os)
    (idle : IsIdle w.st.shared) where
  abbrev pub slept : ℕ
  slept = (os w.trace rand).msg.number % 75000000 + 75000000

  abbrev pub number : ℕ
  number = change_counter request.action w.st.counter

  abbrev before : List Call
  before = turn_calls request.action (clock_gettime ∷ rand ∷ w.trace)

  abbrev ratio_state : Server
  ratio_state = on_shared (count_ratio request.action) (on_shared (enter request.action) w.st)

  abbrev acting : List Call
  acting =
      fclose
      ∷ fprintf number
      ∷ fopen "w"
      ∷ print (turno (slept / 1000) request.action request.id number)
      ∷ nanosleep slept
      ∷ clock_gettime
      ∷ ratio_calls request.action w.st.shared.priority before

  served :
      (t : ℤ) × (do_request os (λ s. s) request w
        ≡ ok
            (record { action = request.action; counter = number; waiting_time = t })
            (record {
              st = record w.st {
                counter = number;
                shared = record w.st.shared {
                  ratio_counter =
                      if same request.action w.st.shared.priority
                      then suc w.st.shared.ratio_counter
                      else 0;
                };
              };
              trace =
                  request_calls request.action request.id slept w.st.shared.priority number w.trace;
            }))
  unfolding do_request
  served = (
    waiting_time (os (rand ∷ w.trace) clock_gettime).msg.time
        (os (ratio_calls request.action w.st.shared.priority before) clock_gettime).msg.time,
    >>=-ok (now os (λ s. s)) _ (record w { trace = rand ∷ w.trace })
          (record w { trace = clock_gettime ∷ rand ∷ w.trace }) _
          (now_lem os (record w { trace = rand ∷ w.trace }) (reliable.0 (rand ∷ w.trace)))
        ∙ >>=-ok (take_turn os (λ s. s) request.action) _
            (record w { trace = clock_gettime ∷ rand ∷ w.trace })
            (record { st = on_shared (enter request.action) w.st; trace = before }) _
            (take_turn-alone os request.action (record w { trace = clock_gettime ∷ rand ∷ w.trace })
              idle)
        ∙ >>=-ok (update_ratio os (λ s. s) request.action) _
            (record { st = on_shared (enter request.action) w.st; trace = before })
            (record {
              st = ratio_state;
              trace = ratio_calls request.action w.st.shared.priority before;
            })
            _ (entered request.action)
        ∙ >>=-ok (now os (λ s. s)) _
            (record {
              st = ratio_state;
              trace = ratio_calls request.action w.st.shared.priority before;
            })
            (record {
              st = ratio_state;
              trace = clock_gettime ∷ ratio_calls request.action w.st.shared.priority before;
            })
            _
            (now_lem os
              (record {
                st = ratio_state;
                trace = ratio_calls request.action w.st.shared.priority before;
              })
              (reliable.0 (ratio_calls request.action w.st.shared.priority before)))
        ∙ >>=-ok (work os (λ s. s) request slept) _
            (record {
              st = ratio_state;
              trace = clock_gettime ∷ ratio_calls request.action w.st.shared.priority before;
            })
            (record { st = record ratio_state { counter = number }; trace = acting }) _
            (work_lem os request slept
              (record {
                st = ratio_state;
                trace = clock_gettime ∷ ratio_calls request.action w.st.shared.priority before;
              })
              (reliable.1 (clock_gettime ∷ ratio_calls request.action w.st.shared.priority before)
                slept)
              reliable.2)
        ∙ >>=-ok (give_turn os (λ s. s) request.action) _
            (record { st = record ratio_state { counter = number }; trace = acting }) _ _
            (give_turn-alone os request.action
              (record { st = record ratio_state { counter = number }; trace = acting })
              (depart-IsIdle request.action w.st.shared idle))
        ∙ ground (arith, left request.action w.st.shared idle),
  )
    where
      entered :
          (a : Action)
          → update_ratio os (λ s. s) a (record { st = on_shared (enter a) w.st; trace = before })
            ≡ ok tt (record {
              st = on_shared (count_ratio a) (on_shared (enter a) w.st);
              trace = ratio_calls a w.st.shared.priority before;
            })
      entered a =
          update_ratio_lem os a (record { st = on_shared (enter a) w.st; trace = before })
          ∙ rw (enter_priority a w.st.shared) refl

-- A request that is served while no other one is there, by a system whose clock can be read, whose
-- sleeps do not fail and which can open its file, is answered with its own action and the counter, raised by one for a writer. Then
-- nobody is counted any more, only the counter and the ratio have changed, and each mutex that was free
-- is free again.
pub do_request-alone :
    (os : ServerOs) (request : Request) (w : World Server Call)
    → IsReliable os
    → IsIdle w.st.shared
    → let counter = change_counter request.action w.st.counter in
      (time : ℤ) × (w' : World Server Call) × (do_request os (λ s. s) request w
        ≡ ok (record { action = request.action; counter = counter; waiting_time = time }) w')
      × (w'.st ≡ record w.st {
        counter = counter;
        shared = record w.st.shared {
          ratio_counter =
              if same request.action w.st.shared.priority then suc w.st.shared.ratio_counter else 0;
        };
      })
      × ((m : Mutex) → is_taken m w.trace ≡ false → is_taken m w'.trace ≡ false)
do_request-alone os request w reliable idle =
    let (t, e) = served os request w reliable idle in
    (
      t,
      _,
      e,
      refl,
      λ m free.
          request_calls-free m request.action w.st.shared.priority request.id
            (slept os request w reliable idle) (number os request w reliable idle) w.trace free,
    )
