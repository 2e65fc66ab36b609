-- ===== src/Readers/Server/Steps.antt =====
-- A request as the thread of the server makes its calls (`do_request` of practica3/proxy.c), against the
-- steps of the threads in Readers/Requests.antt.
use sistemas_distribuidos_y.Common.{
  ℕ, zero, suc, ◌<◌, ℤ, Bool, true, false, ◌≡◌, ◌≢◌, inl, inr, Bool-cases, refl, sym, ap, ◌∙◌,
  arith, if◌then◌else◌, World, ok,
}
use sistemas_distribuidos_y.Readers.{Action, read, write, same, Shared, depart, signal_next, leave}
use sistemas_distribuidos_y.Readers.Requests.{
  Session, State, start, checking, locking, inside, counting, storing, worked, leaving, answering,
  done, waiting, passes, checks, locks, rates, loads, skips, stores, leaves_alone, unlocks, answers,
  Reach, begin, later, go, enter, must_wait, needs_mutex, count_ratio, change_counter,
}
use sistemas_distribuidos_y.Readers.Server.{Request, Server, Call, ServerOs, do_request}
use sistemas_distribuidos_y.Readers.Server.Parts.{IsIdle}
use sistemas_distribuidos_y.Readers.Server.Alone.{IsReliable, do_request-alone}

-- The state of the relation for one thread with a request, in a server where every mutex is free.
abbrev pub alone : Action → Server → State
alone action s = record {
  shared = s.shared;
  counter = s.counter;
  mutex = false;
  readers_mutex = false;
  writers_mutex = false;
  sessions = λ i. record { action = action; at = start };
}

module _ (action : Action) (s : Shared) (idle : IsIdle s) where
  enter-passes : must_wait (enter action s) ≡ false
  unfolding enter must_wait
  enter-passes = entering action
    where
      entering : (a : Action) → must_wait (enter a s) ≡ false
      entering read = ground arith
      entering write = ground arith

  -- What is left of the shared variables.
  leave-entered :
      (leave action (count_ratio action (enter action s))).1
      ≡ record s { ratio_counter = if same action s.priority then suc s.ratio_counter else 0 }
  unfolding enter count_ratio depart leave signal_next
  leave-entered = leaving_ action
    where
      leaving_ :
          (a : Action)
          → (leave a (count_ratio a (enter a s))).1
            ≡ record s { ratio_counter = if same a s.priority then suc s.ratio_counter else 0 }
      leaving_ read = ground arith
      leaving_ write = ground arith

only_one :
    (locked : Bool) (t : State) (j : ℕ)
    → (t.sessions 0).at ≡ worked locked
    → j < 1
    → (t.sessions j).at ≢ waiting
only_one locked t zero e h w = absurd (ground arith)
only_one locked t (suc j) e h w = absurd (omega arith)

-- From the critical section to the response, for a thread that is alone.
module _ (s t : State) (locked : Bool) where
  abbrev rated : State
  rated = go 0 (counting locked) (record t { shared = count_ratio (t.sessions 0).action t.shared })

  abbrev through : Action → ℕ → Session
  through read = (go 0 (worked locked) rated).sessions
  through write = (go 0 (worked locked) (go 0 (storing locked t.counter) rated)).sessions

  abbrev raised : Action → ℕ
  raised read = t.counter
  raised write = change_counter (t.sessions 0).action t.counter

  raised_lem :
      (a : Action)
      → (t.sessions 0).action ≡ a
      → raised a ≡ change_counter (t.sessions 0).action t.counter
  unfolding change_counter
  raised_lem read e = rw e refl
  raised_lem write e = refl

  abbrev changed : Action → State
  changed a = record rated { counter = raised a; sessions = through a }

  abbrev left : Action → State
  left a =
      go 0 (leaving locked)
        (record (changed a) { shared = (leave (t.sessions 0).action rated.shared).1 })

  abbrev unlocked : Action → State
  unlocked a = go 0 answering (record (left a) { mutex = if locked then false else t.mutex })

  abbrev answered : Action → State
  answered a = go 0 (done (raised a)) (unlocked a)

  finishes :
      (a : Action)
      → (t.sessions 0).action ≡ a
      → Reach false 1 s t
      → (t.sessions 0).at ≡ inside locked
      → Reach false 1 s (answered a)
  finishes read e r at =
      later
        (later
          (later
            (later (later r (rates 0 locked (omega arith) at))
              (skips 0 locked (omega arith) refl e))
            (leaves_alone 0 locked (omega arith) refl
              (λ j h k. only_one locked (changed read) j refl h)))
          (unlocks 0 locked (omega arith) refl))
        (answers 0 (omega arith) refl)
  finishes write e r at =
      later
        (later
          (later
            (later
              (later (later r (rates 0 locked (omega arith) at))
                (loads 0 locked (omega arith) refl e))
              (stores 0 locked t.counter (omega arith) refl))
            (leaves_alone 0 locked (omega arith) refl
              (λ j h k. only_one locked (changed write) j refl h)))
          (unlocks 0 locked (omega arith) refl))
        (answers 0 (omega arith) refl)

module _ (action : Action) (server : Server) (idle : IsIdle server.shared) where
  abbrev entered : State
  entered = record (alone action server) { shared = enter action server.shared }

  abbrev checked : State
  checked =
      go 0 (if needs_mutex action entered.shared then locking else inside false)
        (go 0 checking entered)

  abbrev turned : Bool → State
  turned true = go 0 (inside true) (record checked { mutex = true })
  turned false = checked

  takes :
      (locked : Bool)
      → needs_mutex action entered.shared ≡ locked
      → Reach false 1 (alone action server) (turned locked)
  takes true e =
      later
        (later (later begin (passes 0 (omega arith) refl (enter-passes action server.shared idle)))
          (checks 0 (omega arith) refl))
        (locks 0 (omega arith) (ap (λ b. if b then locking else inside false) e) refl)
  takes false e =
      later (later begin (passes 0 (omega arith) refl (enter-passes action server.shared idle)))
        (checks 0 (omega arith) refl)

  turned_inside :
      (locked : Bool)
      → needs_mutex action entered.shared ≡ locked
      → ((turned locked).sessions 0).at ≡ inside locked
  turned_inside true e = refl
  turned_inside false e = ap (λ b. if b then locking else inside false) e

-- A request that is served while no other one is there, by a system whose clock can be read, whose
-- sleeps do not fail and which can open the file of the counter to write it, ends as a history of the relation of threads for that one request does: with the
-- same counter in its response, the same shared variables and the same counter, and `mutex` free.
pub do_request-Reach :
    (os : ServerOs) (request : Request) (w : World Server Call)
    → IsReliable os
    → IsIdle w.st.shared
    → (time : ℤ) × (w' : World Server Call) × (t : State) × (do_request os (λ s. s) request w
        ≡ ok (record { action = request.action; counter = t.counter; waiting_time = time }) w')
      × Reach false 1 (alone request.action w.st) t
      × ((t.sessions 0).at ≡ done t.counter)
      × (t.shared ≡ w'.st.shared)
      × (t.counter ≡ w'.st.counter)
      × (t.mutex ≡ false)
do_request-Reach os request w reliable idle =
    let (time, w', e, now, _) = do_request-alone os request w reliable idle in
    elim (Bool-cases (needs_mutex request.action (entered request.action w.st idle).shared)) [
      | inl needs ↦
          let t = turned request.action w.st idle true in
          (
            time,
            w',
            answered (alone request.action w.st) t true request.action,
            e
                ∙ ap
                    (λ k.
                      ok (record { action = request.action; counter = k; waiting_time = time }) w')
                    (sym (raised_lem (alone request.action w.st) t true request.action refl)),
            finishes (alone request.action w.st) t true request.action refl
                (takes request.action w.st idle true needs)
                (turned_inside request.action w.st idle true needs),
            refl,
            leave-entered request.action w.st.shared idle ∙ sym (ap (λ st. st.shared) now),
            raised_lem (alone request.action w.st) t true request.action refl
                ∙ sym (ap (λ st. st.counter) now),
            refl,
          )
      | inr needs ↦
          let t = turned request.action w.st idle false in
          (
            time,
            w',
            answered (alone request.action w.st) t false request.action,
            e
                ∙ ap
                    (λ k.
                      ok (record { action = request.action; counter = k; waiting_time = time }) w')
                    (sym (raised_lem (alone request.action w.st) t false request.action refl)),
            finishes (alone request.action w.st) t false request.action refl
                (takes request.action w.st idle false needs)
                (turned_inside request.action w.st idle false needs),
            refl,
            leave-entered request.action w.st.shared idle ∙ sym (ap (λ st. st.shared) now),
            raised_lem (alone request.action w.st) t false request.action refl
                ∙ sym (ap (λ st. st.counter) now),
            refl,
          )
    ]
