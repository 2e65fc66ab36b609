-- ===== src/Readers/Requests/Invariant.antt =====
-- Every step of `do_request` (practica3/proxy.c) keeps the counts of its invariant.
use sistemas_distribuidos_y.Common.{
  ℕ, ◌+◌, ◌-◌, ◌<◌, ◌≡◌, refl, Bool, true, false, arith, if◌then◌else◌, update, count, count-update,
  count-pos,
}
use sistemas_distribuidos_y.Readers.{Action, read, write, same, Shared, depart, signal_next, leave}
use sistemas_distribuidos_y.Readers.Requests.{
  Pc, start, dozing, waiting, woken, checking, locking, inside, counting, storing, worked, leaving,
  answering, done, Session, State, enter, count_ratio, change_counter, own_mutex, set_own_mutex, go,
}
use sistemas_distribuidos_y.Readers.Requests.Counts.{
  counted, has_mutex, has_written, dozes, Inv, IsGuarded,
}

-- The six counts after the thread `i` has gone on.
module _ (n i : ℕ) (f : ℕ → Session) (p : Pc) (h : i < n) where
  abbrev moved : ℕ → Session
  moved = update f i (record (f i) { at = p })

  Moved : Type 0
  Moved =
      (count (counted read) n moved + (if counted read (f i) then 1 else 0)
        ≡ count (counted read) n f + (if counted read (record (f i) { at = p }) then 1 else 0))
      × (count (counted write) n moved + (if counted write (f i) then 1 else 0)
          ≡ count (counted write) n f + (if counted write (record (f i) { at = p }) then 1 else 0))
      × (count has_written n moved + (if has_written (f i) then 1 else 0)
          ≡ count has_written n f + (if has_written (record (f i) { at = p }) then 1 else 0))
      × (count has_mutex n moved + (if has_mutex (f i) then 1 else 0)
          ≡ count has_mutex n f + (if has_mutex (record (f i) { at = p }) then 1 else 0))
      × (count (dozes read) n moved + (if dozes read (f i) then 1 else 0)
          ≡ count (dozes read) n f + (if dozes read (record (f i) { at = p }) then 1 else 0))
      × (count (dozes write) n moved + (if dozes write (f i) then 1 else 0)
          ≡ count (dozes write) n f + (if dozes write (record (f i) { at = p }) then 1 else 0))

  moves : Moved
  unfolding Moved
  moves = (
    count-update (counted read) n i f _ h,
    count-update (counted write) n i f _ h,
    count-update has_written n i f _ h,
    count-update has_mutex n i f _ h,
    count-update (dozes read) n i f _ h,
    count-update (dozes write) n i f _ h,
  )

-- A client that leaves is not counted any more, and nothing else of the counters changes.
leave_counters :
    (a : Action) (s : Shared)
    → ((leave a s).1.current_readers
        ≡ (if same a read then s.current_readers - 1 else s.current_readers))
      × ((leave a s).1.current_writers
          ≡ (if same a write then s.current_writers - 1 else s.current_writers))
unfolding leave signal_next depart
leave_counters read s = ground arith
leave_counters write s = ground arith

module _ {n counter : ℕ} {s : State} (v : Inv n counter s) (i : ℕ) (h : i < n) where
  open v use {readers, writers, written, owned, readers_doze, writers_doze}

  pub passes-Inv :
      (s.sessions i).at ≡ start
      → Inv n counter (go i checking (record s { shared = enter (s.sessions i).action s.shared }))
  unfolding enter Moved
  passes-Inv e = ground (arith, moves n i s.sessions checking h)

  pub waits-Inv :
      (s.sessions i).at ≡ start
      → own_mutex (s.sessions i).action s ≡ false
      → Inv n counter (
          go i dozing (
            set_own_mutex
              (s.sessions i).action
              true
              (record s { shared = enter (s.sessions i).action s.shared })))
  unfolding enter Moved
  waits-Inv e q = by_action (s.sessions i).action refl
    where
      by_action :
          (a : Action)
          → (s.sessions i).action ≡ a
          → Inv n counter (
              go i dozing (
                set_own_mutex
                  (s.sessions i).action
                  true
                  (record s { shared = enter (s.sessions i).action s.shared })))
      by_action read r = ground (arith, moves n i s.sessions dozing h)
      by_action write r = ground (arith, moves n i s.sessions dozing h)

  pub sleeps-Inv :
      (s.sessions i).at ≡ dozing
      → Inv n counter (go i waiting (set_own_mutex (s.sessions i).action false s))
  unfolding Moved
  sleeps-Inv e = ground (arith, moves n i s.sessions waiting h)

  pub returns-Inv : (s.sessions i).at ≡ woken → Inv n counter (go i checking s)
  unfolding Moved
  returns-Inv e = ground (arith, moves n i s.sessions checking h)

  pub checks-Inv :
      (b : Bool)
      → (s.sessions i).at ≡ checking
      → Inv n counter (go i (if b then locking else inside false) s)
  unfolding Moved
  checks-Inv true e = ground (arith, moves n i s.sessions locking h)
  checks-Inv false e = ground (arith, moves n i s.sessions (inside false) h)

  pub locks-Inv :
      (s.sessions i).at ≡ locking
      → s.mutex ≡ false
      → Inv n counter (go i (inside true) (record s { mutex = true }))
  unfolding Moved
  locks-Inv e q = ground (arith, moves n i s.sessions (inside true) h)

  pub rates-Inv :
      (b : Bool)
      → (s.sessions i).at ≡ inside b
      → Inv n counter
          (go i (counting b) (record s { shared = count_ratio (s.sessions i).action s.shared }))
  unfolding Moved count_ratio
  rates-Inv b e = ground (arith, moves n i s.sessions (counting b) h)

  pub loads-Inv :
      (b : Bool) → (s.sessions i).at ≡ counting b → Inv n counter (go i (storing b s.counter) s)
  unfolding Moved
  loads-Inv b e = ground (arith, moves n i s.sessions (storing b s.counter) h)

  pub skips-Inv :
      (b : Bool)
      → (s.sessions i).at ≡ counting b
      → (s.sessions i).action ≡ read
      → Inv n counter (go i (worked b) s)
  unfolding Moved
  skips-Inv b e q = ground (arith, moves n i s.sessions (worked b) h)

  pub stores-Inv :
      (b : Bool) (c : ℕ)
      → (s.sessions i).at ≡ storing b c
      → IsGuarded s.counter (s.sessions i)
      → Inv n counter
          (go i (worked b) (record s { counter = change_counter (s.sessions i).action c }))
  unfolding Moved change_counter
  stores-Inv b c e g = ground (arith, moves n i s.sessions (worked b) h, g)

  pub leaves-Inv :
      (b : Bool)
      → (s.sessions i).at ≡ worked b
      → Inv n counter
          (go i (leaving b) (record s { shared = (leave (s.sessions i).action s.shared).1 }))
  unfolding Moved
  leaves-Inv b e = ground (
    arith,
    moves n i s.sessions (leaving b) h,
    leave_counters (s.sessions i).action s.shared,
    count-pos (counted read) n i s.sessions h,
    count-pos (counted write) n i s.sessions h,
  )

  pub wakes-Inv : (s.sessions i).at ≡ waiting → Inv n counter (go i woken s)
  unfolding Moved
  wakes-Inv e = ground (arith, moves n i s.sessions woken h)

  pub unlocks-Inv :
      (b : Bool)
      → (s.sessions i).at ≡ leaving b
      → Inv n counter (go i answering (record s { mutex = if b then false else s.mutex }))
  unfolding Moved
  unlocks-Inv b e = ground (arith, moves n i s.sessions answering h)

  pub answers-Inv : (s.sessions i).at ≡ answering → Inv n counter (go i (done s.counter) s)
  unfolding Moved
  answers-Inv e = ground (arith, moves n i s.sessions (done s.counter) h)
