-- ===== src/Readers/Requests/Progress.antt =====
-- When a thread of `do_request` (practica3/proxy.c) can go on.
use sistemas_distribuidos_y.Common.{
  ℕ, ◌<◌, ℤ, ◌≡◌, refl, inl, inr, Bool, true, false, ◌&&◌, arith, ltb, Bool-cases, count, count-pos,
  count-some,
}
use sistemas_distribuidos_y.Readers.{Action, read, write, same, leave}
use sistemas_distribuidos_y.Readers.Requests.{
  Pc, start, dozing, waiting, woken, checking, locking, inside, counting, storing, worked, leaving,
  answering, done, Session, State, enter, must_wait, own_mutex, Step, waits, passes, sleeps,
  returns, checks, locks, rates, loads, skips, stores, leaves_waking, leaves_alone, unlocks,
  answers, started, Reach,
}
use sistemas_distribuidos_y.Readers.Requests.Counts.{dozes, is_locked, has_mutex, Inv}
use sistemas_distribuidos_y.Readers.Requests.Guard.{Reach-Inv}
use sistemas_distribuidos_y.Readers.Requests.Exclusion.{is_done}

abbrev pub is_waiting : Pc → Bool
is_waiting waiting = true
is_waiting _ = false

abbrev pub waits_for : Action → Session → Bool
waits_for a c = same c.action a && is_waiting c.at

same_eq : (a b : Action) → same a b ≡ true → a ≡ b
same_eq read read h = refl
same_eq write write h = refl
same_eq read write h = cc
same_eq write read h = cc

same_refl : (a : Action) → same a a ≡ true
same_refl read = refl
same_refl write = refl

-- A lock is free, or its owner can go on.
module _ {n counter : ℕ} {s : State} (v : Inv n counter s) where
  open v use {owned, readers_doze, writers_doze}

  Moves : Type 0
  Moves = (t : State) × Step false n s t

  dozer : (a : Action) → own_mutex a s ≡ true → Moves
  unfolding Moves
  dozer read e =
      let (j, p, q) = count-some (dozes read) n s.sessions (ground (arith, readers_doze)) in
      (_, sleeps j p (ground arith))
  dozer write e =
      let (j, p, q) = count-some (dozes write) n s.sessions (ground (arith, writers_doze)) in
      (_, sleeps j p (ground arith))

  -- A thread behind its critical section signals whoever waits.
  leaver : (i : ℕ) (b : Bool) → i < n → (s.sessions i).at ≡ worked b → Moves
  unfolding Moves
  leaver i b h e =
      let kind = (leave (s.sessions i).action s.shared).0 in
      elim (Bool-cases (ltb 0 (count (waits_for kind) n s.sessions))) [
        | inl some_waits ↦
            let (j, p, q) = count-some (waits_for kind) n s.sessions (ground arith) in
            (
              _,
              leaves_waking i j b h e p (ground arith)
                  (same_eq (s.sessions j).action kind (ground arith)),
            )
        | inr none_waits ↦ (
          _,
          leaves_alone i b h e (λ j p q w. ground (
            arith,
            count-pos (waits_for kind) n j s.sessions p,
            same_refl (s.sessions j).action,
          )),
        )
      ]

  loader : (i : ℕ) (b : Bool) → i < n → (s.sessions i).at ≡ counting b → Moves
  unfolding Moves
  loader i b h e = by_action (s.sessions i).action refl
    where
      by_action : (a : Action) → (s.sessions i).action ≡ a → (t : State) × Step false n s t
      by_action read q = (_, skips i b h e q)
      by_action write q = (_, loads i b h e q)

  owner : s.mutex ≡ true → Moves
  unfolding Moves
  owner e =
      let (j, p, q) = count-some has_mutex n s.sessions (ground (arith, owned)) in
      at_lock j p (s.sessions j).at refl q
    where
      at_lock :
          (j : ℕ)
          → j < n
          → (p : Pc) → (s.sessions j).at ≡ p
          → is_locked (s.sessions j).at ≡ true
          → (t : State) × Step false n s t
      at_lock j h (inside b) e q = (_, rates j b h e)
      at_lock j h (counting b) e q = loader j b h e
      at_lock j h (storing b c) e q = (_, stores j b c h e)
      at_lock j h (worked b) e q = leaver j b h e
      at_lock j h (leaving b) e q = (_, unlocks j b h e)
      at_lock j h _ e q = absurd (ground arith)

  -- A thread in front of the first part.
  starter : (i : ℕ) → i < n → (s.sessions i).at ≡ start → Moves
  unfolding Moves
  starter i h e = elim (Bool-cases (must_wait (enter (s.sessions i).action s.shared))) [
    | inr free ↦ (_, passes i h e free)
    | inl busy ↦ elim (Bool-cases (own_mutex (s.sessions i).action s)) [
      | inr own ↦ (_, waits i h e busy own)
      | inl taken ↦ dozer (s.sessions i).action taken
    ]
  ]

  returner : (i : ℕ) → i < n → (s.sessions i).at ≡ woken → Moves
  unfolding Moves
  returner i h e = elim (Bool-cases (own_mutex (s.sessions i).action s)) [
    | inr own ↦ (_, returns i h e own)
    | inl taken ↦ dozer (s.sessions i).action taken
  ]

  locker : (i : ℕ) → i < n → (s.sessions i).at ≡ locking → Moves
  unfolding Moves
  locker i h e = elim (Bool-cases s.mutex) [
    | inr own ↦ (_, locks i h e own)
    | inl taken ↦ owner taken
  ]

  mover :
      (i : ℕ)
      → i < n
      → (p : Pc) → (s.sessions i).at ≡ p
      → is_done p ≡ false
      → is_waiting p ≡ false
      → Moves
  unfolding Moves
  mover i h start e a b = starter i h e
  mover i h dozing e a b = (_, sleeps i h e)
  mover i h waiting e a b = absurd (cc)
  mover i h woken e a b = returner i h e
  mover i h checking e a b = (_, checks i h e)
  mover i h locking e a b = locker i h e
  mover i h (inside l) e a b = (_, rates i l h e)
  mover i h (counting l) e a b = loader i l h e
  mover i h (storing l c) e a b = (_, stores i l c h e)
  mover i h (worked l) e a b = leaver i l h e
  mover i h (leaving l) e a b = (_, unlocks i l h e)
  mover i h answering e a b = (_, answers i h e)
  mover i h (done k) e a b = absurd (cc)

-- As long as a thread is neither done nor asleep in its wait, some thread can make a step: the only
-- way to get stuck is that all threads that are not done wait for a signal.
pub do_request-progress :
    (priority : Action) (ratio : ℤ) (counter : ℕ) (action : ℕ → Action) {spurious : Bool} {n : ℕ}
    {s : State}
    → Reach spurious n (started priority ratio counter action) s
    → (i : ℕ) → i < n
    → is_done (s.sessions i).at ≡ false
    → is_waiting (s.sessions i).at ≡ false
    → (t : State) × Step false n s t
unfolding Moves
do_request-progress priority ratio counter action {n} {s} r i h a b =
    mover (Reach-Inv r) i h (s.sessions i).at refl a b
