-- ===== src/Readers/Requests/Guard.antt =====
-- A writer of `do_request` (practica3/proxy.c) loads and stores the counter only with `mutex`, and so every
-- state keeps the invariant.
use sistemas_distribuidos_y.Common.{ℕ, ◌<◌, ℤ, ◌≡◌, Bool, true, arith, count_unique}
use sistemas_distribuidos_y.Readers.{Action}
use sistemas_distribuidos_y.Readers.Requests.{
  State, needs_mutex, Step, waits, passes, sleeps, returns, checks, locks, rates, loads, skips,
  stores, leaves_waking, leaves_alone, unlocks, answers, wakes_up, started, Reach, begin, later,
}
use sistemas_distribuidos_y.Readers.Requests.Counts.{
  has_mutex, is_storing, Inv, IsGuarded, Inv-started,
}
use sistemas_distribuidos_y.Readers.Requests.Invariant.{
  passes-Inv, waits-Inv, sleeps-Inv, returns-Inv, checks-Inv, locks-Inv, rates-Inv, loads-Inv,
  skips-Inv, stores-Inv, leaves-Inv, wakes-Inv, unlocks-Inv, answers-Inv,
}

-- Two writers are not between the load and the store of the counter at once.
module _ {n counter : ℕ} {s : State} (v : Inv n counter s)
    (w : (j : ℕ) → j < n → IsGuarded s.counter (s.sessions j)) where
  one_stores :
      (i j : ℕ)
      → i < n
      → j < n
      → is_storing (s.sessions i).at ≡ true
      → is_storing (s.sessions j).at ≡ true
      → i ≡ j
  one_stores i j h k a b =
      count_unique has_mutex n i j s.sessions (ground (arith, v.owned)) h k (ground (arith, w i h))
        (ground (arith, w j k))

  Step-IsGuarded :
      {spurious : Bool} {t : State}
      → Step spurious n s t
      → (j : ℕ) → j < n
      → IsGuarded t.counter (t.sessions j)
  unfolding needs_mutex
  Step-IsGuarded (waits i h e m q) j k = ground (arith, w i h, w j k)
  Step-IsGuarded (passes i h e m) j k = ground (arith, w i h, w j k)
  Step-IsGuarded (sleeps i h e) j k = ground (arith, w i h, w j k)
  Step-IsGuarded (returns i h e q) j k = ground (arith, w i h, w j k)
  Step-IsGuarded (checks i h e) j k = ground (arith, w i h, w j k)
  Step-IsGuarded (locks i h e q) j k = ground (arith, w i h, w j k)
  Step-IsGuarded (rates i b h e) j k = ground (arith, w i h, w j k)
  Step-IsGuarded (loads i b h e q) j k = ground (arith, w i h, w j k)
  Step-IsGuarded (skips i b h e q) j k = ground (arith, w i h, w j k)
  Step-IsGuarded (stores i b c h e) j k = ground (arith, w i h, w j k, one_stores i j h k)
  Step-IsGuarded (leaves_waking i l b h e p q r) j k = ground (arith, w i h, w j k, w l p)
  Step-IsGuarded (leaves_alone i b h e q) j k = ground (arith, w i h, w j k)
  Step-IsGuarded (unlocks i b h e) j k = ground (arith, w i h, w j k)
  Step-IsGuarded (answers i h e) j k = ground (arith, w i h, w j k)
  Step-IsGuarded (wakes_up i h e q) j k = ground (arith, w i h, w j k)

  Step-Inv : {spurious : Bool} {t : State} → Step spurious n s t → Inv n counter t
  Step-Inv (waits i h e m q) = waits-Inv v i h e q
  Step-Inv (passes i h e m) = passes-Inv v i h e
  Step-Inv (sleeps i h e) = sleeps-Inv v i h e
  Step-Inv (returns i h e q) = returns-Inv v i h e
  Step-Inv (checks i h e) = checks-Inv v i h (needs_mutex (s.sessions i).action s.shared) e
  Step-Inv (locks i h e q) = locks-Inv v i h e q
  Step-Inv (rates i b h e) = rates-Inv v i h b e
  Step-Inv (loads i b h e q) = loads-Inv v i h b e
  Step-Inv (skips i b h e q) = skips-Inv v i h b e q
  Step-Inv (stores i b c h e) = stores-Inv v i h b c e (w i h)
  Step-Inv (leaves_waking i j b h e p q r) = wakes-Inv (leaves-Inv v i h b e) j p (ground arith)
  Step-Inv (leaves_alone i b h e q) = leaves-Inv v i h b e
  Step-Inv (unlocks i b h e) = unlocks-Inv v i h b e
  Step-Inv (answers i h e) = answers-Inv v i h e
  Step-Inv (wakes_up i h e q) = wakes-Inv v i h e

module _ {priority : Action} {ratio : ℤ} {counter : ℕ} {action : ℕ → Action} where
  Reach-Inv-IsGuarded :
      {spurious : Bool} {n : ℕ} {s : State}
      → Reach spurious n (started priority ratio counter action) s
      → Inv n counter s × ((j : ℕ) → j < n → IsGuarded s.counter (s.sessions j))
  Reach-Inv-IsGuarded {n} begin =
      (Inv-started priority ratio n counter action, λ j h. ((λ a b. cc), (λ a. cc)))
  Reach-Inv-IsGuarded (later r st) =
      let (v, w) = Reach-Inv-IsGuarded r in (Step-Inv v w st, Step-IsGuarded v w st)

  pub Reach-Inv :
      {spurious : Bool} {n : ℕ} {s : State}
      → Reach spurious n (started priority ratio counter action) s
      → Inv n counter s
  Reach-Inv r = (Reach-Inv-IsGuarded r).0

  pub Reach-IsGuarded :
      {spurious : Bool} {n : ℕ} {s : State}
      → Reach spurious n (started priority ratio counter action) s
      → (j : ℕ) → j < n
      → IsGuarded s.counter (s.sessions j)
  Reach-IsGuarded r = (Reach-Inv-IsGuarded r).1
