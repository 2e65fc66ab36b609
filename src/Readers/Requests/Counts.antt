-- ===== src/Readers/Requests/Counts.antt =====
-- What the counters and the locks of `do_request` (practica3/proxy.c) say of the threads.
use sistemas_distribuidos_y.Common.{
  ℕ, ◌+◌, ℤ, ◌≡◌, refl, sym, Bool, true, false, ◌&&◌, arith, if◌then◌else◌, count, count-none,
}
use sistemas_distribuidos_y.Readers.{Action, read, write, same}
use sistemas_distribuidos_y.Readers.Requests.{
  Pc, start, dozing, inside, counting, storing, worked, leaving, answering, done, Session, State,
  started,
}

-- From the first to the second change of `current_readers` or `current_writers`.
abbrev pub is_counted : Pc → Bool
is_counted start = false
is_counted (leaving b) = false
is_counted answering = false
is_counted (done c) = false
is_counted _ = true

-- Between the lock and the unlock of `mutex`.
abbrev pub is_locked : Pc → Bool
is_locked (inside b) = b
is_locked (counting b) = b
is_locked (storing b c) = b
is_locked (worked b) = b
is_locked (leaving b) = b
is_locked _ = false

-- Between the load and the store of `counter`, and what was loaded.
abbrev pub is_storing : Pc → Bool
is_storing (storing b c) = true
is_storing _ = false

abbrev pub loaded : Pc → ℕ
loaded (storing b c) = c
loaded _ = 0

-- In the critical section.
abbrev pub is_inside : Pc → Bool
is_inside (inside b) = true
is_inside (counting b) = true
is_inside (storing b c) = true
is_inside (worked b) = true
is_inside (leaving b) = true
is_inside _ = false

-- Behind the change of `counter`.
abbrev pub is_through : Pc → Bool
is_through (worked b) = true
is_through (leaving b) = true
is_through answering = true
is_through (done c) = true
is_through _ = false

abbrev pub is_dozing : Pc → Bool
is_dozing dozing = true
is_dozing _ = false

abbrev pub counted : Action → Session → Bool
counted a c = same c.action a && is_counted c.at

abbrev pub has_mutex : Session → Bool
has_mutex c = is_locked c.at

abbrev pub has_written : Session → Bool
has_written c = same c.action write && is_through c.at

abbrev pub dozes : Action → Session → Bool
dozes a c = same c.action a && is_dozing c.at

-- The counters are the numbers of the threads that they count, the counter is the first one and one
-- more for each writer that is through, and each lock is taken exactly if a thread has it.
pub record Inv (n counter : ℕ) (s : State) : Type 0 where
  pub readers : s.shared.current_readers ≡ count (counted read) n s.sessions
  pub writers : s.shared.current_writers ≡ count (counted write) n s.sessions
  pub written : s.counter ≡ counter + count has_written n s.sessions
  pub owned : (if s.mutex then 1 else 0) ≡ count has_mutex n s.sessions
  pub readers_doze : (if s.readers_mutex then 1 else 0) ≡ count (dozes read) n s.sessions
  pub writers_doze : (if s.writers_mutex then 1 else 0) ≡ count (dozes write) n s.sessions

-- A writer is in the critical section only with `mutex`, and what it has loaded is the counter.
abbrev pub IsGuarded : ℕ → Session → Type 0
IsGuarded counter c =
    (same c.action write ≡ true → is_inside c.at ≡ true → is_locked c.at ≡ true)
    × (is_storing c.at ≡ true → (same c.action write ≡ true) × (loaded c.at ≡ counter))

pub Inv-started :
    (priority : Action) (ratio : ℤ) (n counter : ℕ) (action : ℕ → Action)
    → Inv n counter (started priority ratio counter action)
Inv-started priority ratio n counter action = record {
  readers = sym (count-none (counted read) n _ (λ i h. ground arith));
  writers = sym (count-none (counted write) n _ (λ i h. ground arith));
  written = omega (
    arith,
    count-none has_written n (λ i. record { action = action i; at = start }) (λ i h. ground arith),
  );
  owned = sym (count-none has_mutex n _ (λ i h. refl));
  readers_doze = sym (count-none (dozes read) n _ (λ i h. ground arith));
  writers_doze = sym (count-none (dozes write) n _ (λ i h. ground arith));
}
