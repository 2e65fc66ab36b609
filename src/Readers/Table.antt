-- ===== src/Readers/Table.antt =====
-- The table of sockets of practica3/proxy.c.
use sistemas_distribuidos_y.Common.{
  ℕ, zero, suc, ◌+◌, ◌≤◌, ◌<◌, ℤ, pos, eq_ℤ, eq_ℤ_iff, ◌≡◌, ◌≢◌, refl, ◌⊎◌, inl, inr, arith, ltb,
  Bool-cases, lt→ltb,
}
use sistemas_distribuidos_y.Readers.{max_threads, find_free, get_free_fd}

find_free_lem :
    (n i : ℕ) (sockets : ℕ → ℤ)
    → ((find_free n i sockets < i + n) × (sockets (find_free n i sockets) ≡ pos 0))
      ⊎ (find_free n i sockets ≡ i + n)
unfolding find_free
find_free_lem zero i sockets = inr (omega arith)
find_free_lem (suc n) i sockets = elim (Bool-cases (eq_ℤ (sockets i) (pos 0))) [
  | inl free ↦ inl (rw free (omega arith, (eq_ℤ_iff (sockets i) (pos 0)).0 free))
  | inr used ↦ elim (find_free_lem n (suc i) sockets) [
    | inl (h, e) ↦ inl (rw used (omega arith, e))
    | inr e ↦ inr (rw used (omega arith))
  ]
]

find_free-first :
    (n i k : ℕ) (sockets : ℕ → ℤ) → i ≤ k → k < find_free n i sockets → sockets k ≢ pos 0
unfolding find_free
find_free-first zero i k sockets h q e = omega arith
find_free-first (suc n) i k sockets h q e = elim (Bool-cases (ltb i k)) [
  | inl later ↦ ground (arith, find_free-first n (suc i) k sockets)
  | inr here ↦ ground (arith, eq_ℤ_iff (sockets i) (pos 0))
]

-- `get_free_fd` returns the first position whose entry is 0, which is in use afterwards while all
-- other entries stay. If there is none among the 250, it returns 250, which is behind the table, and
-- changes nothing.
pub get_free_fd_lem :
    (sockets : ℕ → ℤ)
    → let (id, sockets') = get_free_fd sockets in
      ((k : ℕ) → k < id → sockets k ≢ pos 0)
      × (((id < max_threads)
            × (sockets id ≡ pos 0)
            × (sockets' id ≡ pos 1)
            × ((k : ℕ) → k ≢ id → sockets' k ≡ sockets k))
          ⊎ ((id ≡ max_threads) × (sockets' ≡ sockets)))
unfolding get_free_fd
get_free_fd_lem sockets = elim (find_free_lem max_threads 0 sockets) [
  | inl (h, e) ↦ rw (lt→ltb (find_free max_threads 0 sockets) max_threads h) (
    λ k q. find_free-first max_threads 0 k sockets (omega arith) q,
    inl (h, e, ground arith, λ k ne. ground arith),
  )
  | inr e ↦
      rw e (
        λ k q. find_free-first max_threads 0 k sockets (omega arith) (omega arith),
        inr (refl, refl),
      )
]
