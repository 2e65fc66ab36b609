-- ===== src/Readers/Service/Slots.antt =====
-- The table of sockets of practica3/proxy.c when a client connects.
use sistemas_distribuidos_y.Common.{
  ℕ, suc, ◌≤◌, ◌<◌, ℤ, pos, is_neg, eq_ℤ, eq_ℤ_iff, Bool, false, not, ◌∷◌, ◌≡◌, ◌≢◌, inl, inr, ◌==◌,
  arith, if◌then◌else◌, update, count, count-lt, count_change, ap, World, ok, fault,
}
use sistemas_distribuidos_y.Readers.{max_threads, get_free_fd}
use sistemas_distribuidos_y.Readers.Table.{get_free_fd_lem}
use sistemas_distribuidos_y.Readers.Server.{
  Server, Call, accept, lock, unlock, free_fd_mutex, ServerOs,
}
use sistemas_distribuidos_y.Readers.Service.{
  socket_accept, take_free_fd, set_value_fd, init_server_thread,
}

abbrev pub is_used : ℤ → Bool
is_used fd = not (eq_ℤ fd (pos 0))

-- How many entries of the table are in use.
abbrev pub used : (ℕ → ℤ) → ℕ
used sockets = count is_used max_threads sockets

-- With an entry that is free, it is taken.
free_entry :
    (sockets : ℕ → ℤ)
    → used sockets < max_threads
    → ((get_free_fd sockets).0 < max_threads)
      × (sockets (get_free_fd sockets).0 ≡ pos 0)
      × ((k : ℕ) → k ≢ (get_free_fd sockets).0 → (get_free_fd sockets).1 k ≡ sockets k)
free_entry sockets h = elim (get_free_fd_lem sockets).1 [
  | inl (lt, zero_, one, rest) ↦ (lt, zero_, rest)
  | inr (full, same) ↦
      let (i, p, q) = count-lt is_used max_threads sockets h in
      absurd
        ((get_free_fd_lem sockets).0 i (rw full p) (ground (arith, eq_ℤ_iff (sockets i) (pos 0))))
]

module _ (os : ServerOs) (w : World Server Call)
    (accepted : is_neg (os w.trace (accept w.st.server_socket)).ret ≡ false) where
  abbrev fd : ℤ
  fd = (os w.trace (accept w.st.server_socket)).ret

  -- With fewer threads than the table has entries, no more entries in use than threads, an `accept` that
  -- goes well, and no other thread that changes anything while this one waits for a lock, a client that
  -- connects gets an entry that was free, with its socket in it and the others as they were. Then at
  -- most `n + 1` entries are in use, if `n` is the number of threads before.
  pub init_server_thread-slot :
      (n : ℕ)
      → w.st.current_threads ≡ pos n
      → n < max_threads
      → used w.st.client_sockets ≤ n
      → (id : ℕ) × (w' : World Server Call) × (init_server_thread os (λ s. s) w ≡ ok (id, fd) w')
        × (id < max_threads)
        × (w.st.client_sockets id ≡ pos 0)
        × ((k : ℕ) → w'.st.client_sockets k ≡ (if id == k then fd else w.st.client_sockets k))
        × (used w'.st.client_sockets ≤ suc n)
  unfolding init_server_thread socket_accept take_free_fd set_value_fd
  init_server_thread-slot n threads few enough = (
    (get_free_fd w.st.client_sockets).0,
    record {
      st = record w.st { client_sockets = after };
      trace =
          unlock free_fd_mutex
          ∷ lock free_fd_mutex
          ∷ unlock free_fd_mutex
          ∷ lock free_fd_mutex
          ∷ accept w.st.server_socket
          ∷ w.trace;
    },
    ground (arith, accepted, threads, entry),
    entry.0,
    entry.1,
    there,
    omega (
      arith,
      count_change is_used max_threads (get_free_fd w.st.client_sockets).0 w.st.client_sockets after
          entry.0 (λ k p ne. ap is_used (elsewhere k ne)),
      one_or_none (is_used (after (get_free_fd w.st.client_sockets).0)),
    ),
  )
    where
      after : ℕ → ℤ
      after = update (get_free_fd w.st.client_sockets).1 (get_free_fd w.st.client_sockets).0 fd

      entry :
          ((get_free_fd w.st.client_sockets).0 < max_threads)
          × (w.st.client_sockets (get_free_fd w.st.client_sockets).0 ≡ pos 0)
          × ((k : ℕ)
              → k ≢ (get_free_fd w.st.client_sockets).0
              → (get_free_fd w.st.client_sockets).1 k ≡ w.st.client_sockets k)
      entry = free_entry w.st.client_sockets (omega arith)

      elsewhere :
          (k : ℕ) → ((get_free_fd w.st.client_sockets).0 ≡ k → ⊥) → after k ≡ w.st.client_sockets k
      elsewhere k ne = ground (arith, entry.2 k)

      there :
          (k : ℕ)
          → after k
            ≡ (if (get_free_fd w.st.client_sockets).0 == k then fd else w.st.client_sockets k)
      there k = ground (arith, entry.2 k)

      one_or_none : (b : Bool) → (if b then 1 else 0) ≤ 1
      one_or_none b = ground arith

  -- With every entry in use, a wait for a free one that ends by itself, or none, leads to a write
  -- behind the table.
  pub init_server_thread-full :
      ((k : ℕ) → k < max_threads → w.st.client_sockets k ≢ pos 0)
      → init_server_thread os (λ s. s) w ≡ fault
  unfolding init_server_thread socket_accept take_free_fd set_value_fd
  init_server_thread-full full = elim (get_free_fd_lem w.st.client_sockets).1 [
    | inl (lt, free, one, rest) ↦ absurd (full _ lt free)
    | inr (last, same) ↦ ground (arith, accepted)
  ]
