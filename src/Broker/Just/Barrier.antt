-- ===== src/Broker/Just/Barrier.antt =====
-- The barrier of the fair mode (practica4/proxy_broker.c): what holds in every reachable state.
use sistemas_distribuidos_y.Common.{
  ℕ, zero, suc, ◌+◌, ◌≤◌, ◌<◌, ◌≡◌, ◌≢◌, refl, ap, ◌⊎◌, inl, inr, Bool, true, false, arith, ltb,
  if◌then◌else◌, Bool-cases, update, count, count-le, count_ext, count_change, count-lt, count-full,
  count-pos, count-none, count-every,
}
use sistemas_distribuidos_y.Broker.Just.{
  Pc, start, waiting, woken, passed, sent, State, broadcast, leave, arrive, Step, arrives, wakes,
  sends, wakes_up, started, Reach, begin, later,
}

abbrev pub arrived : Pc → Bool
arrived start = false
arrived _ = true

abbrev pub is_past : Pc → Bool
is_past passed = true
is_past sent = true
is_past _ = false

abbrev pub is_waiting : Pc → Bool
is_waiting waiting = true
is_waiting _ = false

abbrev pub is_woken : Pc → Bool
is_woken woken = true
is_woken _ = false

-- The counter is the number of threads that arrived and did not pass. As long as nobody passed,
-- nobody was woken up and somebody has not arrived; afterwards all have arrived and nobody waits.
record Inv (n : ℕ) (s : State) : Type 0 where
  counter : s.just_threads + count is_past n s.pc ≡ count arrived n s.pc
  closed : count is_past n s.pc ≡ 0 → (count arrived n s.pc < n) ⊎ (n ≡ 0)
  asleep : (i : ℕ) → i < n → count is_past n s.pc ≡ 0 → is_woken (s.pc i) ≡ false
  opened : 0 < count is_past n s.pc → count arrived n s.pc ≡ n
  awake : (i : ℕ) → i < n → 0 < count is_past n s.pc → is_waiting (s.pc i) ≡ false

Inv-started : (n : ℕ) → Inv n started
Inv-started n = record {
  counter = omega (arith, none_past, none_arrived);
  closed = λ _. closed n;
  asleep = λ i _ _. refl;
  opened = λ h. absurd (omega (arith, none_past));
  awake = λ i _ _. refl;
}
  where
    none_past : count is_past n (λ _. start) ≡ 0
    none_past = count-none is_past n (λ _. start) (λ _ _. refl)

    none_arrived : count arrived n (λ _. start) ≡ 0
    none_arrived = count-none arrived n (λ _. start) (λ _ _. refl)

    closed : (n : ℕ) → (count arrived n (λ _. start) < n) ⊎ (n ≡ 0)
    closed zero = inr refl
    closed (suc n) = inl (omega (arith, count-none arrived (suc n) (λ _. start) (λ _ _. refl)))

module _ {n : ℕ} {s : State} (inv : Inv n s) (i : ℕ) (h : i < n) where
  open inv use {counter, closed, asleep, opened, awake}

  -- A thread that passes: the counts of those that arrived and of those behind the barrier.
  leave-past :
      (k : ℕ)
      → is_past (s.pc i) ≡ false
      → count is_past n (leave i (record s { just_threads = k })).pc ≡ suc (count is_past n s.pc)
  unfolding leave broadcast
  leave-past k e = ground (
    arith,
    count_change is_past n i s.pc (leave i (record s { just_threads = k })).pc h
        (λ j q ne. ground arith),
  )

  leave-arrived :
      (k : ℕ)
      → count arrived n (leave i (record s { just_threads = k })).pc
          + (if arrived (s.pc i) then 1 else 0)
        ≡ suc (count arrived n s.pc)
  unfolding leave broadcast
  leave-arrived k = ground (
    arith,
    count_change arrived n i s.pc (leave i (record s { just_threads = k })).pc h
        (λ j q ne. ground arith),
  )

  -- It leaves the barrier open, if all have arrived with it.
  leave-Inv :
      (k : ℕ)
      → is_past (s.pc i) ≡ false
      → k + count is_past n s.pc + (if arrived (s.pc i) then 1 else 0) ≡ suc (count arrived n s.pc)
      → n + (if arrived (s.pc i) then 1 else 0) ≡ suc (count arrived n s.pc)
      → Inv n (leave i (record s { just_threads = k }))
  unfolding leave broadcast
  leave-Inv k e c full = record {
    counter = omega (
      arith,
      leave-past k e,
      leave-arrived k,
      count-le is_past n (leave i (record s { just_threads = k })).pc,
    );
    closed = λ z. absurd (omega (arith, leave-past k e));
    asleep = λ j q z. absurd (omega (arith, leave-past k e));
    opened = λ _. omega (arith, leave-arrived k);
    awake = λ j q _. ground arith;
  }

  -- A thread that goes from a place in front of the barrier to `waiting`.
  waiter :
      is_past (s.pc i) ≡ false
      → (count is_past n (update s.pc i waiting) ≡ count is_past n s.pc)
        × (count arrived n (update s.pc i waiting) + (if arrived (s.pc i) then 1 else 0)
            ≡ suc (count arrived n s.pc))
  waiter e = (
    ground
        (arith, count_change is_past n i s.pc (update s.pc i waiting) h (λ j q ne. ground arith)),
    ground
        (arith, count_change arrived n i s.pc (update s.pc i waiting) h (λ j q ne. ground arith)),
  )

  -- As long as a thread has not arrived, the barrier is closed.
  starter : s.pc i ≡ start → (suc (count arrived n s.pc) ≤ n) × (count is_past n s.pc ≡ 0)
  starter e =
      let room : suc (count arrived n s.pc) ≤ n =
        ground (arith, (waiter (ground arith)).1, count-le arrived n (update s.pc i waiting)) in
      (room, ground (arith, opened))

  -- The first step of a thread.
  arrive-Inv : s.pc i ≡ start → Inv n (arrive n i s)
  unfolding arrive
  arrive-Inv e = elim (Bool-cases (ltb (suc s.just_threads) n)) [
    | inr last ↦ rw last (
        leave-Inv (suc s.just_threads) (ground arith) (ground (arith, counter))
          (ground (arith, counter, starter e)))
    | inl more ↦ rw more (record {
      counter = ground (arith, counter, waiter (ground arith));
      closed = λ _. inl (ground (arith, counter, starter e, waiter (ground arith)));
      asleep = λ j q z. ground (arith, asleep j q (starter e).1);
      opened = λ q. absurd (omega (arith, (waiter (ground arith)).0, (starter e).1));
      awake = λ j q r. absurd (omega (arith, (waiter (ground arith)).0, (starter e).1));
    })
  ]

  -- A thread that sends changes no count.
  sends-Inv : s.pc i ≡ passed → Inv n (record s { pc = update s.pc i sent })
  sends-Inv e = record {
    counter = ground (arith, same_past, same_arrived, counter);
    closed = λ z. ground (arith, same_past, same_arrived, closed);
    asleep = λ j q z. ground (arith, same_past, asleep j q);
    opened = λ z. ground (arith, same_past, same_arrived, opened);
    awake = λ j q z. ground (arith, same_past, awake j q);
  }
    where
      same_past : count is_past n (update s.pc i sent) ≡ count is_past n s.pc
      same_past = count_ext is_past n _ _ (λ j q. ground arith)

      same_arrived : count arrived n (update s.pc i sent) ≡ count arrived n s.pc
      same_arrived = count_ext arrived n _ _ (λ j q. ground arith)

-- Every step keeps the invariant, unless a wait ends by itself.
Step-Inv : {n : ℕ} {s t : State} → Step false n n s t → Inv n s → Inv n t
Step-Inv (arrives i h e) inv = arrive-Inv inv i h e
Step-Inv {n} {s} (wakes i h e) inv =
    leave-Inv inv i h s.just_threads (ground arith) (ground (arith, counter))
      (ground (arith, opened, asleep i h))
  where
    open inv use {counter, asleep, opened}
Step-Inv (sends i h e) inv = sends-Inv inv i h e
Step-Inv (wakes_up i h e q) inv = absurd (cc)

Reach-Inv : {n : ℕ} {s : State} → Reach false n n s → Inv n s
Reach-Inv {n} begin = Inv-started n
Reach-Inv (later r st) = Step-Inv st (Reach-Inv r)

-- In the fair mode, with as many threads as subscribers and no wait that ends by itself, no thread
-- gets to its `send` before all of them have arrived at the barrier, and once all messages are sent
-- `just_threads` is 0 again for the next publication.
pub send_just-barrier :
    {n : ℕ} {s : State}
    → Reach false n n s
    → ((i j : ℕ) → i < n → j < n → is_past (s.pc i) ≡ true → arrived (s.pc j) ≡ true)
      × (((i : ℕ) → i < n → s.pc i ≡ sent) → s.just_threads ≡ 0)
send_just-barrier {n} {s} r = (
  λ i j p q e.
      count-full arrived n s.pc
        (omega (arith, opened (omega (arith, count-pos is_past n i s.pc p e)))) j q,
  λ all. omega (
    arith,
    counter,
    count-le arrived n s.pc,
    count-every is_past n s.pc (λ i p. ap is_past (all i p)),
  ),
)
  where
    open (Reach-Inv r) use {counter, opened}

-- In the fair mode, with as many threads as subscribers and no wait that ends by itself, some thread
-- can make a step as long as one of them has not sent its message.
pub send_just-progress :
    {n : ℕ} {s : State}
    → Reach false n n s
    → (i : ℕ) → i < n
    → s.pc i ≢ sent
    → (t : State) × Step false n n s t
send_just-progress {n} {s} r i h ne = go (s.pc i) refl
  where
    open (Reach-Inv r) use {counter, closed, awake}

    go : (p : Pc) → s.pc i ≡ p → (t : State) × Step false n n s t
    go start e = (_, arrives i h e)
    go woken e = (_, wakes i h e)
    go passed e = (_, sends i h e)
    go sent e = absurd (ne e)
    go waiting e =
        let (j, q, f) = count-lt arrived n s.pc (ground (arith, closed, awake i h)) in
        (_, arrives j q (ground arith))
