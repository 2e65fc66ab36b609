-- ===== src/Broker/Just/Stuck.antt =====
-- The fair mode (practica4/proxy_broker.c) when a topic has more subscribers than threads were started:
-- `send_just` reads `num_subscribers` again in each thread.
use sistemas_distribuidos_y.Common.{
  ℕ, suc, ◌<◌, ◌≡◌, refl, ◌⊎◌, inl, arith, false, lt→ltb, update, count, count-le, count_change,
  count-none,
}
use sistemas_distribuidos_y.Broker.Just.{
  Pc, start, waiting, State, arrive, Step, arrives, wakes, sends, wakes_up, started, Reach, begin,
  later,
}
use sistemas_distribuidos_y.Broker.Just.Barrier.{arrived}

-- A thread has not come past the barrier.
abbrev pub IsBefore : Pc → Type 0
IsBefore p = (p ≡ start) ⊎ (p ≡ waiting)

record Inv (n : ℕ) (s : State) : Type 0 where
  counter : s.just_threads ≡ count arrived n s.pc
  before : (i : ℕ) → i < n → IsBefore (s.pc i)

Inv-started : (n : ℕ) → Inv n started
Inv-started n = record {
  counter = omega (arith, count-none arrived n (λ _. start) (λ _ _. refl));
  before = λ i h. inl refl;
}

arrive-Inv :
    (n subs i : ℕ) (s : State)
    → n < subs
    → i < n
    → s.pc i ≡ start
    → Inv n s
    → Inv n (arrive subs i s)
unfolding arrive
arrive-Inv n subs i s h p e v =
    rw
      (lt→ltb (suc s.just_threads) subs
        (omega (arith, more, v.counter, count-le arrived n (update s.pc i waiting))))
      (record {
        counter = omega (arith, more, v.counter);
        before = λ j q. ground (arith, v.before j q);
      })
  where
    more : count arrived n (update s.pc i waiting) ≡ suc (count arrived n s.pc)
    more =
        ground
          (arith, count_change arrived n i s.pc (update s.pc i waiting) p (λ j q ne. ground arith))

Step-Inv : {n subs : ℕ} {s t : State} → n < subs → Step false n subs s t → Inv n s → Inv n t
Step-Inv h (arrives i p e) v = arrive-Inv _ _ i _ h p e v
Step-Inv h (wakes i p e) v = absurd (ground (arith, v.before i p))
Step-Inv h (sends i p e) v = absurd (ground (arith, v.before i p))
Step-Inv h (wakes_up i p e q) v = absurd (cc)

Reach-Inv : {n subs : ℕ} {s : State} → n < subs → Reach false n subs s → Inv n s
Reach-Inv {n} h begin = Inv-started n
Reach-Inv h (later r st) = Step-Inv h st (Reach-Inv h r)

-- When the topic of a fair publication has more subscribers than threads were started for it, and no
-- wait ends by itself, no thread ever comes past the barrier, so nothing is sent.
pub send_just-stuck :
    {n subs : ℕ} {s : State} → n < subs → Reach false n subs s → (i : ℕ) → i < n → IsBefore (s.pc i)
send_just-stuck h r i p = (Reach-Inv h r).before i p
