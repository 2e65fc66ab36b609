-- ===== src/Broker/Clients/Roster.antt =====
-- One array of clients of a topic and its counter, seen as the list of the clients in use; what a
-- registration and a removal do to it (practica4/proxy_broker.c).
use sistemas_distribuidos_y.Common.{
  ℕ, suc, ◌-◌, ◌≤◌, ◌<◌, ℤ, pos, inc, dec, is_neg, rounds, rounds-inc, rounds-dec, if◌then◌else◌,
  false, List, [], ◌∷◌, ◌++◌, ◌≡◌, refl, inl, inr, arith, ltb, Bool-cases, update, slice,
  slice-update_end,
}
use sistemas_distribuidos_y.Broker.Types.{Client}
use sistemas_distribuidos_y.Broker.Clients.{find_client, shift_left}
use sistemas_distribuidos_y.Broker.Clients.Removal.{
  find_client-le, find_client-id, shift_loop_lem, remove, slice-shift_left,
}

-- The clients in use.
abbrev pub clients : (ℕ → Client) → ℤ → List Client
clients cs num = slice cs 0 (rounds num)

-- At most `max` clients, with different ids that were handed out before `next`, so at most `next`.
pub record IsRoster (max next : ℕ) (cs : ℕ → Client) (num : ℤ) : Type 0 where
  pub nonneg : is_neg num ≡ false
  pub room : rounds num ≤ max
  pub few : rounds num ≤ next
  pub handed : (k : ℕ) → k < rounds num → (j : ℕ) × ((cs k).id ≡ pos j) × (j < next)
  pub distinct : (k l : ℕ) → k < rounds num → l < rounds num → (cs k).id ≡ (cs l).id → k ≡ l

pub IsRoster-empty : (max next : ℕ) (cs : ℕ → Client) → IsRoster max next cs (pos 0)
IsRoster-empty max next cs = record {
  nonneg = refl;
  room = omega arith;
  few = omega arith;
  handed = λ k h. absurd (omega arith);
  distinct = λ k l h. absurd (omega arith);
}

-- Ids that are handed out later change nothing.
pub IsRoster-mono :
    {max m n : ℕ} {cs : ℕ → Client} {num : ℤ}
    → m ≤ n
    → IsRoster max m cs num
    → IsRoster max n cs num
IsRoster-mono h v = record {
  nonneg = v.nonneg;
  room = v.room;
  few = omega (arith, v.few);
  handed = λ k p. let (j, e, q) = v.handed k p in (j, e, omega arith);
  distinct = v.distinct;
}

module _ {max next : ℕ} {cs : ℕ → Client} {num : ℤ} (v : IsRoster max next cs num) where
  open v use {nonneg, room, few, handed, distinct}

  pub clients-update :
      (c : Client) → clients (update cs (rounds num) c) (inc num) ≡ clients cs num ++ c ∷ []
  clients-update c =
      rw (rounds-inc num nonneg) (slice-update_end cs c 0 (rounds num) (rounds num) (omega arith))

  pub IsRoster-update :
      (c : Client)
      → rounds num < max
      → c.id ≡ pos next
      → IsRoster max (suc next) (update cs (rounds num) c) (inc num)
  IsRoster-update c h e = record {
    nonneg = ground arith;
    room = ground arith;
    few = omega (arith, few, rounds-inc num nonneg);
    handed = λ k p. elim (Bool-cases (ltb k (rounds num))) [
      | inl old ↦ let (j, q, r) = handed k (ground arith) in (j, ground arith, omega arith)
      | inr new ↦ (next, ground (arith, rounds-inc num), omega arith)
    ];
    distinct = λ k l p q r. ground (arith, rounds-inc num nonneg, handed k, handed l, distinct k l);
  }

  -- A client in use is found where it stands.
  pub find_client-eq : (k : ℕ) → k < rounds num → find_client max 0 cs (cs k).id ≡ k
  find_client-eq k h = ground (
    arith,
    find_client-le max 0 k cs (cs k).id,
    find_client-id max 0 cs (cs k).id,
    distinct (find_client max 0 cs (cs k).id) k,
  )

  shift_left_at :
      (k j : ℕ)
      → k < rounds num
      → suc j < rounds num
      → shift_left max cs (cs k).id j ≡ (if ltb j k then cs j else cs (suc j))
  unfolding shift_left
  shift_left_at k j h q = ground (arith, find_client-eq k h, shift_loop_lem (max - k) k j cs)

  pub clients-shift_left :
      (k : ℕ)
      → k < rounds num
      → clients (shift_left max cs (cs k).id) (dec num) ≡ remove (cs k).id (clients cs num)
  clients-shift_left k h =
      let e : rounds num ≡ suc (rounds (dec num)) = omega (arith, rounds-dec num) in
      rw e (
        slice-shift_left max (rounds (dec num)) cs (cs k).id (omega (arith, find_client-eq k h))
          (omega arith))

  pub IsRoster-shift_left :
      (k : ℕ) → k < rounds num → IsRoster max next (shift_left max cs (cs k).id) (dec num)
  IsRoster-shift_left k h = record {
    nonneg = ground arith;
    room = ground arith;
    few = omega (arith, few, rounds-dec num);
    handed = λ j p. elim (Bool-cases (ltb j k)) [
      | inl front ↦
          let (i, q, r) = handed j (ground arith) in
          (i, ground (arith, shift_left_at k j h, rounds-dec num), r)
      | inr behind ↦
          let (i, q, r) = handed (suc j) (omega (arith, rounds-dec num)) in
          (i, ground (arith, shift_left_at k j h, rounds-dec num), r)
    ];
    distinct = λ i j p q r. ground (
      arith,
      rounds-dec num,
      shift_left_at k i h,
      shift_left_at k j h,
      distinct i j,
      distinct i (suc j),
      distinct (suc i) j,
      distinct (suc i) (suc j),
    );
  }
