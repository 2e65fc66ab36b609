-- ===== src/Broker/Clients/Removal.antt =====
-- What the two loops of `shift_client_list` do to an array of clients.
use sistemas_distribuidos_y.Common.{
  ℕ, zero, suc, ◌+◌, ◌-◌, ◌≤◌, ◌<◌, ℤ, eq_ℤ, eq_ℤ_iff, List, [], ◌∷◌, some, ◌≡◌, refl, ◌∙◌, ap₂,
  inl, inr, arith, ltb, Bool-cases, if◌then◌else◌, update, slice, slice_ext, slice-suc,
}
use sistemas_distribuidos_y.Broker.Types.{Client}
use sistemas_distribuidos_y.Broker.Clients.{find_client, shift_loop, shift_left, fd_to_del}

pub find_client_bounds :
    (n i : ℕ) (cs : ℕ → Client) (id : ℤ)
    → (i ≤ find_client n i cs id) × (find_client n i cs id ≤ i + n)
unfolding find_client
find_client_bounds zero i cs id = omega arith
find_client_bounds (suc n) i cs id = ground (arith, find_client_bounds n (suc i) cs id)

-- The search does not go past a client with that id.
pub find_client-le :
    (n i k : ℕ) (cs : ℕ → Client) (id : ℤ)
    → i ≤ k
    → k < i + n
    → (cs k).id ≡ id
    → find_client n i cs id ≤ k
unfolding find_client
find_client-le zero i k cs id p q e = absurd (omega arith)
find_client-le (suc n) i k cs id p q e = elim (Bool-cases (ltb i k)) [
  | inl later ↦ ground (arith, find_client-le n (suc i) k cs id)
  | inr here ↦ ground (arith, eq_ℤ_iff (cs i).id id)
]

-- What is found in front of the end has the id.
pub find_client-id :
    (n i : ℕ) (cs : ℕ → Client) (id : ℤ)
    → find_client n i cs id < i + n
    → (cs (find_client n i cs id)).id ≡ id
unfolding find_client
find_client-id zero i cs id h = absurd (omega arith)
find_client-id (suc n) i cs id h =
    ground (arith, eq_ℤ_iff (cs i).id id, find_client-id n (suc i) cs id)

-- Entry by entry: what stands behind the hole moves one place to the left.
pub shift_loop_lem :
    (n i k : ℕ) (cs : ℕ → Client)
    → shift_loop n i cs k ≡ (if ltb k i then cs k else if ltb k (i + n) then cs (suc k) else cs k)
unfolding shift_loop
shift_loop_lem zero i k cs = ground arith
shift_loop_lem (suc n) i k cs =
    ground (arith, shift_loop_lem n (suc i) k (update cs i (cs (suc i))))

-- The list without its first client of that id.
unfoldable pub remove : ℤ → List Client → List Client
remove id [] = []
remove id (c ∷ cs) = if eq_ℤ c.id id then cs else c ∷ remove id cs

-- Shifted from its first client of that id on, a range is the list without that client.
remove-slice :
    (n m i p : ℕ) (cs ds : ℕ → Client) (id : ℤ)
    → find_client n i cs id ≡ p
    → p < i + suc m
    → m < n
    → ((k : ℕ) → i ≤ k → k < i + m → ds k ≡ (if ltb k p then cs k else cs (suc k)))
    → slice ds i m ≡ remove id (slice cs i (suc m))
unfolding find_client remove
remove-slice zero m i p cs ds id f h r e = absurd (omega arith)
remove-slice (suc n) zero i p cs ds id f h r e = ground (arith, find_client_bounds n (suc i) cs id)
remove-slice (suc n) (suc m) i p cs ds id f h r e = elim (Bool-cases (eq_ℤ (cs i).id id)) [
  | inl found ↦ rw found (
      slice_ext ds (λ k. cs (suc k)) i (suc m) (λ k a b. ground (arith, e k a b))
      ∙ slice-suc cs i (suc m))
  | inr other ↦ rw other (
      ap₂ ◌∷◌ (ground (arith, e i, find_client_bounds n (suc i) cs id)) (
        remove-slice n m (suc i) p cs ds id (ground arith) (omega arith) (omega arith)
          (λ k a b. e k (omega arith) (omega arith))))
]

-- When a client of that id stands among the first `m + 1` places of an array that has more than `m`,
-- the first `m` places after `shift_left` are those clients without the first of that id, in order.
pub slice-shift_left :
    (max m : ℕ) (cs : ℕ → Client) (id : ℤ)
    → find_client max 0 cs id < suc m
    → m < max
    → slice (shift_left max cs id) 0 m ≡ remove id (slice cs 0 (suc m))
unfolding shift_left
slice-shift_left max m cs id h r =
    remove-slice max m 0 (find_client max 0 cs id) cs _ id refl (omega arith) r (λ k a b.
      ground (arith, shift_loop_lem (max - find_client max 0 cs id) (find_client max 0 cs id) k cs))

-- A client with an id that no other one of the range has is the one that is answered.
pub fd_to_del_lem :
    (max k : ℕ) (cs : ℕ → Client) (id : ℤ)
    → k < max
    → find_client max 0 cs id ≡ k
    → fd_to_del max cs id ≡ some (cs k).fd
unfolding fd_to_del
fd_to_del_lem max k cs id h e = ground arith
