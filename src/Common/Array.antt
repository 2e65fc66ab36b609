-- ===== src/Common/Array.antt =====
-- A C array as a function from positions. A position past the end stands for the memory behind the
-- array: code that reads there gets the function's value, whatever it is.
use Prim.Native.Nat.{ℕ, zero, suc, ◌+◌, ◌≤◌, ◌<◌}
use mathlib.Core.Path.{◌≡◌, refl, ap₂}
use mathlib.Core.Logic.{◌⊎◌, inl, inr}
use mathlib.Core.List.{List, [], ◌∷◌, ◌++◌, map}
use native.Mathlib.Omega.{arith}
use sistemas_distribuidos_y.Common.Tests.{◌==◌, if◌then◌else◌}
use sistemas_distribuidos_y.Common.Lists.{length, set}

module _ {ℓ} {A : Type ℓ} where
  abbrev pub update : (ℕ → A) → ℕ → A → ℕ → A
  update a i v j = if i == j then v else a j

  -- The `n` entries from position `i` on.
  abbrev pub slice : (ℕ → A) → ℕ → ℕ → List A
  slice a i zero = []
  slice a i (suc n) = a i ∷ slice a (suc i) n

module _ {ℓ} {A : Type ℓ} where
  pub length-slice : (a : ℕ → A) (i n : ℕ) → length (slice a i n) ≡ n
  length-slice a i zero = refl
  length-slice a i (suc n) = omega (arith, length-slice a (suc i) n)

  -- Two arrays that agree on a range have the same entries there.
  pub slice_ext :
      (a b : ℕ → A) (i n : ℕ)
      → ((k : ℕ) → i ≤ k → k < i + n → a k ≡ b k)
      → slice a i n ≡ slice b i n
  slice_ext a b i zero h = refl
  slice_ext a b i (suc n) h =
      ap₂ ◌∷◌ (h i (omega arith) (omega arith))
        (slice_ext a b (suc i) n (λ k p q. h k (omega arith) (omega arith)))

  pub slice-update_out :
      (a : ℕ → A) (v : A) (i n k : ℕ) → i + n ≤ k → slice (update a k v) i n ≡ slice a i n
  slice-update_out a v i n k h = slice_ext _ _ i n (λ j p q. ground arith)

  -- A write at the end of the range makes it longer by one.
  pub slice-update_end :
      (a : ℕ → A) (v : A) (i n k : ℕ)
      → i + n ≡ k
      → slice (update a k v) i (suc n) ≡ slice a i n ++ v ∷ []
  slice-update_end a v i zero k h = ground arith
  slice-update_end a v i (suc n) k h =
      ap₂ ◌∷◌ (ground arith) (slice-update_end a v (suc i) n k (omega arith))

  pub slice-update :
      (a : ℕ → A) (v : A) (i n k j : ℕ)
      → i + j ≡ k
      → slice (update a k v) i n ≡ set (slice a i n) j v
  slice-update a v i zero k j h = refl
  slice-update a v i (suc n) k zero h =
      ap₂ ◌∷◌ (ground arith) (slice_ext _ _ (suc i) n (λ l p q. ground arith))
  slice-update a v i (suc n) k (suc j) h =
      ap₂ ◌∷◌ (ground arith) (slice-update a v (suc i) n k j (omega arith))

  pub map-slice {κ} :
      {B : Type κ} (f : A → B) (a : ℕ → A) (i n : ℕ)
      → map f (slice a i n) ≡ slice (λ k. f (a k)) i n
  map-slice f a i zero = refl
  map-slice f a i (suc n) = ap₂ ◌∷◌ refl (map-slice f a (suc i) n)

  pub slice-suc : (a : ℕ → A) (i n : ℕ) → slice (λ k. a (suc k)) i n ≡ slice a (suc i) n
  slice-suc a i zero = refl
  slice-suc a i (suc n) = ap₂ ◌∷◌ refl (slice-suc a (suc i) n)

  -- An array that agrees with another one on a range and has `v` behind it.
  pub slice_snoc :
      (a b : ℕ → A) (v : A) (i n k : ℕ)
      → i + n ≡ k
      → ((j : ℕ) → i ≤ j → j < k → b j ≡ a j)
      → b k ≡ v
      → slice b i (suc n) ≡ slice a i n ++ v ∷ []
  slice_snoc a b v i zero k e h q = ground arith
  slice_snoc a b v i (suc n) k e h q =
      ap₂ ◌∷◌ (h i (omega arith) (omega arith))
        (slice_snoc a b v (suc i) n k (omega arith) (λ j p r. h j (omega arith) r) q)

-- `c` is one of the list.
abbrev pub IsIn : {A : Type 0} → A → List A → Type 0
IsIn c [] = ⊥
IsIn c (x ∷ xs) = (x ≡ c) ⊎ IsIn c xs

-- What is in a range of an array stands at a position of that range.
pub IsIn-slice :
    {A : Type 0} (c : A) (a : ℕ → A) (i n : ℕ)
    → IsIn c (slice a i n)
    → (k : ℕ) × (i ≤ k) × (k < i + n) × (a k ≡ c)
IsIn-slice c a i zero m = absurd m
IsIn-slice c a i (suc n) (inl e) = (i, omega arith, omega arith, e)
IsIn-slice c a i (suc n) (inr m) =
    let (k, p, q, e) = IsIn-slice c a (suc i) n m in (k, omega arith, omega arith, e)
