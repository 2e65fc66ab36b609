-- ===== src/Common/Family.antt =====
-- Families indexed by the threads `0 … n - 1`: how many of the first `n` pass a test.
use Prim.Native.Nat.{ℕ, zero, suc, ◌+◌, ◌*◌, ◌≤◌, ◌<◌}
use mathlib.Core.Path.{◌≡◌, refl}
use mathlib.Core.Logic.{inl, inr}
use mathlib.Core.Bool.{Bool, true, false}
use native.Mathlib.Omega.{arith}
use sistemas_distribuidos_y.Common.Tests.{ltb, if◌then◌else◌, Bool-cases}
use sistemas_distribuidos_y.Common.Array.{update}

module _ {ℓ} {A : Type ℓ} (test : A → Bool) where
  unfoldable pub count : ℕ → (ℕ → A) → ℕ
  count zero f = 0
  count (suc n) f = if test (f n) then suc (count n f) else count n f

  pub count-le : (n : ℕ) (f : ℕ → A) → count n f ≤ n
  unfolding count
  count-le zero f = omega arith
  count-le (suc n) f = ground (arith, count-le n f)

  -- A family of the same tests.
  pub count_ext :
      (n : ℕ) (f g : ℕ → A) → ((i : ℕ) → i < n → test (f i) ≡ test (g i)) → count n f ≡ count n g
  unfolding count
  count_ext zero f g h = refl
  count_ext (suc n) f g h = ground (arith, h n, count_ext n f g (λ i p. h i (omega arith)))

  -- A change at one index, with the same tests elsewhere.
  pub count_change :
      (n i : ℕ) (f g : ℕ → A)
      → i < n
      → ((j : ℕ) → j < n → (i ≡ j → ⊥) → test (g j) ≡ test (f j))
      → count n g + (if test (f i) then 1 else 0) ≡ count n f + (if test (g i) then 1 else 0)
  unfolding count
  count_change zero i f g p h = absurd (omega arith)
  count_change (suc n) i f g p h = elim (Bool-cases (ltb i n)) [
    | inl below ↦ ground (
      arith,
      h n (omega arith) (λ e. ground arith),
      count_change n i f g (ground arith) (λ j q ne. h j (omega arith) ne),
    )
    | inr last ↦ ground (arith, count_ext n g f (λ j q. h j (omega arith) (λ e. ground arith)))
  ]

  -- Below the full number, there is one that fails the test.
  pub count-lt : (n : ℕ) (f : ℕ → A) → count n f < n → (i : ℕ) × (i < n) × (test (f i) ≡ false)
  unfolding count
  count-lt zero f h = absurd (omega arith)
  count-lt (suc n) f h = elim (Bool-cases (test (f n))) [
    | inl pass ↦ let (i, p, q) = count-lt n f (ground arith) in (i, omega arith, q)
    | inr fail ↦ (n, omega arith, fail)
  ]

  pub count-full : (n : ℕ) (f : ℕ → A) → n ≤ count n f → (i : ℕ) → i < n → test (f i) ≡ true
  unfolding count
  count-full zero f h i p = absurd (omega arith)
  count-full (suc n) f h i p =
      ground (arith, count-le n f, count-full n f (ground (arith, count-le n f)) i)

  pub count-pos : (n i : ℕ) (f : ℕ → A) → i < n → test (f i) ≡ true → 0 < count n f
  unfolding count
  count-pos zero i f p h = absurd (omega arith)
  count-pos (suc n) i f p h = ground (arith, count-pos n i f)

  pub count-none : (n : ℕ) (f : ℕ → A) → ((i : ℕ) → i < n → test (f i) ≡ false) → count n f ≡ 0
  unfolding count
  count-none zero f h = refl
  count-none (suc n) f h =
      ground (arith, h n (omega arith), count-none n f (λ i p. h i (omega arith)))

  pub count-every : (n : ℕ) (f : ℕ → A) → ((i : ℕ) → i < n → test (f i) ≡ true) → count n f ≡ n
  unfolding count
  count-every zero f h = refl
  count-every (suc n) f h =
      ground (arith, h n (omega arith), count-every n f (λ i p. h i (omega arith)))

  -- A write at one index.
  pub count-update :
      (n i : ℕ) (f : ℕ → A) (x : A)
      → i < n
      → count n (update f i x) + (if test (f i) then 1 else 0)
        ≡ count n f + (if test x then 1 else 0)
  count-update n i f x h =
      ground (arith, count_change n i f (update f i x) h (λ j p ne. ground arith))

  -- More than none: there is one that passes the test.
  pub count-some : (n : ℕ) (f : ℕ → A) → 0 < count n f → (i : ℕ) × (i < n) × (test (f i) ≡ true)
  unfolding count
  count-some zero f h = absurd (omega arith)
  count-some (suc n) f h = elim (Bool-cases (test (f n))) [
    | inl pass ↦ (n, omega arith, pass)
    | inr fail ↦ let (i, p, q) = count-some n f (ground arith) in (i, omega arith, q)
  ]

  -- At most one passes.
  pub count_unique :
      (n i j : ℕ) (f : ℕ → A)
      → count n f ≤ 1
      → i < n
      → j < n
      → test (f i) ≡ true
      → test (f j) ≡ true
      → i ≡ j
  unfolding count
  count_unique zero i j f h p q a b = absurd (omega arith)
  count_unique (suc n) i j f h p q a b =
      ground (arith, count-pos n i f, count-pos n j f, count_unique n i j f)

-- A weight summed over the first `n`.
module _ {ℓ} {A : Type ℓ} (weight : A → ℕ) where
  pub total : ℕ → (ℕ → A) → ℕ
  total zero f = 0
  total (suc n) f = total n f + weight (f n)

  pub total_ext :
      (n : ℕ) (f g : ℕ → A)
      → ((i : ℕ) → i < n → weight (f i) ≡ weight (g i))
      → total n f ≡ total n g
  unfolding total
  total_ext zero f g h = refl
  total_ext (suc n) f g h =
      omega (arith, h n (omega arith), total_ext n f g (λ i p. h i (omega arith)))

  pub total-update :
      (n i : ℕ) (f : ℕ → A) (x : A)
      → i < n
      → total n (update f i x) + weight (f i) ≡ total n f + weight x
  unfolding total
  total-update zero i f x h = absurd (omega arith)
  total-update (suc n) i f x h = elim (Bool-cases (ltb i n)) [
    | inl below ↦ ground (arith, total-update n i f x (ground arith))
    | inr last ↦ ground (arith, total_ext n (update f i x) f (λ j p. ground arith))
  ]

  pub total-const : (n k : ℕ) (f : ℕ → A) → ((i : ℕ) → i < n → weight (f i) ≡ k) → total n f ≡ k * n
  unfolding total
  total-const zero k f h = grind arith
  total-const (suc n) k f h =
      grind (arith, h n (omega arith), total-const n k f (λ i p. h i (omega arith)))

-- Two tests of two families that agree at each index.
pub count_agree {ℓ κ} :
    {A : Type ℓ} {B : Type κ} (p : A → Bool) (q : B → Bool) (n : ℕ) (f : ℕ → A) (g : ℕ → B)
    → ((i : ℕ) → i < n → p (f i) ≡ q (g i))
    → count p n f ≡ count q n g
unfolding count
count_agree p q zero f g h = refl
count_agree p q (suc n) f g h =
    ground (arith, h n (omega arith), count_agree p q n f g (λ i r. h i (omega arith)))
