-- ===== src/Common/Int.antt =====
-- The C type `int` as an integer; what the code does with one is a test of its sign, a comparison,
-- and a step up or down. No value is wrapped: see the header of Lib.antt.
use Prim.Native.Nat.{ℕ, zero, suc, ◌+◌, ◌-◌, ◌*◌}
use mathlib.Core.Path.{◌≡◌, refl, ap}
use mathlib.Core.Logic.{◌↔◌, inl, inr}
use mathlib.Core.Bool.{Bool, true, false}
use native.Mathlib.Omega.{arith}
use sistemas_distribuidos_y.Common.Tests.{Bool-cases, ltb, if◌then◌else◌, ◌==◌}

-- `negsuc n` is -(n + 1).
pub data ℤ : Type 0 where
  pos : ℕ → ℤ
  negsuc : ℕ → ℤ

abbrev pub is_neg : ℤ → Bool
is_neg (pos n) = false
is_neg (negsuc n) = true

-- `x++` and `x--`.
abbrev pub inc : ℤ → ℤ
inc (pos n) = pos (suc n)
inc (negsuc zero) = pos 0
inc (negsuc (suc n)) = negsuc n

abbrev pub dec : ℤ → ℤ
dec (pos zero) = negsuc 0
dec (pos (suc n)) = pos n
dec (negsuc n) = negsuc (suc n)

-- The rounds of `for (i = 0; i < x; i++)`.
abbrev pub rounds : ℤ → ℕ
rounds (pos n) = n
rounds (negsuc n) = 0

abbrev pub eq_ℤ : ℤ → ℤ → Bool
eq_ℤ (pos m) (pos n) = m == n
eq_ℤ (pos m) (negsuc n) = false
eq_ℤ (negsuc m) (pos n) = false
eq_ℤ (negsuc m) (negsuc n) = m == n

pub eq_ℤ_iff : (a b : ℤ) → (eq_ℤ a b ≡ true) ↔ (a ≡ b)
eq_ℤ_iff (pos m) (pos n) = (λ h. ap pos (ground arith), λ h. ground arith)
eq_ℤ_iff (pos m) (negsuc n) = (λ h. cc, λ h. cc)
eq_ℤ_iff (negsuc m) (pos n) = (λ h. cc, λ h. cc)
eq_ℤ_iff (negsuc m) (negsuc n) = (λ h. ap negsuc (ground arith), λ h. ground arith)

pub eq_ℤ_refl : (a : ℤ) → eq_ℤ a a ≡ true
eq_ℤ_refl a = (eq_ℤ_iff a a).1 refl

pub eq_ℤ_sym : (a b : ℤ) → eq_ℤ a b ≡ false → eq_ℤ b a ≡ false
eq_ℤ_sym a b e = elim (Bool-cases (eq_ℤ b a)) [
  | inr q ↦ q
  | inl q ↦ cc (e, eq_ℤ_refl a, (eq_ℤ_iff b a).0 q)
]

pub dec-inc : (a : ℤ) → dec (inc a) ≡ a
dec-inc (pos n) = refl
dec-inc (negsuc zero) = refl
dec-inc (negsuc (suc n)) = refl

pub rounds-inc : (a : ℤ) → is_neg a ≡ false → rounds (inc a) ≡ suc (rounds a)
rounds-inc a h = ground arith

pub rounds-dec : (a : ℤ) → rounds (dec a) ≡ rounds a - 1
rounds-dec a = ground arith

pub pos-rounds : (a : ℤ) → is_neg a ≡ false → a ≡ pos (rounds a)
pos-rounds a h = ground arith

-- `a - b` on `long`, of two numbers that are not negative.
abbrev pub sub_ℕ : ℕ → ℕ → ℤ
sub_ℕ a b = if ltb a b then negsuc (b - a - 1) else pos (a - b)

abbrev pub pos_part : ℤ → ℕ
pos_part (pos n) = n
pos_part (negsuc n) = 0

abbrev pub neg_part : ℤ → ℕ
neg_part (pos n) = 0
neg_part (negsuc n) = suc n

infixl 65 ◌+ℤ◌
infixl 70 ◌*ℤ◌
abbrev pub ◌+ℤ◌ : ℤ → ℤ → ℤ
a +ℤ b = sub_ℕ (pos_part a + pos_part b) (neg_part a + neg_part b)

abbrev pub ◌*ℤ◌ : ℤ → ℤ → ℤ
a *ℤ b =
    sub_ℕ (pos_part a * pos_part b + neg_part a * neg_part b)
      (pos_part a * neg_part b + neg_part a * pos_part b)
