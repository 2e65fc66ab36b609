-- ===== src/Common/Process.antt =====
-- A thread of a process as a state monad. Each call to the system is put on a trace, newest first,
-- and answered by `Os`, a parameter: the answer may depend on all calls made before.
use Prim.Native.Nat.{ℕ}
use mathlib.Core.Path.{◌≡◌, refl}
use mathlib.Core.Bool.{Bool}
use mathlib.Core.List.{List, ◌∷◌}
use sistemas_distribuidos_y.Common.Tests.{if◌then◌else◌}
use sistemas_distribuidos_y.Common.Int.{ℤ, is_neg}

-- What a call returns: its `int`, and the bytes that a `recv` filled in, read as a message.
pub record Reply (M : Type 0) : Type 0 where
  pub ret : ℤ
  pub msg : M

abbrev pub Os : Type 0 → Type 0 → Type 0
Os C M = List C → C → Reply M

pub record World (S C : Type 0) : Type 0 where
  pub st : S
  pub trace : List C

-- `exited` is `exit(code)`, `ended` is `pthread_exit(NULL)`, and `fault` is a read of a value that
-- was never set or a write outside of an array.
pub data Outcome (W A : Type 0) : Type 0 where
  ok : A → W → Outcome W A
  exited : ℕ → W → Outcome W A
  ended : W → Outcome W A
  fault : Outcome W A

abbrev pub Thread : Type 0 → Type 0 → Type 0 → Type 0
Thread S C A = World S C → Outcome (World S C) A

infixl 5 ◌>>=◌ ◌>>◌
abbrev pub ◌>>=◌ : {S C A B : Type 0} → Thread S C A → (A → Thread S C B) → Thread S C B
◌>>=◌ m f w = elim (m w) [
  | ok a v ↦ f a v
  | exited n v ↦ exited n v
  | ended v ↦ ended v
  | fault ↦ fault
]

abbrev pub ◌>>◌ : {S C B : Type 0} → Thread S C (Unit {0}) → Thread S C B → Thread S C B
m >> k = m >>= λ _. k

abbrev pub pure : {S C A : Type 0} → A → Thread S C A
pure a w = ok a w

abbrev pub exit : {S C A : Type 0} → ℕ → Thread S C A
exit n w = exited n w

abbrev pub pthread_exit : {S C A : Type 0} → Thread S C A
pthread_exit w = ended w

abbrev pub undefined : {S C A : Type 0} → Thread S C A
undefined w = fault

abbrev pub get : {S C : Type 0} → Thread S C S
get w = ok w.st w

abbrev pub put : {S C : Type 0} → S → Thread S C (Unit {0})
put s w = ok tt (record w { st = s })

abbrev pub when : {S C : Type 0} → Bool → Thread S C (Unit {0}) → Thread S C (Unit {0})
when b m = if b then m else pure tt

abbrev pub call : {S C M : Type 0} → Os C M → C → Thread S C (Reply M)
call os c w = ok (os w.trace c) (record w { trace = c ∷ w.trace })

-- A call whose result the code ignores.
abbrev pub call_ : {S C M : Type 0} → Os C M → C → Thread S C (Unit {0})
call_ os c w = ok tt (record w { trace = c ∷ w.trace })

-- `if (call(…) < 0) exit(1);`
abbrev pub call_or_exit : {S C M : Type 0} → Os C M → C → Thread S C (Reply M)
call_or_exit os c = do r ← call os c; if is_neg r.ret then exit 1 else pure r

abbrev pub modify : {S C : Type 0} → (S → S) → Thread S C (Unit {0})
modify f w = ok tt (record w { st = f w.st })

-- The same where the code needs no more than that the call went well.
abbrev pub must : {S C M : Type 0} → Os C M → C → Thread S C (Unit {0})
must os c = do r ← call os c; if is_neg r.ret then exit 1 else pure tt

-- What follows an action that went well.
pub >>=-ok :
    {S C A B : Type 0} (m : Thread S C A) (k : A → Thread S C B) (w v : World S C) (a : A)
    → m w ≡ ok a v
    → (m >>= k) w ≡ k a v
>>=-ok m k w v a e = rw (e, ◌>>=◌) refl
