-- ===== src/Common/Text.antt =====
-- Strings in arrays of bytes.
use Prim.Native.Nat.{ℕ}
use Prim.Native.String.{String, len}
use mathlib.Core.Bool.{Bool}
use sistemas_distribuidos_y.Common.Tests.{ltb, if◌then◌else◌}
use sistemas_distribuidos_y.Common.Process.{Thread, undefined, pure}

-- Whether a string and the 0 at its end have a place in an array of `n` bytes.
abbrev pub fits : ℕ → String → Bool
fits n s = ltb (len s) n

-- `strcpy` to an array of `n` bytes, but for the copy itself.
unfoldable pub strcpy : {S C : Type 0} → ℕ → String → Thread S C (Unit {0})
strcpy n s = if fits n s then pure tt else undefined
