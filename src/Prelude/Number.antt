-- ===== src/Prelude/Number.antt =====
-- JavaScript numbers as the validations read them: an integer, or a value that
-- `Number.isFinite` refuses (NaN and the infinities). Fractions are not represented.
use Prim.Native.Nat.{ℕ, zero, suc}
use mathlib.Core.Option.{Option, none, some}

-- `negsuc n` is -(n + 1).
pub data ℤ : Type 0 where
  pos : ℕ → ℤ
  negsuc : ℕ → ℤ

pub data Number : Type 0 where
  finite : ℤ → Number
  non_finite : Number

-- The value of a number that is finite and above 0, the test of every duration.
abbrev pub positive? : Number → Option ℕ
positive? (finite (pos zero)) = none
positive? (finite (pos (suc n))) = some (suc n)
positive? (finite (negsuc _)) = none
positive? non_finite = none
