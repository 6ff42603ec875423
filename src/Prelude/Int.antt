-- ===== src/Prelude/Int.antt =====
-- Signed integers, for the `i16` and `i64` values that the code only stores and compares.
use Prim.Native.Nat.{ℕ}
use mathlib.Core.Bool.{Bool, false}
use fau_portalen.Prelude.Tests.{◌==◌}

-- `negsuc n` is -(n + 1).
pub data ℤ : Type 0 where
  pos : ℕ → ℤ
  negsuc : ℕ → ℤ

-- Whether an integer is the given natural number.
abbrev pub is_nat : ℕ → ℤ → Bool
is_nat n (pos m) = m == n
is_nat n (negsuc m) = false
