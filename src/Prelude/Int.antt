-- ===== src/Prelude/Int.antt =====
-- Signed integers, and Go's conversions between intN and uintN (two's complement).
use Prim.Native.Nat.{ℕ, ◌-◌, ◌*◌, ◌%◌, ◌<◌}
use mathlib.Core.Path.{◌≡◌}
use mathlib.Core.Logic.{inl, inr}
use native.Mathlib.Omega.{arith}
use native.Mathlib.Nat.{mod-eq_of_lt}
use slfhst.Prelude.Tests.{ltb, if◌then◌else◌, Bool-cases}

-- `negsuc n` is -(n + 1).
pub data ℤ : Type 0 where
  pos : ℕ → ℤ
  negsuc : ℕ → ℤ

-- uintN(v), with `half` = 2 ^ (N - 1).
pub to_unsigned : ℕ → ℤ → ℕ
to_unsigned half (pos n) = n % (2 * half)
to_unsigned half (negsuc n) = 2 * half - 1 - n % (2 * half)

-- intN(v)
pub of_unsigned : ℕ → ℕ → ℤ
of_unsigned half n = if ltb n half then pos n else negsuc (2 * half - 1 - n)

-- The values of intN.
abbrev pub IsSigned : ℕ → ℤ → Type 0
IsSigned half (pos n) = n < half
IsSigned half (negsuc n) = n < half

pub to_unsigned-lt : (half : ℕ) (z : ℤ) → IsSigned half z → to_unsigned half z < 2 * half
unfolding to_unsigned
to_unsigned-lt half (pos n) h = grind arith
to_unsigned-lt half (negsuc n) h = grind arith

pub of_unsigned-to_unsigned :
    (half : ℕ) (z : ℤ) → IsSigned half z → of_unsigned half (to_unsigned half z) ≡ z
unfolding to_unsigned of_unsigned
of_unsigned-to_unsigned half (pos n) h =
    rw (mod-eq_of_lt {n = n} {m = 2 * half} (omega arith)) (ground arith)
of_unsigned-to_unsigned half (negsuc n) h =
    rw (mod-eq_of_lt {n = n} {m = 2 * half} (omega arith)) (ground arith)

pub to_unsigned-of_unsigned :
    (half n : ℕ) → n < 2 * half → to_unsigned half (of_unsigned half n) ≡ n
unfolding to_unsigned of_unsigned
to_unsigned-of_unsigned half n h = elim (Bool-cases (ltb n half)) [
  | inl small ↦ rw small (mod-eq_of_lt (omega arith))
  | inr large ↦
      rw (large, mod-eq_of_lt {n = 2 * half - 1 - n} {m = 2 * half} (omega arith)) (omega arith)
]
