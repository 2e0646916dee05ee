-- ===== src/Core/Float.antt =====
-- The tests on f64 that the code makes, on bit patterns; the rounded operations are parameters.
use hybit.Base.{ℕ, ◌%◌, Bool, not, ◌&&◌, ◌==◌, leb, ltb}
use hybit.Core.{F64}

-- 0.0 and 1.0.
abbrev pub zero_f64 : F64
zero_f64 = 0

abbrev pub one_f64 : F64
one_f64 = 0x3ff0000000000000

abbrev pub is_negative : F64 → Bool
is_negative x = leb 0x8000000000000000 x

-- The pattern without its sign bit; patterns above that of infinity are NaNs.
abbrev pub magnitude : F64 → ℕ
magnitude x = x % 0x8000000000000000

abbrev pub infinity_bits : ℕ
infinity_bits = 0x7ff0000000000000

-- `x.is_finite()`
abbrev pub is_finite : F64 → Bool
is_finite x = ltb (magnitude x) infinity_bits

abbrev pub is_nan : F64 → Bool
is_nan x = ltb infinity_bits (magnitude x)

-- `x == 0.0`: both zeros.
abbrev pub is_zero : F64 → Bool
is_zero x = magnitude x == 0

-- `x < 0.0`
abbrev pub lt_zero : F64 → Bool
lt_zero x = is_negative x && not (is_nan x) && not (is_zero x)

-- `x > 0.0`
abbrev pub gt_zero : F64 → Bool
gt_zero x = not (is_negative x) && not (is_nan x) && not (is_zero x)

-- The rounded operations of the processor, and `as f64`. No law is assumed of them.
pub record Arithmetic : Type 0 where
  pub add : F64 → F64 → F64
  pub sub : F64 → F64 → F64
  pub mul : F64 → F64 → F64
  pub div : F64 → F64 → F64
  pub sqrt : F64 → F64
  pub of_usize : ℕ → F64
