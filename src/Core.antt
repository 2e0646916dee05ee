-- ===== src/Core.antt =====
-- crates/hybit-core/src/lib.rs: the error type, and below it f64 and the option record.
-- A value of type f64 is its IEEE 754 bit pattern, a number below 2^64.
pub mod Float
pub mod Options
pub mod Accepts
use hybit.Base.{ℕ, String}
use hybit.Base

-- An f64, by its bit pattern.
abbrev pub F64 : Type 0
F64 = ℕ

pub data HybitError : Type 0 where
  invalid_matrix : String → HybitError
  invalid_argument : String → HybitError
  dimension_mismatch : (expected actual : ℕ) → HybitError
  missing_diagonal : (row : ℕ) → HybitError
  zero_diagonal : (row : ℕ) → HybitError
  size_overflow : HybitError
  numerical_breakdown : String → HybitError
  not_converged : (iterations : ℕ) (residual : F64) → HybitError

abbrev pub Result {ℓ} : Type ℓ → Type ℓ
Result A = Base.Result HybitError A
