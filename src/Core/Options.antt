-- ===== src/Core/Options.antt =====
-- `SolverOptions`, its default and its validation (crates/hybit-core/src/lib.rs).
use hybit.Base.{ℕ, not, ◌&&◌, ◌||◌, ◌==◌, ok, fail_if, ◌>>◌}
use hybit.Core.{F64, invalid_argument, Result}
use hybit.Core.Float.{is_finite, lt_zero, is_zero}

pub record SolverOptions : Type 0 where
  pub relative_tolerance : F64
  pub absolute_tolerance : F64
  pub max_iterations : ℕ

-- 1.0e-8, 0.0 and 1000.
abbrev pub default_options : SolverOptions
default_options = record {
  relative_tolerance = 0x3e45798ee2308c3a;
  absolute_tolerance = 0;
  max_iterations = 1000;
}

unfoldable pub validate_options : SolverOptions → Result (Unit {0})
validate_options o = do
  fail_if (not (is_finite o.relative_tolerance) || lt_zero o.relative_tolerance)
      (invalid_argument "relative_tolerance must be finite and >= 0")
  fail_if (not (is_finite o.absolute_tolerance) || lt_zero o.absolute_tolerance)
      (invalid_argument "absolute_tolerance must be finite and >= 0")
  fail_if (is_zero o.relative_tolerance && is_zero o.absolute_tolerance)
      (invalid_argument "at least one tolerance must be > 0")
  fail_if (o.max_iterations == 0) (invalid_argument "max_iterations must be > 0")
  ok tt
