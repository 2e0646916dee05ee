-- ===== src/Core/Accepts.antt =====
-- `SolverOptions::validate` (crates/hybit-core/src/lib.rs) against the tolerances by value.
use hybit.Base.{
  ℕ, ◌<◌, ◌≡◌, ◌⊎◌, ◌↔◌, refl, arith, Bool, false, not, ◌&&◌, ◌||◌, ◌==◌, ok, fail_if, >>=-eq-ok,
  fail_if-eq-ok, two_64, inl, inr, Bool-cases,
}
use hybit.Core.{F64}
use hybit.Core.Float.{is_finite, is_zero, lt_zero, infinity_bits}
use hybit.Core.Options.{SolverOptions, validate_options}

-- Patterns below that of infinity are the nonnegative numbers in their order; the other one is -0.0.
abbrev pub IsTolerance : F64 → Type 0
IsTolerance x = (x < infinity_bits) ⊎ (x ≡ 0x8000000000000000)

abbrev pub IsPositive : F64 → Type 0
IsPositive x = (0 < x) × (x < infinity_bits)

abbrev refuses : F64 → Bool
refuses x = not (is_finite x) || lt_zero x

and_false : (a b : Bool) → (a && b) ≡ false → (a ≡ false) ⊎ (b ≡ false)
and_false a b h = elim (Bool-cases a) [ inl t ↦ inr (ground (arith, t)) | inr f ↦ inl f ]

and_left : (a b : Bool) → a ≡ false → (a && b) ≡ false
and_left a b h = ground arith

and_right : (a b : Bool) → b ≡ false → (a && b) ≡ false
and_right a b h = ground arith

nonzero : (m : ℕ) → (m == 0) ≡ false → 0 < m
nonzero m h = ground arith

nonzero_passes : (m : ℕ) → 0 < m → (m == 0) ≡ false
nonzero_passes m h = ground arith

module _ (x : F64) (fits : x < two_64) where
  tolerance : (not (is_finite x) || lt_zero x) ≡ false → IsTolerance x
  tolerance h = ground arith

  tolerance_passes : IsTolerance x → (not (is_finite x) || lt_zero x) ≡ false
  tolerance_passes t = ground (arith, t)

  positive : IsTolerance x → is_zero x ≡ false → IsPositive x
  positive t h = ground (arith, t)

  positive_passes : IsPositive x → is_zero x ≡ false
  positive_passes (a, b) = ground arith

pub record IsAccepted (o : SolverOptions) : Type 0 where
  pub relative_ok : IsTolerance o.relative_tolerance
  pub absolute_ok : IsTolerance o.absolute_tolerance
  pub some_positive : IsPositive o.relative_tolerance ⊎ IsPositive o.absolute_tolerance
  pub some_iteration : 0 < o.max_iterations

module _ (o : SolverOptions) (relative_fits : o.relative_tolerance < two_64)
    (absolute_fits : o.absolute_tolerance < two_64) where
  accepts-IsAccepted : validate_options o ≡ ok tt → IsAccepted o
  unfolding validate_options
  accepts-IsAccepted h =
      let (_, p1, h1) = >>=-eq-ok (fail_if (refuses o.relative_tolerance) _) _ h in
      let (_, p2, h2) = >>=-eq-ok (fail_if (refuses o.absolute_tolerance) _) _ h1 in
      let (_, p3, h3) =
        >>=-eq-ok (fail_if (is_zero o.relative_tolerance && is_zero o.absolute_tolerance) _) _ h2 in
      let (_, p4, _) = >>=-eq-ok (fail_if (o.max_iterations == 0) _) _ h3 in
      let r = tolerance o.relative_tolerance relative_fits (fail_if-eq-ok _ _ p1) in
      let a = tolerance o.absolute_tolerance absolute_fits (fail_if-eq-ok _ _ p2) in
      record {
        relative_ok = r;
        absolute_ok = a;
        some_positive = elim (and_false _ _ (fail_if-eq-ok _ _ p3)) [
          | inl z ↦ inl (positive _ relative_fits r z)
          | inr z ↦ inr (positive _ absolute_fits a z)
        ];
        some_iteration = nonzero _ (fail_if-eq-ok _ _ p4);
      }

  IsAccepted-accepts : IsAccepted o → validate_options o ≡ ok tt
  unfolding validate_options
  IsAccepted-accepts v =
      rw
        (
          tolerance_passes o.relative_tolerance relative_fits v.relative_ok,
          tolerance_passes o.absolute_tolerance absolute_fits v.absolute_ok,
          either_passes v.some_positive,
          nonzero_passes o.max_iterations v.some_iteration,
        )
        refl
    where
      either_passes :
          IsPositive o.relative_tolerance ⊎ IsPositive o.absolute_tolerance
          → (is_zero o.relative_tolerance && is_zero o.absolute_tolerance) ≡ false
      either_passes (inl p) = and_left _ _ (positive_passes _ relative_fits p)
      either_passes (inr p) = and_right _ _ (positive_passes _ absolute_fits p)

  -- `validate` of `SolverOptions` accepts exactly the options whose tolerances, read as 64-bit
  -- patterns, are finite and not below zero, -0.0 included, with one of them above zero, and which
  -- allow an iteration.
  pub validate_options-IsAccepted : (validate_options o ≡ ok tt) ↔ IsAccepted o
  validate_options-IsAccepted = (accepts-IsAccepted, IsAccepted-accepts)
