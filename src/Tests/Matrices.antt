-- ===== src/Tests/Matrices.antt =====
-- The tridiagonal matrix of the unit tests of csr32.rs, and the theorems on matrices at it.
use hybit.Base.{
  ℕ, zero, suc, ◌+◌, ◌*◌, ◌<◌, ◌≡◌, ◌↔◌, refl, arith, true, List, [], ◌∷◌, map, range, ok, has,
}
use hybit.Core.{F64}
use hybit.Core.Float.{Arithmetic}
use hybit.Csr.{Csr32Matrix, validate, apply, apply_parallel, apply_parallel_with_tasks, diagonal}
use hybit.Csr.Valid.{IsValid, validate_iff}
use hybit.Csr.Apply.{row_dot, apply-eq-ok}
use hybit.Csr.Parallel.{
  Covers, Interleaves, occurs, apply_parallel-eq-apply, apply_parallel_with_tasks-eq-apply,
}
use hybit.Csr.Diagonal.{IsDiagonalOf, diagonal-IsDiagonalOf}

-- An arithmetic on bit patterns that stands for the processor's in the runs below: no law is asked
-- of it.
abbrev pub patterns : Arithmetic
patterns = record {
  add = λ a b. a + b;
  sub = λ a b. a;
  mul = λ a b. a + b;
  div = λ a b. a;
  sqrt = λ a. a;
  of_usize = λ n. n;
}

-- 2.0 and -1.0.
abbrev two : F64
two = 0x4000000000000000

abbrev minus_one : F64
minus_one = 0xbff0000000000000

abbrev tridiagonal : Csr32Matrix
tridiagonal = record {
  nrows = 3;
  ncols = 3;
  row_ptr = 0 ∷ 2 ∷ 5 ∷ 7 ∷ [];
  col_idx = 0 ∷ 1 ∷ 0 ∷ 1 ∷ 2 ∷ 1 ∷ 2 ∷ [];
  values = two ∷ minus_one ∷ minus_one ∷ two ∷ minus_one ∷ minus_one ∷ two ∷ [];
}

tridiagonal_validates : validate tridiagonal ≡ ok tt
unfolding validate
tridiagonal_validates = refl

validate_iff_example : (validate tridiagonal ≡ ok tt) ↔ IsValid tridiagonal
validate_iff_example = validate_iff tridiagonal (omega arith) (omega arith)

tridiagonal-IsValid : IsValid tridiagonal
tridiagonal-IsValid = validate_iff_example.0 tridiagonal_validates

abbrev vector : List F64
vector = 1 ∷ 2 ∷ 3 ∷ []

abbrev blank : List F64
blank = 0 ∷ 0 ∷ 0 ∷ []

apply-eq-ok_example :
    apply patterns tridiagonal vector blank
    ≡ ok (map (row_dot patterns tridiagonal vector) (range 0 3))
apply-eq-ok_example = apply-eq-ok patterns tridiagonal vector blank tridiagonal-IsValid refl refl

backwards : Covers 3 (2 ∷ 0 ∷ 1 ∷ [])
backwards = record { inside = omega arith; complete = rows }
  where
    rows : (row : ℕ) → row < 3 → has (2 ∷ 0 ∷ 1 ∷ []) row ≡ true
    rows zero h = refl
    rows (suc zero) h = refl
    rows (suc (suc zero)) h = refl
    rows (suc (suc (suc row))) h = absurd (omega arith)

apply_parallel-eq-apply_example :
    apply_parallel patterns tridiagonal vector blank (2 ∷ 0 ∷ 1 ∷ [])
    ≡ apply patterns tridiagonal vector blank
apply_parallel-eq-apply_example =
    apply_parallel-eq-apply patterns tridiagonal vector blank (2 ∷ 0 ∷ 1 ∷ []) tridiagonal-IsValid
      refl refl backwards

-- Two tasks over three rows: chunks of two rows, here interleaved.
abbrev interleaving : List (ℕ × ℕ)
interleaving = (1, 0) ∷ (0, 0) ∷ (0, 1) ∷ []

interleaving-Interleaves : Interleaves 3 2 interleaving
interleaving-Interleaves = record { places = omega arith; each = each }
  where
    each : (c o : ℕ) → o < 2 → c * 2 + o < 3 → occurs c o interleaving ≡ true
    each zero zero h k = refl
    each zero (suc zero) h k = refl
    each (suc zero) zero h k = refl
    each c (suc (suc o)) h k = absurd (omega arith)
    each (suc c) (suc zero) h k = absurd (omega arith)
    each (suc (suc c)) zero h k = absurd (omega arith)

apply_parallel_with_tasks-eq-apply_example :
    apply_parallel_with_tasks patterns tridiagonal vector blank 2 interleaving
    ≡ apply patterns tridiagonal vector blank
apply_parallel_with_tasks-eq-apply_example =
    apply_parallel_with_tasks-eq-apply patterns tridiagonal vector blank 2 interleaving
      tridiagonal-IsValid refl refl interleaving-Interleaves

diagonal-IsDiagonalOf_example : IsDiagonalOf patterns tridiagonal (diagonal patterns tridiagonal)
diagonal-IsDiagonalOf_example = diagonal-IsDiagonalOf patterns tridiagonal tridiagonal-IsValid refl
