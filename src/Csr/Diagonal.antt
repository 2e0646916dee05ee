-- ===== src/Csr/Diagonal.antt =====
-- The diagonal of a matrix (csr32.rs).
use native.Mathlib.Nat.{zero-add}
use hybit.Base.{
  ℕ, zero, suc, ◌+◌, ◌<◌, ◌≡◌, ◌≢◌, refl, sym, ap, ◌∙◌, arith, Bool, true, false, List, [], ◌∷◌,
  length, get_or, replicate, range, filled-eq-map, ok, err, ◌>>◌, try_fold_inv, lt→ltb, map, eq→==,
  ne→==,
}
use hybit.Core.{F64, Result, missing_diagonal, invalid_matrix}
use hybit.Core.Float.{Arithmetic, zero_f64}
use hybit.Csr.{Csr32Matrix, diagonal, diagonal_row, check_found}
use hybit.Csr.Valid.{IsValid}
use hybit.Csr.DiagonalRows.{has_diagonal, diagonal_sum, Filled, Filled-zero, Filled-suc}

-- What `check_found` says of flags that start at a row.
data Scan (row : ℕ) (flags : List Bool) : Type 0 where
  all_set :
      check_found row flags ≡ ok tt
      → ((i : ℕ) → i < length flags → get_or flags i false ≡ true)
      → Scan row flags
  first_unset :
      (k : ℕ)
      → check_found row flags ≡ err (missing_diagonal (row + k))
      → k < length flags
      → get_or flags k false ≡ false
      → ((i : ℕ) → i < k → get_or flags i false ≡ true)
      → Scan row flags

scan_flags : (flags : List Bool) (row : ℕ) → Scan row flags
scan_flags [] row = all_set refl (λ i h. absurd (omega arith))
scan_flags (false ∷ rest) row =
    let e : row ≡ row + 0 = omega arith in
    first_unset 0 (ap (λ (n : ℕ). err (missing_diagonal n)) e) (omega arith) refl
      (λ i h. absurd (omega arith))
scan_flags (true ∷ rest) row = longer (scan_flags rest (suc row))
  where
    set_at :
        (k : ℕ)
        → ((i : ℕ) → i < k → get_or rest i false ≡ true)
        → (i : ℕ) → i < suc k
        → get_or (true ∷ rest) i false ≡ true
    set_at k h zero lt = refl
    set_at k h (suc i) lt = h i (omega arith)

    longer : Scan (suc row) rest → Scan row (true ∷ rest)
    longer (all_set e h) = all_set e (set_at (length rest) h)
    longer (first_unset k e lt unset before) =
        let shift : suc row + k ≡ row + suc k = omega arith in
        first_unset (suc k) (rw shift at e) (omega arith) unset (set_at k before)

-- `diagonal` returns the sums of the diagonal entries when each row has one, and otherwise names
-- the first row that has none.
pub data IsDiagonalOf (fp : Arithmetic) (m : Csr32Matrix) (r : Result (List F64)) : Type 0 where
  complete :
      r ≡ ok (map (diagonal_sum fp m) (range 0 m.nrows))
      → ((i : ℕ) → i < m.nrows → has_diagonal m i ≡ true)
      → IsDiagonalOf fp m r
  lacking :
      (row : ℕ)
      → r ≡ err (missing_diagonal row)
      → row < m.nrows
      → has_diagonal m row ≡ false
      → ((i : ℕ) → i < row → has_diagonal m i ≡ true)
      → IsDiagonalOf fp m r

-- On a validated square matrix `diagonal` does not panic: it returns, for each row, the sum of
-- the entries stored in its column, or an error with the first row that stores none.
pub diagonal-IsDiagonalOf :
    (fp : Arithmetic) (m : Csr32Matrix)
    → IsValid m
    → m.nrows ≡ m.ncols
    → IsDiagonalOf fp m (diagonal fp m)
unfolding diagonal
diagonal-IsDiagonalOf fp m v square =
    let (s, returns, f) =
      try_fold_inv (Filled fp m v) (diagonal_row fp m) 0 m.nrows
        (replicate m.nrows zero_f64, replicate m.nrows false) (Filled-zero fp m v)
        (λ s row le lt. Filled-suc fp m v s row (omega arith)) in
    rw (eq→== _ _ square, returns) (outcome s (rw zero-add at f) (scan_flags s.1 0))
  where
    flag :
        (s : List F64 × List Bool)
        → Filled fp m v m.nrows s
        → (i : ℕ) → i < m.nrows
        → get_or s.1 i false ≡ has_diagonal m i
    flag s f i lt = f.flags_at i ∙ rw (lt→ltb i m.nrows lt) refl

    outcome :
        (s : List F64 × List Bool)
        → Filled fp m v m.nrows s
        → Scan 0 s.1
        → IsDiagonalOf fp m (check_found 0 s.1 >> ok s.0)
    outcome s f (all_set e h) =
        complete
          (rw e (ap ok (filled-eq-map (diagonal_sum fp m) s.0 m.nrows 0 f.sums_size f.sums_at)))
          (λ i lt. sym (flag s f i lt) ∙ h i (rw f.flags_size lt))
    outcome s f (first_unset k e lt unset before) =
        let inside : k < m.nrows = rw f.flags_size at lt in
        lacking (0 + k) (rw e refl) (omega arith) (rw zero-add (sym (flag s f k inside) ∙ unset))
          (λ i le. sym (flag s f i (omega arith)) ∙ before i (omega arith))

-- A matrix that is not square has no diagonal.
pub diagonal_not_square :
    (fp : Arithmetic) (m : Csr32Matrix)
    → m.nrows ≢ m.ncols
    → diagonal fp m ≡ err (invalid_matrix "diagonal requires a square matrix")
unfolding diagonal
diagonal_not_square fp m h = rw (ne→== _ _ h) refl
