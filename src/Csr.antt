-- ===== src/Csr.antt =====
-- crates/hybit-matrix/src/csr32.rs: the validated compressed-row matrix and its product with a
-- vector, serial and on the Rayon pool.
pub mod Valid
pub mod Apply
pub mod Parallel
pub mod DiagonalRows
pub mod Diagonal
use hybit.Base.{
  ℕ, zero, suc, ◌+◌, ◌-◌, ◌*◌, ◌/◌, ◌%◌, Bool, true, false, not, ◌&&◌, ◌||◌, ◌==◌, ltb, leb,
  if◌then◌else◌, List, [], ◌∷◌, length, replicate, first?, last?, any, range, ok, err, at, put,
  fail_if, ◌>>=◌, ◌>>◌, try_fold, try_map, unwrap_or, two_64, two_32,
}
use hybit.Core.{
  F64, HybitError, invalid_matrix, invalid_argument, dimension_mismatch, missing_diagonal,
  size_overflow, Result,
}
use hybit.Core.Float.{is_finite, zero_f64, Arithmetic}

pub record Csr32Matrix : Type 0 where
  pub nrows : ℕ
  pub ncols : ℕ
  pub row_ptr : List ℕ
  pub col_idx : List ℕ
  pub values : List F64

-- Some pair of neighbours of `windows(2)` falls.
unfoldable pub has_descent : List ℕ → Bool
has_descent [] = false
has_descent (a ∷ []) = false
has_descent (a ∷ b ∷ rest) = ltb b a || has_descent (b ∷ rest)

-- `Csr32Matrix::validate`; `nrows + 1` wraps at the width of usize.
unfoldable pub validate : Csr32Matrix → Result (Unit {0})
unfolding has_descent
validate m = do
  fail_if (not (length m.row_ptr == (m.nrows + 1) % two_64))
      (invalid_matrix "row_ptr length must equal nrows + 1")
  fail_if (not (length m.col_idx == length m.values))
      (invalid_matrix "col_idx and values lengths differ")
  fail_if (not (unwrap_or (first? m.row_ptr) 1 == 0)) (invalid_matrix "row_ptr[0] must be zero")
  fail_if (ltb (two_32 - 1) (length m.values)) size_overflow
  fail_if (not (unwrap_or (last? m.row_ptr) 0 == length m.values))
      (invalid_matrix "row_ptr[nrows] must equal nnz")
  fail_if (has_descent m.row_ptr) (invalid_matrix "row_ptr must be monotonically nondecreasing")
  fail_if (any (λ c. leb m.ncols c) m.col_idx) (invalid_matrix "column index out of range")
  fail_if (any (λ v. not (is_finite v)) m.values) (invalid_matrix "matrix contains NaN or infinity")
  ok tt

-- `Csr32Matrix::new`
unfoldable pub new : ℕ → ℕ → List ℕ → List ℕ → List F64 → Result Csr32Matrix
unfolding validate
new nrows ncols row_ptr col_idx values =
    let m : Csr32Matrix = record {
      nrows = nrows;
      ncols = ncols;
      row_ptr = row_ptr;
      col_idx = col_idx;
      values = values;
    } in
    validate m >> ok m

abbrev pub nnz : Csr32Matrix → ℕ
nnz m = length m.values

-- `metadata_bytes` and `storage_bytes`, on sizes that fit the address space.
unfoldable pub metadata_bytes : Csr32Matrix → ℕ
metadata_bytes m = length m.row_ptr * 4 + length m.col_idx * 4

unfoldable pub storage_bytes : Csr32Matrix → ℕ
storage_bytes m = length m.row_ptr * 4 + length m.col_idx * 4 + length m.values * 8

-- The loop range `row_ptr[row]..row_ptr[row + 1]`.
unfoldable pub row_range : Csr32Matrix → ℕ → Result (List ℕ)
row_range m row = do
  start ← at m.row_ptr row
  end ← at m.row_ptr (row + 1)
  ok (range start (end - start))

-- The rows of one task: `nrows / target_tasks`, rounded up.
abbrev pub chunk_of : ℕ → ℕ → ℕ
chunk_of nrows target_tasks = nrows / target_tasks + (if nrows % target_tasks == 0 then 0 else 1)

-- The first row whose flag is not set.
abbrev pub check_found : ℕ → List Bool → Result (Unit {0})
check_found row [] = ok tt
check_found row (false ∷ rest) = err (missing_diagonal row)
check_found row (true ∷ rest) = check_found (suc row) rest

-- The length checks of the products.
abbrev pub check_lengths : Csr32Matrix → List F64 → List F64 → Result (Unit {0})
check_lengths m x y = do
  fail_if (not (length x == m.ncols)) (dimension_mismatch m.ncols (length x))
  fail_if (not (length y == m.nrows)) (dimension_mismatch m.nrows (length y))

module _ (fp : Arithmetic) where
  -- One stored entry in `diagonal`: its sums and its flags.
  abbrev pub diagonal_entry :
      Csr32Matrix → ℕ → List F64 × List Bool → ℕ → Result (List F64 × List Bool)
  diagonal_entry m row s p = do
    col ← at m.col_idx p
    if col == row
        then (do
          d ← at s.0 row
          v ← at m.values p
          sums ← put s.0 row (fp.add d v)
          flags ← put s.1 row true
          ok (sums, flags))
        else ok s

  abbrev pub diagonal_row : Csr32Matrix → List F64 × List Bool → ℕ → Result (List F64 × List Bool)
  diagonal_row m s row = do entries ← row_range m row; try_fold (diagonal_entry m row) s entries

  -- `Csr32Matrix::diagonal`
  unfoldable pub diagonal : Csr32Matrix → Result (List F64)
  unfolding row_range
  diagonal m = do
    fail_if (not (m.nrows == m.ncols)) (invalid_matrix "diagonal requires a square matrix")
    s ←
        try_fold (diagonal_row m) (replicate m.nrows zero_f64, replicate m.nrows false)
          (range 0 m.nrows)
    check_found 0 s.1
    ok s.0

  -- `dot_row_unchecked`: `panic` is a read outside a slice, which is undefined in the source.
  abbrev pub dot_entry : Csr32Matrix → List F64 → F64 → ℕ → Result F64
  dot_entry m x sum p = do
    value ← at m.values p
    col ← at m.col_idx p
    xv ← at x col
    ok (fp.add sum (fp.mul value xv))

  unfoldable pub dot_row_unchecked : Csr32Matrix → ℕ → List F64 → Result F64
  unfolding row_range
  dot_row_unchecked m row x = do
    entries ← row_range m row
    try_fold (dot_entry m x) zero_f64 entries

  -- `LinearOperator::apply`: the new contents of `y`.
  unfoldable pub apply : Csr32Matrix → List F64 → List F64 → Result (List F64)
  unfolding dot_row_unchecked try_map
  apply m x y = do
    check_lengths m x y
    try_map (λ row. dot_row_unchecked m row x) (range 0 (length y))

  -- `Csr32Matrix::spmv`
  unfoldable pub spmv : Csr32Matrix → List F64 → Result (List F64)
  unfolding apply
  spmv m x = apply m x (replicate m.nrows zero_f64)

  -- One write of a worker.
  abbrev pub write_row : Csr32Matrix → List F64 → List F64 → ℕ → Result (List F64)
  write_row m x y row = do v ← dot_row_unchecked m row x; put y row v

  -- `apply_parallel`, for one order in which the workers finish the rows.
  unfoldable pub apply_parallel : Csr32Matrix → List F64 → List F64 → List ℕ → Result (List F64)
  unfolding dot_row_unchecked
  apply_parallel m x y order = do check_lengths m x y; try_fold (write_row m x) y order

  -- `apply_parallel_with_tasks`, for one interleaving of the tasks: each event is the row at
  -- `offset` in the chunk with the given index.
  unfoldable pub apply_parallel_with_tasks :
      Csr32Matrix → List F64 → List F64 → ℕ → List (ℕ × ℕ) → Result (List F64)
  unfolding dot_row_unchecked
  apply_parallel_with_tasks m x y target_tasks events = do
    check_lengths m x y
    fail_if (target_tasks == 0) (invalid_argument "target_tasks must be greater than zero")
    if m.nrows == 0
        then ok y
        else try_fold (λ y e. write_row m x y (e.0 * chunk_of m.nrows target_tasks + e.1)) y events
