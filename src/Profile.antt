-- ===== src/Profile.antt =====
-- crates/hybit-matrix/src/profile.rs: what the solver selection reads off a matrix.
use hybit.Base.{
  ℕ, ◌+◌, ◌-◌, max, Bool, true, false, ◌&&◌, ◌==◌, if◌then◌else◌, range, ok, at, ◌>>=◌, ◌>>◌,
  try_fold, panic, ltb,
}
use hybit.Core.{F64, Result}
use hybit.Core.Float.{Arithmetic, zero_f64, gt_zero, is_finite}
use hybit.Csr
use hybit.Csr.{Csr32Matrix}

pub record MatrixProfile : Type 0 where
  pub nrows : ℕ
  pub ncols : ℕ
  pub nnz : ℕ
  pub square : Bool
  pub full_diagonal : Bool
  pub positive_diagonal : Bool
  pub avg_nnz_per_row : F64
  pub max_nnz_per_row : ℕ
  pub csr_metadata_bytes : ℕ

-- The variables of the loops over the rows.
pub record Scan : Type 0 where
  pub full_diagonal : Bool
  pub positive_diagonal : Bool
  pub max_nnz_per_row : ℕ

-- `max_nnz_per_row.max(end - start)`
unfoldable pub widen : Csr32Matrix → Scan → ℕ → Result Scan
widen matrix s row = do
  start ← at matrix.row_ptr row
  end ← at matrix.row_ptr (row + 1)
  if ltb end start
      then panic
      else ok (record s { max_nnz_per_row = max s.max_nnz_per_row (end - start) })

module _ (fp : Arithmetic) where
  -- The loop over the entries of a row: the sum on the diagonal, and whether there is any.
  unfoldable pub diagonal_sum : Csr32Matrix → ℕ → F64 × Bool → ℕ → Result (F64 × Bool)
  diagonal_sum matrix row (diag, found) p = do
    col ← at matrix.col_idx p
    if col == row then (at matrix.values p >>= λ v. ok (fp.add diag v, true)) else ok (diag, found)

  unfoldable pub scan_row : Csr32Matrix → Scan → ℕ → Result Scan
  unfolding widen diagonal_sum
  scan_row matrix s row = do
    s' ← widen matrix s row
    start ← at matrix.row_ptr row
    end ← at matrix.row_ptr (row + 1)
    (diag, found) ← try_fold (diagonal_sum matrix row) (zero_f64, false) (range start (end - start))
    ok (record s' {
      full_diagonal = s.full_diagonal && found;
      positive_diagonal = s.positive_diagonal && (found && gt_zero diag && is_finite diag);
    })

  -- `analyze_csr32`
  unfoldable pub analyze_csr32 : Csr32Matrix → Result MatrixProfile
  unfolding scan_row widen
  analyze_csr32 matrix = do
    Csr.validate matrix
    let square : Bool = matrix.nrows == matrix.ncols
    let start : Scan = record {
      full_diagonal = square;
      positive_diagonal = square;
      max_nnz_per_row = 0;
    }
    s ←
        if square
        then try_fold (scan_row matrix) start (range 0 matrix.nrows)
        else try_fold (widen matrix) start (range 0 matrix.nrows)
    ok (record {
      nrows = matrix.nrows;
      ncols = matrix.ncols;
      nnz = Csr.nnz matrix;
      square = square;
      full_diagonal = s.full_diagonal;
      positive_diagonal = s.positive_diagonal;
      avg_nnz_per_row =
          if matrix.nrows == 0
          then zero_f64
          else fp.div (fp.of_usize (Csr.nnz matrix)) (fp.of_usize matrix.nrows);
      max_nnz_per_row = s.max_nnz_per_row;
      csr_metadata_bytes = Csr.metadata_bytes matrix;
    })
