-- ===== src/Dual.antt =====
-- crates/hybit-matrix/src/dual_topology.rs: the topology of a matrix with that of its transpose.
pub mod Valid
pub mod Built
use hybit.Base.{
  ℕ, zero, suc, ◌+◌, ◌-◌, Bool, not, ◌||◌, ◌==◌, ltb, List, [], ◌∷◌, ◌++◌, length, replicate, range,
  take, ok, at, put, slice, fail_if, ok_or, ◌>>=◌, ◌>>◌, try_fold, checked_add, saturating_add,
  two_64, two_32,
}
use hybit.Core.{invalid_matrix, size_overflow, Result}
use hybit.Csr
use hybit.Csr.{Csr32Matrix}
use hybit.Topology
use hybit.Topology.{AbtmTopology, AbtmTopologyRow}
use hybit.Topology.Build

pub record AbtmDualTopology : Type 0 where
  pub rows : AbtmTopology
  pub columns : AbtmTopology

-- `AbtmDualTopology::row` and `column`
unfoldable pub row : AbtmDualTopology → ℕ → Result AbtmTopologyRow
row d r = Topology.row d.rows r

unfoldable pub column : AbtmDualTopology → ℕ → Result AbtmTopologyRow
column d c = Topology.row d.columns c

abbrev pub nrows : AbtmDualTopology → ℕ
nrows d = d.rows.nrows

abbrev pub ncols : AbtmDualTopology → ℕ
ncols d = d.rows.ncols

-- `AbtmDualTopology::validate`
unfoldable pub validate : AbtmDualTopology → Result (Unit {0})
validate d = do
  Topology.validate d.rows
  Topology.validate d.columns
  fail_if (not (d.columns.nrows == d.rows.ncols) || not (d.columns.ncols == d.rows.nrows))
      (invalid_matrix "ABTM dual topology transpose dimensions are inconsistent")
  fail_if (not (d.columns.structural_nnz == d.rows.structural_nnz))
      (invalid_matrix "ABTM dual topology transpose nnz is inconsistent")

-- `count.checked_add(1)` at the column of an entry.
unfoldable pub count_column : List ℕ → ℕ → Result (List ℕ)
count_column counts col = do
  count ← at counts col
  count' ← ok_or (checked_add two_32 count 1) size_overflow
  put counts col count'

-- The prefix sums of the counts: the row pointers of the transpose.
unfoldable pub push_running : List ℕ × ℕ → ℕ → Result (List ℕ × ℕ)
push_running (row_ptr, running) count = do
  running' ← ok_or (checked_add two_32 running count) size_overflow
  ok (row_ptr ++ running' ∷ [], running')

-- One entry of the matrix goes to the place of its column's cursor.
unfoldable pub place_entry : ℕ → List ℕ × List ℕ → ℕ → Result (List ℕ × List ℕ)
place_entry r (col_idx, cursors) col = do
  position ← at cursors col
  fail_if (ltb (two_32 - 1) r) size_overflow
  col_idx' ← put col_idx position r
  cursor' ← ok_or (checked_add two_32 position 1) size_overflow
  cursors' ← put cursors col cursor'
  ok (col_idx', cursors')

unfoldable pub place_row : Csr32Matrix → List ℕ × List ℕ → ℕ → Result (List ℕ × List ℕ)
unfolding place_entry
place_row csr s r = do
  start ← at csr.row_ptr r
  end ← at csr.row_ptr (r + 1)
  cols ← slice csr.col_idx start end
  try_fold (place_entry r) s cols

-- `AbtmDualTopology::from_csr32`
unfoldable pub from_csr32 : Csr32Matrix → Result AbtmDualTopology
unfolding count_column push_running place_row validate
from_csr32 csr = do
  Csr.validate csr
  rows ← Build.from_csr32 csr
  counts ← try_fold count_column (replicate csr.ncols 0) csr.col_idx
  (row_ptr, _) ← try_fold push_running (0 ∷ [], 0) counts
  cursors ← slice row_ptr 0 csr.ncols
  (col_idx, _) ←
      try_fold (place_row csr) (replicate (length csr.values) 0, cursors) (range 0 csr.nrows)
  columns ← Build.from_structural_csr csr.ncols csr.nrows row_ptr col_idx
  let d : AbtmDualTopology = record { rows = rows; columns = columns }
  validate d
  ok d

pub record AbtmDualTopologyStats : Type 0 where
  pub nrows : ℕ
  pub ncols : ℕ
  pub structural_nnz : ℕ
  pub row_metadata_bytes : ℕ
  pub column_metadata_bytes : ℕ

-- `AbtmDualTopology::stats`
unfoldable pub stats : AbtmDualTopology → AbtmDualTopologyStats
stats d = record {
  nrows = nrows d;
  ncols = ncols d;
  structural_nnz = (Topology.stats d.rows).structural_nnz;
  row_metadata_bytes = (Topology.stats d.rows).metadata_bytes;
  column_metadata_bytes = (Topology.stats d.columns).metadata_bytes;
}

unfoldable pub total_metadata_bytes : AbtmDualTopologyStats → ℕ
total_metadata_bytes s = saturating_add two_64 s.row_metadata_bytes s.column_metadata_bytes
