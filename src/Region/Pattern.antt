-- ===== src/Region/Pattern.antt =====
-- `extract_local_submatrix_pattern` (region.rs): the pattern of A[R, R] in local numbers.
use hybit.Base.{
  ℕ, suc, ◌-◌, not, ◌==◌, ltb, List, [], ◌∷◌, ◌++◌, length, replicate, get_elem?, get_or, bit_and,
  ok, put, ok_or, fail_if, ◌>>=◌, ◌>>◌, try_fold, checked_add, saturating_add, saturating_mul,
  two_64, two_32,
}
use hybit.Bits.{count_ones, for_each_bit}
use hybit.Core.{invalid_matrix, dimension_mismatch, size_overflow, Result}
use hybit.Mask.{DofMask, indices}
use hybit.Topology.Row.{AbtmTopologyWord, base_col, popcount, words}
use hybit.Dual
use hybit.Dual.{AbtmDualTopology}

pub record AbtmLocalSubmatrixPatternStats : Type 0 where
  pub global_nodes : ℕ
  pub local_nodes : ℕ
  pub local_nnz : ℕ
  pub topology_words_visited : ℕ
  pub candidate_neighbor_bits : ℕ
  pub kept_neighbor_bits : ℕ
  pub mapping_scratch_bytes : ℕ
  pub pattern_bytes : ℕ

pub record AbtmLocalSubmatrixPattern : Type 0 where
  pub global_nodes : List ℕ
  pub row_ptr : List ℕ
  pub col_idx : List ℕ
  pub stats : AbtmLocalSubmatrixPatternStats

abbrev pub nrows : AbtmLocalSubmatrixPattern → ℕ
nrows p = length p.global_nodes

abbrev pub nnz : AbtmLocalSubmatrixPattern → ℕ
nnz p = length p.col_idx

-- `u32::MAX`, which marks a node outside the region.
abbrev pub outside : ℕ
outside = two_32 - 1

-- The loop that numbers the nodes of the region: global nodes, the map back, and the next number.
unfoldable pub number_node : List ℕ × List ℕ × ℕ → ℕ → Result (List ℕ × List ℕ × ℕ)
number_node (global_nodes, global_to_local, local) global = do
  fail_if (ltb (two_32 - 1) global) size_overflow
  fail_if (ltb (two_32 - 1) local) size_overflow
  global_to_local' ← put global_to_local global local
  ok (global_nodes ++ global ∷ [], global_to_local', suc local)

-- The vectors and counters that the rows fill.
pub record LocalRows : Type 0 where
  pub row_ptr : List ℕ
  pub col_idx : List ℕ
  pub topology_words_visited : ℕ
  pub candidate_neighbor_bits : ℕ
  pub kept_neighbor_bits : ℕ

-- One kept bit of a word: its local column is appended.
unfoldable pub keep_bit : List ℕ → AbtmTopologyWord → List ℕ → ℕ → Result (List ℕ)
keep_bit global_to_local w col_idx bit = do
  global_col ← ok_or (checked_add two_64 (base_col w) bit) size_overflow
  local_col ←
      ok_or (get_elem? global_to_local global_col)
        (invalid_matrix "ABTM local pattern produced an out-of-range column")
  fail_if (local_col == outside)
      (invalid_matrix "ABTM local pattern retained a column outside the region")
  ok (col_idx ++ local_col ∷ [])

unfoldable pub keep_word : DofMask → List ℕ → LocalRows → AbtmTopologyWord → Result LocalRows
unfolding keep_bit for_each_bit
keep_word region global_to_local s w = do
  let bits = bit_and w.mask (get_or region.words w.word_index 0)
  col_idx ← for_each_bit (λ r b. r >>= λ c. keep_bit global_to_local w c b) (ok s.col_idx) bits
  ok (record {
    row_ptr = s.row_ptr;
    col_idx = col_idx;
    topology_words_visited = saturating_add two_64 s.topology_words_visited 1;
    candidate_neighbor_bits = saturating_add two_64 s.candidate_neighbor_bits (popcount w);
    kept_neighbor_bits = saturating_add two_64 s.kept_neighbor_bits (count_ones bits);
  })

unfoldable pub local_row : AbtmDualTopology → DofMask → List ℕ → LocalRows → ℕ → Result LocalRows
unfolding keep_word
local_row topology region global_to_local s global_row = do
  row ← Dual.row topology global_row
  s' ← try_fold (keep_word region global_to_local) s (words row)
  fail_if (ltb (two_32 - 1) (length s'.col_idx)) size_overflow
  ok (record s' { row_ptr = s'.row_ptr ++ length s'.col_idx ∷ [] })

-- `extract_local_submatrix_pattern`
unfoldable pub extract_local_submatrix_pattern :
    AbtmDualTopology → DofMask → Result AbtmLocalSubmatrixPattern
unfolding number_node local_row
extract_local_submatrix_pattern topology region = do
  fail_if (not (Dual.nrows topology == Dual.ncols topology))
      (invalid_matrix "ABTM local submatrix extraction requires a square topology")
  fail_if (not (region.len == Dual.nrows topology))
      (dimension_mismatch (Dual.nrows topology) region.len)
  fail_if (ltb (two_32 - 1) (length (indices region))) size_overflow
  (global_nodes, global_to_local, _) ←
      try_fold number_node ([], replicate (Dual.nrows topology) outside, 0) (indices region)
  s ←
      try_fold (local_row topology region global_to_local)
        (record {
          row_ptr = 0 ∷ [];
          col_idx = [];
          topology_words_visited = 0;
          candidate_neighbor_bits = 0;
          kept_neighbor_bits = 0;
        })
        global_nodes
  let bytes : ℕ =
      saturating_add two_64
        (saturating_add two_64 (saturating_mul two_64 (length global_nodes) 4)
          (saturating_mul two_64 (length s.row_ptr) 4))
        (saturating_mul two_64 (length s.col_idx) 4)
  ok (record {
    global_nodes = global_nodes;
    row_ptr = s.row_ptr;
    col_idx = s.col_idx;
    stats = record {
      global_nodes = Dual.nrows topology;
      local_nodes = length global_nodes;
      local_nnz = length s.col_idx;
      topology_words_visited = s.topology_words_visited;
      candidate_neighbor_bits = s.candidate_neighbor_bits;
      kept_neighbor_bits = s.kept_neighbor_bits;
      mapping_scratch_bytes = saturating_mul two_64 (length global_to_local) 4;
      pattern_bytes = bytes;
    };
  })
