-- ===== src/Region/Plan.antt =====
-- `prepare_local_numeric_plan` and `gather_values` (region.rs): where the values of A[R, R] stand
-- among the values of A.
use hybit.Base.{
  ℕ, suc, ◌+◌, ◌-◌, Bool, true, false, not, ◌&&◌, ◌||◌, ◌==◌, ltb, if◌then◌else◌, List, [], ◌∷◌,
  ◌++◌, length, replicate, range, Option, none, some, ok, at, put, slice, ok_or, fail_if, ◌>>=◌,
  ◌>>◌, try_fold, try_map, saturating_add, saturating_mul, two_64, two_32,
}
use hybit.Core.{F64, invalid_argument, invalid_matrix, dimension_mismatch, size_overflow, Result}
use hybit.Core.Float.{Arithmetic, zero_f64}
use hybit.Csr.{Csr32Matrix}
use hybit.Mask.{DofMask}
use hybit.Dual
use hybit.Dual.{AbtmDualTopology}
use hybit.Region.Pattern
use hybit.Region.Pattern.{AbtmLocalSubmatrixPattern, outside, extract_local_submatrix_pattern}

pub record AbtmLocalNumericPlanStats : Type 0 where
  pub local_nodes : ℕ
  pub local_nnz : ℕ
  pub source_terms : ℕ
  pub duplicate_source_terms : ℕ
  pub direct_source_map : Bool
  pub plan_bytes : ℕ

pub record AbtmLocalNumericPlan : Type 0 where
  pub pattern : AbtmLocalSubmatrixPattern
  pub source_ptr : List ℕ
  pub source_indices : List ℕ
  pub source_value_len : ℕ
  pub direct_source_map : Bool
  pub stats : AbtmLocalNumericPlanStats

-- `BTreeMap<u32, Vec<u32>>`, by ascending keys.
abbrev pub ByColumn : Type 0
ByColumn = List (ℕ × List ℕ)

-- `by_local_col.entry(key).or_default().push(value)`
unfoldable pub push_source : ByColumn → ℕ → ℕ → ByColumn
push_source [] key value = (key, value ∷ []) ∷ []
push_source ((k, vs) ∷ rest) key value =
    let later = push_source rest key value in
    if k == key
    then (k, vs ++ value ∷ []) ∷ rest
    else if ltb key k
    then (key, value ∷ []) ∷ (k, vs) ∷ rest
    else (k, vs) ∷ later

-- `by_local_col.remove(&key)`: the value, and the map without it.
unfoldable pub remove : ByColumn → ℕ → Option (List ℕ × ByColumn)
remove [] key = none
remove ((k, vs) ∷ rest) key =
    let later = remove rest key in
    if k == key
    then some (vs, rest)
    else elim later [ none ↦ none | some (found, rest') ↦ some (found, (k, vs) ∷ rest') ]

-- The loop over the entries of a row of the matrix.
unfoldable pub bind_source : Csr32Matrix → List ℕ → ByColumn → ℕ → Result ByColumn
unfolding push_source
bind_source matrix global_to_local by_local_col source = do
  global_col ← at matrix.col_idx source
  local_col ← at global_to_local global_col
  if local_col == outside then ok by_local_col else do
    fail_if (ltb (two_32 - 1) source) size_overflow
    ok (push_source by_local_col local_col source)

-- What the rows fill: `source_ptr` and `source_indices`.
abbrev pub Sources : Type 0
Sources = List ℕ × List ℕ

unfoldable pub take_column : Sources × ByColumn → ℕ → Result (Sources × ByColumn)
unfolding remove
take_column ((source_ptr, source_indices), by_local_col) local_col = do
  (sources, rest) ←
      ok_or (remove by_local_col local_col)
        (invalid_matrix "ABTM local numeric plan could not bind a structural entry")
  let indices = source_indices ++ sources
  fail_if (ltb (two_32 - 1) (length indices)) size_overflow
  ok ((source_ptr ++ length indices ∷ [], indices), rest)

abbrev pub is_empty_map : ByColumn → Bool
is_empty_map [] = true
is_empty_map (e ∷ rest) = false

unfoldable pub plan_row :
    AbtmLocalSubmatrixPattern → Csr32Matrix → List ℕ → Sources → ℕ → Result Sources
unfolding bind_source take_column
plan_row pattern matrix global_to_local s local_row = do
  global_row ← at pattern.global_nodes local_row
  start ← at matrix.row_ptr global_row
  end ← at matrix.row_ptr (global_row + 1)
  by_local_col ← try_fold (bind_source matrix global_to_local) [] (range start (end - start))
  p_start ← at pattern.row_ptr local_row
  p_end ← at pattern.row_ptr (local_row + 1)
  cols ← slice pattern.col_idx p_start p_end
  (s', rest) ← try_fold take_column (s, by_local_col) cols
  fail_if (not (is_empty_map rest))
      (invalid_matrix "CSR local structure contains entries absent from ABTM topology")
  ok s'

-- The loop that fills `global_to_local`, with the next local number.
unfoldable pub map_node : List ℕ × ℕ → ℕ → Result (List ℕ × ℕ)
map_node (global_to_local, local) global = do
  fail_if (ltb (two_32 - 1) local) size_overflow
  global_to_local' ← put global_to_local global local
  ok (global_to_local', suc local)

-- Each pointer of the list, from position i on, is its own position.
unfoldable pub counts_up : ℕ → List ℕ → Bool
counts_up i [] = true
counts_up i (ptr ∷ ptrs) = (ptr == i) && counts_up (suc i) ptrs

-- `prepare_local_numeric_plan`
unfoldable pub prepare_local_numeric_plan :
    AbtmDualTopology → Csr32Matrix → DofMask → Result AbtmLocalNumericPlan
unfolding extract_local_submatrix_pattern map_node plan_row counts_up
prepare_local_numeric_plan topology matrix region = do
  fail_if (not (Dual.nrows topology == matrix.nrows) || not (Dual.ncols topology == matrix.ncols))
      (invalid_argument "ABTM local numeric plan topology/matrix dimensions differ")
  pattern ← extract_local_submatrix_pattern topology region
  (global_to_local, _) ← try_fold map_node (replicate matrix.ncols outside, 0) pattern.global_nodes
  (source_ptr, source_indices) ←
      try_fold (plan_row pattern matrix global_to_local) (0 ∷ [], [])
        (range 0 (Pattern.nrows pattern))
  fail_if (not (length source_ptr == saturating_add two_64 (Pattern.nnz pattern) 1))
      (invalid_matrix "ABTM local numeric source pointer length is inconsistent")
  let direct : Bool = (length source_indices == Pattern.nnz pattern) && counts_up 0 source_ptr
  let bytes : ℕ =
      saturating_add two_64
        (saturating_add two_64 pattern.stats.pattern_bytes
          (saturating_mul two_64 (length source_ptr) 4))
        (saturating_mul two_64 (length source_indices) 4)
  ok (record {
    pattern = pattern;
    source_ptr = source_ptr;
    source_indices = source_indices;
    source_value_len = length matrix.values;
    direct_source_map = direct;
    stats = record {
      local_nodes = Pattern.nrows pattern;
      local_nnz = Pattern.nnz pattern;
      source_terms = length source_indices;
      duplicate_source_terms = length source_indices - Pattern.nnz pattern;
      direct_source_map = direct;
      plan_bytes = bytes;
    };
  })

-- The sums over the windows of `source_ptr`.
unfoldable pub sum_windows : Arithmetic → List F64 → List ℕ → List ℕ → Result (List F64)
sum_windows fp values source_indices [] = ok []
sum_windows fp values source_indices (start ∷ []) = ok []
sum_windows fp values source_indices (start ∷ end ∷ ptrs) = do
  sources ← slice source_indices start end
  sum ← try_fold (λ s source. at values source >>= λ v. ok (fp.add s v)) zero_f64 sources
  rest ← sum_windows fp values source_indices (end ∷ ptrs)
  ok (sum ∷ rest)

-- `AbtmLocalNumericPlan::gather_values`
unfoldable pub gather_values : Arithmetic → AbtmLocalNumericPlan → List F64 → Result (List F64)
unfolding sum_windows
gather_values fp plan values = do
  fail_if (not (length values == plan.source_value_len))
      (dimension_mismatch plan.source_value_len (length values))
  if plan.direct_source_map
      then try_map (at values) plan.source_indices
      else sum_windows fp values plan.source_indices plan.source_ptr
