-- ===== src/Partition/Telemetry.antt =====
-- The quality of a partition (crates/hybit-distributed/src): `partition_telemetry` of lib.rs for halo
-- plans, `partition_telemetry_assignment` of partition.rs for assignments.
use hybit.Base.{
  ℕ, ◌+◌, ◌-◌, not, ◌==◌, min, max, if◌then◌else◌, List, [], ◌∷◌, ◌++◌, map, foldl, length, range,
  replicate, ok, at, put, slice, minus, fail_if, ◌>>=◌, ◌>>◌, try_fold,
}
use hybit.Core.{F64}
use hybit.Core.Float.{Arithmetic, one_f64, gt_zero}
use hybit.Csr.{Csr32Matrix, nnz}
use hybit.SortedMap.{insert}
use hybit.Partition.{
  Result, invalid_partition, matrix_must_be_square, matrix_partition_mismatch, ContiguousPartition,
  rank_count, contiguous_owner_of, PartitionAssignment, owner_of,
}
use hybit.Partition.Halo.{HaloPlan, owned_len, to_usize}

pub record PartitionTelemetry : Type 0 where
  pub ranks : ℕ
  pub global_dofs : ℕ
  pub global_nnz : ℕ
  pub cut_nnz : ℕ
  pub communication_volume : ℕ
  pub directional_peer_relations : ℕ
  pub max_neighbors : ℕ
  pub min_owned_dofs : ℕ
  pub max_owned_dofs : ℕ
  pub owned_dof_imbalance : F64
  pub min_local_nnz : ℕ
  pub max_local_nnz : ℕ
  pub local_nnz_imbalance : F64

abbrev sum_of : List ℕ → ℕ
sum_of [] = 0
sum_of (x ∷ xs) = x + sum_of xs

-- `iter().min().unwrap_or(&0)` and `iter().max().unwrap_or(&0)`
abbrev least : List ℕ → ℕ
least [] = 0
least (x ∷ xs) = foldl min x xs

abbrev greatest : List ℕ → ℕ
greatest xs = foldl max 0 xs

-- `max as f64 / average` where the average is above zero.
abbrev imbalance : Arithmetic → ℕ → F64 → F64
imbalance fp most average = if gt_zero average then fp.div (fp.of_usize most) average else one_f64

-- The counters of the loop over the plans.
pub record Counted : Type 0 where
  pub cut_nnz : ℕ
  pub local_nnz : List ℕ
  pub owned_counts : List ℕ

unfoldable pub count_cut : ContiguousPartition → ℕ → ℕ → ℕ → Result ℕ
count_cut partition rank cut_nnz col = do
  owner ← contiguous_owner_of partition col
  ok (if owner == rank then cut_nnz else cut_nnz + 1)

-- One row of a plan: the entries of the rank, and those that cross ranks.
unfoldable pub count_row : Csr32Matrix → ContiguousPartition → ℕ → ℕ × ℕ → ℕ → Result (ℕ × ℕ)
unfolding count_cut
count_row matrix partition rank (rank_nnz, cut_nnz) row = do
  start ← at matrix.row_ptr row
  end ← at matrix.row_ptr (row + 1)
  entries ← minus end start
  cols ← slice matrix.col_idx start end
  cut_nnz' ← try_fold (count_cut partition rank) cut_nnz cols
  ok (rank_nnz + entries, cut_nnz')

unfoldable pub count_plan : Csr32Matrix → ContiguousPartition → Counted → HaloPlan → Result Counted
unfolding count_row
count_plan matrix partition c plan = do
  row_start ← to_usize plan.owned.0
  row_end ← to_usize plan.owned.1
  own ← owned_len plan
  (rank_nnz, cut_nnz) ←
      try_fold (count_row matrix partition plan.rank) (0, c.cut_nnz)
        (range row_start (row_end - row_start))
  ok (record {
    cut_nnz = cut_nnz;
    local_nnz = c.local_nnz ++ rank_nnz ∷ [];
    owned_counts = c.owned_counts ++ own ∷ [];
  })

-- `partition_telemetry`
unfoldable pub partition_telemetry :
    Arithmetic → Csr32Matrix → ContiguousPartition → List HaloPlan → Result PartitionTelemetry
unfolding count_plan
partition_telemetry fp matrix partition plans = do
  ranks ← rank_count partition
  fail_if (not (length plans == ranks))
      (invalid_partition "halo plan count differs from partition rank count")
  c ←
      try_fold (count_plan matrix partition)
        (record { cut_nnz = 0; local_nnz = []; owned_counts = [] }) plans
  let neighbors = map (λ (plan : HaloPlan). length plan.peers) plans
  let ranks_f64 = fp.of_usize (length plans)
  ok (record {
    ranks = ranks;
    global_dofs = partition.global_dofs;
    global_nnz = nnz matrix;
    cut_nnz = c.cut_nnz;
    communication_volume = sum_of (map (λ (plan : HaloPlan). length plan.ghost_globals) plans);
    directional_peer_relations = sum_of neighbors;
    max_neighbors = greatest neighbors;
    min_owned_dofs = least c.owned_counts;
    max_owned_dofs = greatest c.owned_counts;
    owned_dof_imbalance =
        imbalance fp (greatest c.owned_counts)
          (fp.div (fp.of_usize partition.global_dofs) ranks_f64);
    min_local_nnz = least c.local_nnz;
    max_local_nnz = greatest c.local_nnz;
    local_nnz_imbalance =
        imbalance fp (greatest c.local_nnz) (fp.div (fp.of_usize (nnz matrix)) ranks_f64);
  })

-- The counters of the loop over the rows.
pub record Tallies : Type 0 where
  pub owned_counts : List ℕ
  pub local_nnz : List ℕ
  pub remote_globals : List (List ℕ)
  pub remote_ranks : List (List ℕ)
  pub cut_nnz : ℕ

unfoldable pub tally_column : PartitionAssignment → ℕ → Tallies → ℕ → Result Tallies
tally_column assignment row_rank t global_col = do
  col_rank ← owner_of assignment global_col
  let crossing = do
    globals ← at t.remote_globals row_rank
    remote_globals ← put t.remote_globals row_rank (insert global_col globals)
    ranks ← at t.remote_ranks row_rank
    remote_ranks ← put t.remote_ranks row_rank (insert col_rank ranks)
    ok (record t {
      remote_globals = remote_globals;
      remote_ranks = remote_ranks;
      cut_nnz = t.cut_nnz + 1;
    })
  if col_rank == row_rank then ok t else crossing

unfoldable pub tally_row : Csr32Matrix → PartitionAssignment → Tallies → ℕ → Result Tallies
unfolding tally_column
tally_row matrix assignment t row = do
  row_rank ← at assignment.owners row
  owned ← at t.owned_counts row_rank
  owned_counts ← put t.owned_counts row_rank (owned + 1)
  start ← at matrix.row_ptr row
  end ← at matrix.row_ptr (row + 1)
  entries ← minus end start
  local ← at t.local_nnz row_rank
  local_nnz ← put t.local_nnz row_rank (local + entries)
  cols ← slice matrix.col_idx start end
  try_fold (tally_column assignment row_rank)
      (record t { owned_counts = owned_counts; local_nnz = local_nnz }) cols

-- `partition_telemetry_assignment`
unfoldable pub partition_telemetry_assignment :
    Arithmetic → Csr32Matrix → PartitionAssignment → Result PartitionTelemetry
unfolding tally_row
partition_telemetry_assignment fp matrix assignment = do
  fail_if (not (matrix.nrows == matrix.ncols)) (matrix_must_be_square matrix.nrows matrix.ncols)
  fail_if (not (matrix.nrows == length assignment.owners))
      (matrix_partition_mismatch matrix.nrows (length assignment.owners))
  t ←
      try_fold (tally_row matrix assignment)
        (record {
          owned_counts = replicate assignment.ranks 0;
          local_nnz = replicate assignment.ranks 0;
          remote_globals = replicate assignment.ranks [];
          remote_ranks = replicate assignment.ranks [];
          cut_nnz = 0;
        })
        (range 0 matrix.nrows)
  let neighbors = map length t.remote_ranks
  let ranks_f64 = fp.of_usize assignment.ranks
  ok (record {
    ranks = assignment.ranks;
    global_dofs = length assignment.owners;
    global_nnz = nnz matrix;
    cut_nnz = t.cut_nnz;
    communication_volume = sum_of (map length t.remote_globals);
    directional_peer_relations = sum_of neighbors;
    max_neighbors = greatest neighbors;
    min_owned_dofs = least t.owned_counts;
    max_owned_dofs = greatest t.owned_counts;
    owned_dof_imbalance =
        imbalance fp (greatest t.owned_counts) (fp.div (fp.of_usize matrix.nrows) ranks_f64);
    min_local_nnz = least t.local_nnz;
    max_local_nnz = greatest t.local_nnz;
    local_nnz_imbalance =
        imbalance fp (greatest t.local_nnz) (fp.div (fp.of_usize (nnz matrix)) ranks_f64);
  })
