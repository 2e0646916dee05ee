-- ===== src/Partition/Halo.antt =====
-- Halo plans of a contiguous partition (crates/hybit-distributed/src/lib.rs): which values each rank
-- receives from and sends to its peers. `BTreeMap` and `BTreeSet` are those of SortedMap.
pub mod Exchange
pub mod Filing
pub mod Wanted
pub mod Slots
pub mod Plan
pub mod Notes
pub mod Whole
pub mod Ranges
pub mod Made
pub mod Reciprocal
use hybit.Base.{
  ℕ, ◌+◌, ◌-◌, ◌%◌, Bool, true, false, not, ◌||◌, ◌==◌, ltb, leb, if◌then◌else◌, List, [], ◌∷◌,
  ◌++◌, Option, none, some, map, length, range, replicate, enumerate, unwrap_or, ok, err, at, put,
  minus, checked_add, ok_or, fail_if, ◌>>=◌, ◌>>◌, try_fold, try_map, two_64, two_32,
}
use hybit.SortedMap.{insert, modify, lookup}
use hybit.Csr.{Csr32Matrix}
use hybit.Topology
use hybit.Topology.{AbtmTopology, AbtmTopologyRow}
use hybit.Topology.Row.{row_popcount, row_select}
use hybit.Topology.Build
use hybit.Partition.{
  Result, invalid_partition, matrix_must_be_square, matrix_partition_mismatch, local_index_overflow,
  ContiguousPartition, rank_count, owned_range, contiguous_owner_of,
}
use hybit.Partition.Grow.{map_err}

pub record HaloPeerPlan : Type 0 where
  pub peer : ℕ
  pub send_globals : List ℕ
  pub send_owned_indices : List ℕ
  pub recv_globals : List ℕ
  pub recv_extended_indices : List ℕ

pub record HaloPlan : Type 0 where
  pub rank : ℕ
  pub owned : ℕ × ℕ
  pub ghost_globals : List ℕ
  pub ghost_owners : List ℕ
  pub peers : List HaloPeerPlan

-- `HaloPlan::owned_len`
unfoldable pub owned_len : HaloPlan → Result ℕ
owned_len p = minus p.owned.1 p.owned.0

-- `HaloPlan::extended_len`
unfoldable pub extended_len : HaloPlan → Result ℕ
unfolding owned_len
extended_len p = do n ← owned_len p; ok (n + length p.ghost_globals)

-- `HaloPlan::peer`
unfoldable pub find_peer : ℕ → List HaloPeerPlan → Option HaloPeerPlan
find_peer rank [] = none
find_peer rank (p ∷ ps) = if p.peer == rank then some p else find_peer rank ps

pub record PeerAccumulator : Type 0 where
  pub send_globals : List ℕ
  pub recv_globals : List ℕ

-- `PeerAccumulator::default()`
abbrev pub no_globals : PeerAccumulator
no_globals = record { send_globals = []; recv_globals = [] }

-- `BTreeMap<RankId, BTreeSet<GlobalDofId>>` and `BTreeMap<RankId, PeerAccumulator>`
abbrev pub Requests : Type 0
Requests = List (ℕ × List ℕ)

abbrev pub Peers : Type 0
Peers = List (ℕ × PeerAccumulator)

-- `usize::try_from` of a u64, and `u32::try_from`.
abbrev pub to_usize : ℕ → Result ℕ
to_usize n = do fail_if (leb two_64 n) local_index_overflow; ok n

abbrev pub to_u32 : ℕ → Result ℕ
to_u32 n = do fail_if (leb two_32 n) local_index_overflow; ok n

-- A column of an owned row is requested from its owner, unless that is the rank itself.
unfoldable pub request_column : ContiguousPartition → ℕ → Requests → ℕ → Result Requests
request_column partition rank requests global_col = do
  owner ← contiguous_owner_of partition global_col
  ok (if owner == rank then requests else modify [] (insert global_col) owner requests)

unfoldable pub request_entry :
    Csr32Matrix → ContiguousPartition → ℕ → Requests → ℕ → Result Requests
unfolding request_column
request_entry matrix partition rank requests position = do
  global_col ← at matrix.col_idx position
  request_column partition rank requests global_col

unfoldable pub request_row : Csr32Matrix → ContiguousPartition → ℕ → Requests → ℕ → Result Requests
unfolding request_entry
request_row matrix partition rank requests row = do
  start ← at matrix.row_ptr row
  end ← at matrix.row_ptr (row + 1)
  try_fold (request_entry matrix partition rank) requests (range start (end - start))

-- The requests of one rank.
unfoldable pub rank_requests : Csr32Matrix → ContiguousPartition → ℕ → Result Requests
unfolding request_row
rank_requests matrix partition rank_index = do
  (start, end) ← owned_range partition (rank_index % two_32)
  row_start ← to_usize start
  row_end ← to_usize end
  try_fold (request_row matrix partition (rank_index % two_32)) []
      (range row_start (row_end - row_start))

-- What a rank requests from an owner is noted for both.
unfoldable pub file_request : ℕ → List Peers → ℕ × List ℕ → Result (List Peers)
file_request receiver accumulators (owner, ids) = do
  mine ← at accumulators receiver
  accumulators' ←
      put accumulators receiver
        (modify no_globals (λ a. record a { recv_globals = ids }) owner mine)
  theirs ← at accumulators' owner
  put accumulators' owner
      (modify no_globals (λ a. record a { send_globals = ids }) (receiver % two_32) theirs)

unfoldable pub file_requests : List Peers → ℕ × Requests → Result (List Peers)
unfolding file_request
file_requests accumulators (receiver, requests) =
    try_fold (file_request receiver) accumulators requests

-- The ghosts of a rank so far: their globals, their owners, and `ghost_slot_by_global`.
pub record Ghosts : Type 0 where
  pub globals : List ℕ
  pub owners : List ℕ
  pub slots : List (ℕ × ℕ)

unfoldable pub add_ghost : ℕ → ℕ → Ghosts → ℕ → Result Ghosts
add_ghost own_len peer g global = do
  slot ← to_u32 (length g.globals)
  extended ← ok_or (checked_add two_32 own_len slot) local_index_overflow
  ok (record {
    globals = g.globals ++ global ∷ [];
    owners = g.owners ++ peer ∷ [];
    slots = modify extended (λ _. extended) global g.slots;
  })

unfoldable pub add_ghosts : ℕ → Ghosts → ℕ × PeerAccumulator → Result Ghosts
unfolding add_ghost
add_ghosts own_len g (peer, accumulator) =
    try_fold (add_ghost own_len peer) g accumulator.recv_globals

unfoldable pub send_index : ℕ × ℕ → ℕ → Result ℕ
send_index (start, end) global = do
  fail_if (ltb global start || leb end global)
      (invalid_partition "send DOF is not owned by the sending rank")
  to_u32 (global - start)

unfoldable pub recv_index : List (ℕ × ℕ) → ℕ → Result ℕ
recv_index slots global =
    ok_or (lookup global slots)
      (invalid_partition "receive ghost is missing from the extended-vector map")

unfoldable pub peer_plan : ℕ × ℕ → List (ℕ × ℕ) → ℕ × PeerAccumulator → Result HaloPeerPlan
unfolding send_index recv_index
peer_plan owned slots (peer, accumulator) = do
  sends ← try_map (send_index owned) accumulator.send_globals
  receives ← try_map (recv_index slots) accumulator.recv_globals
  ok (record {
    peer = peer;
    send_globals = accumulator.send_globals;
    send_owned_indices = sends;
    recv_globals = accumulator.recv_globals;
    recv_extended_indices = receives;
  })

-- The plan of one rank.
unfoldable pub rank_plan : ContiguousPartition → ℕ × Peers → Result HaloPlan
unfolding add_ghosts peer_plan
rank_plan partition (rank_index, peer_map) = do
  owned ← owned_range partition (rank_index % two_32)
  owned_len_u64 ← minus owned.1 owned.0
  own_len ← to_u32 owned_len_u64
  ghosts ← try_fold (add_ghosts own_len) (record { globals = []; owners = []; slots = [] }) peer_map
  peers ← try_map (peer_plan owned ghosts.slots) peer_map
  ok (record {
    rank = rank_index % two_32;
    owned = owned;
    ghost_globals = ghosts.globals;
    ghost_owners = ghosts.owners;
    peers = peers;
  })

-- The plans of all ranks from what they request.
unfoldable pub plans_of_requests : ContiguousPartition → ℕ → List Requests → Result (List HaloPlan)
unfolding file_requests rank_plan
plans_of_requests partition ranks recv_requests = do
  accumulators ← try_fold file_requests (replicate ranks []) (enumerate 0 recv_requests)
  try_map (rank_plan partition) (enumerate 0 accumulators)

unfoldable pub check_sizes : Csr32Matrix → ContiguousPartition → Result (Unit {0})
check_sizes matrix partition = do
  fail_if (not (matrix.nrows == matrix.ncols)) (matrix_must_be_square matrix.nrows matrix.ncols)
  fail_if (not (matrix.nrows == partition.global_dofs))
      (matrix_partition_mismatch matrix.nrows partition.global_dofs)

-- `build_contiguous_halo_plans`
unfoldable pub build_contiguous_halo_plans :
    Csr32Matrix → ContiguousPartition → Result (List HaloPlan)
unfolding rank_requests plans_of_requests check_sizes
build_contiguous_halo_plans matrix partition = do
  check_sizes matrix partition
  ranks ← rank_count partition
  recv_requests ← try_map (rank_requests matrix partition) (range 0 ranks)
  plans_of_requests partition ranks recv_requests

-- `finalize_halo_plans_from_recv_requests`
unfoldable pub finalize_halo_plans_from_recv_requests :
    ContiguousPartition → List Requests → Result (List HaloPlan)
unfolding plans_of_requests
finalize_halo_plans_from_recv_requests partition recv_requests = do
  ranks ← rank_count partition
  fail_if (not (length recv_requests == ranks))
      (invalid_partition "receive-request rank count differs from partition")
  plans_of_requests partition ranks recv_requests

unfoldable pub request_selected :
    AbtmTopologyRow → ContiguousPartition → ℕ → Requests → ℕ → Result Requests
unfolding request_column
request_selected row partition rank requests ordinal = do
  global_col ← ok_or (row_select row ordinal) (invalid_partition "ABTM topology select failed")
  request_column partition rank requests global_col

unfoldable pub request_topology_row :
    AbtmTopology → ContiguousPartition → ℕ → Requests → ℕ → Result Requests
unfolding request_selected
request_topology_row topology partition rank requests row_index = do
  row ←
      map_err (Topology.row topology row_index)
        (invalid_partition "ABTM topology row lookup failed")
  try_fold (request_selected row partition rank) requests (range 0 (row_popcount row))

unfoldable pub topology_requests : AbtmTopology → ContiguousPartition → ℕ → Result Requests
unfolding request_topology_row
topology_requests topology partition rank_index = do
  (start, end) ← owned_range partition (rank_index % two_32)
  row_start ← to_usize start
  row_end ← to_usize end
  try_fold (request_topology_row topology partition (rank_index % two_32)) []
      (range row_start (row_end - row_start))

-- `build_contiguous_halo_plans_abtm`
unfoldable pub build_contiguous_halo_plans_abtm :
    Csr32Matrix → ContiguousPartition → Result (List HaloPlan)
unfolding topology_requests finalize_halo_plans_from_recv_requests check_sizes
build_contiguous_halo_plans_abtm matrix partition = do
  check_sizes matrix partition
  topology ←
      map_err (Build.from_csr32 matrix)
        (invalid_partition "ABTM topology construction failed for the validated CSR matrix")
  ranks ← rank_count partition
  recv_requests ← try_map (topology_requests topology partition) (range 0 ranks)
  finalize_halo_plans_from_recv_requests partition recv_requests
