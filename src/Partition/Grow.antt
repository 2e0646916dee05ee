-- ===== src/Partition/Grow.antt =====
-- `abtm_region_grow_partition` (crates/hybit-distributed/src/partition.rs): one rank after the other
-- takes its share of the DOFs by growth over the dual topology.
pub mod Claims
pub mod Fill
pub mod Shares
pub mod Balance
use hybit.Base.{
  ℕ, zero, suc, ◌+◌, ◌-◌, ◌/◌, ◌%◌, Bool, true, false, not, ◌&&◌, ◌||◌, ◌==◌, ltb, leb,
  if◌then◌else◌, List, [], ◌∷◌, ◌++◌, Option, some, none, map, length, replicate, range, any,
  enumerate, get_or, set, ok, err, panic, put, ok_or, fail_if, ◌>>=◌, ◌>>◌, try_fold, try_map,
  saturating_add, two_64, two_32,
}
use hybit.Base
use hybit.Bits.{trailing_zeros, clear_lowest}
use hybit.Core.{HybitError}
use hybit.Csr.{Csr32Matrix}
use hybit.Topology.Row.{AbtmTopologyWord, base_col, popcount, words, row_popcount}
use hybit.Dual
use hybit.Dual.{AbtmDualTopology, total_metadata_bytes}
use hybit.Partition.{
  DistributedTopologyError, Result, invalid_rank_count, invalid_partition, matrix_must_be_square,
  PartitionAssignment, unassigned, from_owners, owned_count,
}

-- `result.map_err(|_| e)`
abbrev pub map_err {ℓ} :
    {A : Type ℓ} → Base.Result HybitError A → DistributedTopologyError → Result A
map_err (ok a) e = ok a
map_err (err _) e = err e
map_err panic e = panic

pub record AbtmPartitionStats : Type 0 where
  pub ranks : ℕ
  pub seeds_started : ℕ
  pub disconnected_restarts : ℕ
  pub frontier_nodes_expanded : ℕ
  pub topology_words_visited : ℕ
  pub candidate_neighbor_bits : ℕ
  pub dual_topology_metadata_bytes : ℕ

unfoldable pub node_degree : AbtmDualTopology → ℕ → Result ℕ
node_degree topology node = do
  row ← map_err (Dual.row topology node) (invalid_partition "ABTM row topology lookup failed")
  column ←
      map_err (Dual.column topology node) (invalid_partition "ABTM column topology lookup failed")
  ok (saturating_add two_64 (row_popcount row) (row_popcount column))

-- The better of the best node so far and one more.
unfoldable pub keep_best : Option (ℕ × ℕ) → ℕ → ℕ → Option (ℕ × ℕ)
keep_best none degree node = some (degree, node)
keep_best (some (best_degree, best_node)) degree node =
    if ltb best_degree degree || ((degree == best_degree) && ltb node best_node)
    then some (degree, node)
    else some (best_degree, best_node)

unfoldable pub choose_from : Option (ℕ × ℕ) → ℕ → List ℕ → List ℕ → Option (ℕ × ℕ)
choose_from best node [] degrees = best
choose_from best node (owner ∷ owners) [] = best
choose_from best node (owner ∷ owners) (degree ∷ degrees) =
    choose_from (if not (owner == unassigned) then best else keep_best best degree node) (suc node)
      owners degrees

-- `choose_seed`
unfoldable pub choose_seed : List ℕ → List ℕ → Option ℕ
unfolding choose_from
choose_seed owners degree = elim (choose_from none 0 owners degree) [
  | none ↦ none
  | some (_, node) ↦ some node
]

-- `balanced_targets`
unfoldable pub balanced_targets : ℕ → ℕ → List ℕ
balanced_targets n ranks =
    map (λ rank. n / ranks + (if ltb rank (n % ranks) then 1 else 0)) (range 0 ranks)

-- The loop's variables while one rank is filled.
pub record Growing : Type 0 where
  pub owners : List ℕ
  pub assigned : ℕ
  pub frontier : List ℕ
  pub first_seed : Bool
  pub stats : AbtmPartitionStats

-- `rank` takes a DOF that has no owner.
abbrev pub take_dof : ℕ → ℕ → Growing → Growing
take_dof rank node s = record s {
  owners = set s.owners node rank;
  assigned = s.assigned + 1;
  frontier = s.frontier ++ node ∷ [];
}

abbrev pub claim : ℕ → ℕ → Growing → Growing
claim rank neighbor s =
    if ltb neighbor (length s.owners) && (get_or s.owners neighbor 0 == unassigned)
    then take_dof rank neighbor s
    else s

-- The loop over the bits of a word, which stops when the rank is full; 64 rounds are enough.
unfoldable pub claim_bits : ℕ → ℕ → ℕ → ℕ → Growing → ℕ → Growing
claim_bits zero rank target base s bits = s
claim_bits (suc fuel) rank target base s bits =
    let rest =
      claim_bits fuel rank target base (claim rank (base + trailing_zeros bits) s)
        (clear_lowest bits) in
    if not (bits == 0) && ltb s.assigned target then rest else s

abbrev pub visit_word : ℕ → ℕ → Growing → AbtmTopologyWord → Growing
visit_word rank target s word =
    let stats = record (s.stats) {
      topology_words_visited = s.stats.topology_words_visited + 1;
      candidate_neighbor_bits = s.stats.candidate_neighbor_bits + popcount word;
    } in
    claim_bits 64 rank target (base_col word) (record s { stats = stats }) word.mask

-- The loop over the words of a row or a column, which stops when the rank is full.
unfoldable pub visit_words : ℕ → ℕ → Growing → List AbtmTopologyWord → Growing
visit_words rank target s [] = s
visit_words rank target s (word ∷ ws) =
    let s' = visit_word rank target s word in
    let rest = visit_words rank target s' ws in if s'.assigned == target then s' else rest

-- A new seed, when the frontier is empty.
unfoldable pub seed_rank : List ℕ → ℕ → Growing → Result Growing
seed_rank degree rank s = do
  seed ←
      ok_or (choose_seed s.owners degree)
        (invalid_partition "ABTM partition ran out of unassigned seed nodes")
  owners ← put s.owners seed rank
  let stats = record (s.stats) {
    seeds_started = s.stats.seeds_started + 1;
    disconnected_restarts = s.stats.disconnected_restarts + (if s.first_seed then 0 else 1);
  }
  ok (record {
    owners = owners;
    assigned = s.assigned + 1;
    frontier = s.frontier ++ seed ∷ [];
    first_seed = false;
    stats = stats;
  })

-- The node at the front of the frontier, with the neighbours along its row and its column.
unfoldable pub expand_node : AbtmDualTopology → ℕ → ℕ → ℕ → List ℕ → Growing → Result Growing
expand_node topology rank target node frontier s = do
  let stats = record (s.stats) { frontier_nodes_expanded = s.stats.frontier_nodes_expanded + 1 }
  row ←
      map_err (Dual.row topology node)
        (invalid_partition "ABTM row topology lookup failed during partition growth")
  let s' = visit_words rank target (record s { frontier = frontier; stats = stats }) (words row)
  let rest = do
    column ←
        map_err (Dual.column topology node)
          (invalid_partition "ABTM column topology lookup failed during partition growth")
    ok (visit_words rank target s' (words column))
  if s'.assigned == target then ok s' else rest

unfoldable pub expand : AbtmDualTopology → ℕ → ℕ → Growing → Result Growing
unfolding expand_node
expand topology rank target s = elim s.frontier [
  | [] ↦ ok s
  | node ∷ frontier ↦ expand_node topology rank target node frontier s
]

-- One round of the loop that fills a rank.
unfoldable pub grow_round : AbtmDualTopology → List ℕ → ℕ → ℕ → Growing → Result Growing
grow_round topology degree rank target s = elim s.frontier [
  | [] ↦ do
    s' ← seed_rank degree rank s
    let rest = expand topology rank target s'
    if s'.assigned == target then ok s' else rest
  | _ ∷ _ ↦ expand topology rank target s
]

-- `while assigned < target`. A round takes one node off the frontier, to which a DOF is added only
-- when it is assigned, so the fuel is the number of DOFs that are wanted.
unfoldable pub fill_rank : ℕ → AbtmDualTopology → List ℕ → ℕ → ℕ → Growing → Result Growing
unfolding grow_round
fill_rank zero topology degree rank target s = if ltb s.assigned target then panic else ok s
fill_rank (suc fuel) topology degree rank target s =
    let rest = grow_round topology degree rank target s >>= λ s'.
    fill_rank fuel topology degree rank target s' in
    if ltb s.assigned target then rest else ok s

unfoldable pub fill_next :
    AbtmDualTopology
    → List ℕ
    → List ℕ × AbtmPartitionStats
    → ℕ × ℕ
    → Result (List ℕ × AbtmPartitionStats)
unfolding fill_rank
fill_next topology degree (owners, stats) (rank_index, target) = do
  s ←
      fill_rank target topology degree (rank_index % two_32) target
        (record { owners = owners; assigned = 0; frontier = []; first_seed = true; stats = stats })
  ok (s.owners, s.stats)

unfoldable pub check_target : PartitionAssignment → Unit {0} → ℕ × ℕ → Result (Unit {0})
check_target assignment _ (rank, target) = do
  count ← owned_count assignment (rank % two_32)
  fail_if (not (count == target))
      (invalid_partition "ABTM partition did not preserve balanced target sizes")

-- `abtm_region_grow_partition`
unfoldable pub abtm_region_grow_partition :
    Csr32Matrix → ℕ → Result (PartitionAssignment × AbtmPartitionStats)
unfolding node_degree balanced_targets fill_next check_target
abtm_region_grow_partition matrix ranks = do
  fail_if (not (matrix.nrows == matrix.ncols)) (matrix_must_be_square matrix.nrows matrix.ncols)
  fail_if ((ranks == 0) || (ranks == unassigned) || (matrix.nrows == 0) || ltb matrix.nrows ranks)
      invalid_rank_count
  topology ←
      map_err (Dual.from_csr32 matrix) (invalid_partition "ABTM dual topology construction failed")
  degree ← try_map (node_degree topology) (range 0 matrix.nrows)
  let targets = balanced_targets matrix.nrows ranks
  let stats : AbtmPartitionStats = record {
    ranks = ranks;
    seeds_started = 0;
    disconnected_restarts = 0;
    frontier_nodes_expanded = 0;
    topology_words_visited = 0;
    candidate_neighbor_bits = 0;
    dual_topology_metadata_bytes = total_metadata_bytes (Dual.stats topology);
  }
  (owners, stats') ←
      try_fold (fill_next topology degree) (replicate matrix.nrows unassigned, stats)
        (enumerate 0 targets)
  fail_if (any (λ owner. owner == unassigned) owners)
      (invalid_partition "ABTM partition left unassigned DOFs")
  assignment ← from_owners ranks owners
  try_fold (check_target assignment) tt (enumerate 0 targets)
  ok (assignment, stats')
