-- ===== src/FieldRegion.antt =====
-- crates/hybit-matrix/src/field_region.rs: sets of degrees of freedom closed over the blocks of a
-- layout, their growth, and the owners of blocks.
pub mod Words
pub mod Closure
pub mod Owners
pub mod Hops
pub mod Reach
use hybit.Base.{
  ℕ, zero, suc, ◌+◌, ◌-◌, ◌/◌, ◌%◌, bit_and, Bool, true, false, not, ◌&&◌, ◌||◌, ◌==◌, leb,
  if◌then◌else◌, List, [], ◌∷◌, ◌++◌, Option, length, range, take, drop, any, enumerate, foldl, ok,
  at, slice, minus, or_panic, fail_if, ◌>>=◌, ◌>>◌, try_fold, saturating_add, two_64,
}
use hybit.Bits.{one_shl}
use hybit.Core.{invalid_argument, dimension_mismatch, Result}
use hybit.Mask
use hybit.Mask.{DofMask, mask_count_ones, is_empty, contains, or_word, and_not_assign, union_assign}
use hybit.Dual
use hybit.Dual.{AbtmDualTopology}
use hybit.Layout.{
  DofBlock, FieldAwareDofLayout, total_dofs, block_range, to_usize, max_shl,
  validate_square_matrix_size,
}
use hybit.Region.{AbtmRegionGrowthStats, grow_undirected_region}
use hybit.Region.Pattern.{AbtmLocalSubmatrixPattern, extract_local_submatrix_pattern}

-- `check_mask_layout`
unfoldable pub check_mask_layout : FieldAwareDofLayout → DofMask → Result (Unit {0})
check_mask_layout layout mask = do
  total ← total_dofs layout
  len ← to_usize total
  fail_if (not (len == mask.len)) (dimension_mismatch len mask.len)

-- `low & high`: the DOFs from `start` up to `end` in a word between their words.
abbrev pub low_bits : ℕ → ℕ → ℕ
low_bits start word = if word == start / 64 then max_shl (start % 64) else two_64 - 1

abbrev pub high_bits : ℕ → ℕ → ℕ
high_bits end word =
    if (word == (end - 1) / 64) && not (end % 64 == 0) then one_shl (end % 64) - 1 else two_64 - 1

-- The loop that looks for a selected DOF among the words of a block.
abbrev pub block_hit : List ℕ → ℕ → ℕ → ℕ → Bool
block_hit words start end last =
    any
      (λ (entry : ℕ × ℕ).
        not (bit_and (bit_and entry.1 (low_bits start entry.0)) (high_bits end entry.0) == 0))
      (drop (start / 64) (take (last / 64 + 1) (enumerate 0 words)))

-- One round of the loop over the blocks.
unfoldable pub close_block : FieldAwareDofLayout → DofMask → DofMask → ℕ × DofBlock → Result DofMask
close_block layout selected result (block_index, _) = do
  found ← block_range layout block_index
  (start_64, end_64) ← or_panic found
  start ← to_usize start_64
  end ← to_usize end_64
  last ← minus end 1
  ok (
      if block_hit selected.words start end last
      then foldl (λ m word. or_word m word (bit_and (low_bits start word) (high_bits end word)))
          result (range (start / 64) (last / 64 + 1 - start / 64))
      else result)

-- `close_to_field_blocks`
unfoldable pub close_to_field_blocks : FieldAwareDofLayout → DofMask → Result DofMask
unfolding check_mask_layout close_block
close_to_field_blocks layout selected = do
  check_mask_layout layout selected
  try_fold (close_block layout selected) (Mask.new selected.len) (enumerate 0 layout.blocks)

pub record FieldAwareRegionStats : Type 0 where
  pub hops_requested : ℕ
  pub hops_completed : ℕ
  pub seed_dofs : ℕ
  pub block_closed_seed_dofs : ℕ
  pub region_dofs : ℕ
  pub region_blocks : ℕ
  pub frontier_dofs_visited : ℕ
  pub row_words_visited : ℕ
  pub column_words_visited : ℕ
  pub candidate_neighbor_bits : ℕ

pub record FieldAwareRegionGrowth : Type 0 where
  pub region : DofMask
  pub frontier : DofMask
  pub stats : FieldAwareRegionStats

-- `FieldAwareRegionGrowth::local_pattern`
unfoldable pub local_pattern :
    FieldAwareRegionGrowth → AbtmDualTopology → Result AbtmLocalSubmatrixPattern
local_pattern g topology = extract_local_submatrix_pattern topology g.region

-- The counters after a hop that took `s` steps over the topology.
abbrev pub add_hop : FieldAwareRegionStats → AbtmRegionGrowthStats → FieldAwareRegionStats
add_hop stats s = record stats {
  frontier_dofs_visited =
      saturating_add two_64 stats.frontier_dofs_visited s.frontier_nodes_visited;
  row_words_visited = saturating_add two_64 stats.row_words_visited s.row_words_visited;
  column_words_visited = saturating_add two_64 stats.column_words_visited s.column_words_visited;
  candidate_neighbor_bits =
      saturating_add two_64 stats.candidate_neighbor_bits s.candidate_neighbor_bits;
  hops_completed = stats.hops_completed + 1;
}

-- One round of the loop over the hops; `hops_completed` stays below the number requested.
unfoldable pub field_hop :
    AbtmDualTopology → FieldAwareDofLayout → FieldAwareRegionGrowth → Result FieldAwareRegionGrowth
field_hop topology layout g = do
  step ← grow_undirected_region topology g.frontier 1
  closed ← close_to_field_blocks layout step.region
  next ← and_not_assign closed g.region
  region ← union_assign g.region next
  ok (record { region = region; frontier = next; stats = add_hop g.stats step.stats })

-- The loop over the hops, which breaks at an empty frontier.
unfoldable pub field_loop :
    AbtmDualTopology
    → FieldAwareDofLayout
    → ℕ
    → FieldAwareRegionGrowth
    → Result FieldAwareRegionGrowth
unfolding field_hop
field_loop topology layout zero g = ok g
field_loop topology layout (suc hops) g =
    let rest = field_hop topology layout g >>= λ g'. field_loop topology layout hops g' in
    if is_empty g.frontier then ok g else rest

-- A block is counted when the region has its first DOF.
unfoldable pub count_block : FieldAwareDofLayout → DofMask → ℕ → ℕ × DofBlock → Result ℕ
count_block layout region count (index, _) = do
  found ← block_range layout index
  (start, _) ← or_panic found
  there ← contains region start
  ok (if there then count + 1 else count)

-- The variables before the loop over the hops.
abbrev pub start_fields : DofMask → DofMask → ℕ → FieldAwareRegionGrowth
start_fields seeds closed hops = record {
  region = closed;
  frontier = closed;
  stats = record {
    hops_requested = hops;
    hops_completed = 0;
    seed_dofs = mask_count_ones seeds;
    block_closed_seed_dofs = mask_count_ones closed;
    region_dofs = 0;
    region_blocks = 0;
    frontier_dofs_visited = 0;
    row_words_visited = 0;
    column_words_visited = 0;
    candidate_neighbor_bits = 0;
  };
}

-- `grow_field_aware_region`
unfoldable pub grow_field_aware_region :
    AbtmDualTopology → FieldAwareDofLayout → DofMask → ℕ → Result FieldAwareRegionGrowth
unfolding check_mask_layout field_loop count_block
grow_field_aware_region topology layout seeds hops = do
  validate_square_matrix_size layout (Dual.nrows topology) (Dual.ncols topology)
  check_mask_layout layout seeds
  closed ← close_to_field_blocks layout seeds
  g ← field_loop topology layout hops (start_fields seeds closed hops)
  blocks ← try_fold (count_block layout g.region) 0 (enumerate 0 layout.blocks)
  let s = g.stats
  ok (record g {
    stats = record s { region_dofs = mask_count_ones g.region; region_blocks = blocks };
  })

-- One round of the loop over the blocks in `field_block_owners`.
unfoldable pub push_owner : FieldAwareDofLayout → List ℕ → ℕ → List ℕ → ℕ → Result (List ℕ)
push_owner layout dof_owners ranks block_owners i = do
  found ← block_range layout i
  (start_64, end_64) ← or_panic found
  start ← to_usize start_64
  end ← to_usize end_64
  owner ← at dof_owners start
  fail_if (leb ranks owner) (invalid_argument "DOF owner rank out of range")
  own ← slice dof_owners start end
  fail_if (any (λ v. not (v == owner)) own)
      (invalid_argument "MPI ownership splits a physical field block")
  ok (block_owners ++ owner ∷ [])

-- `field_block_owners`
unfoldable pub field_block_owners : FieldAwareDofLayout → List ℕ → ℕ → Result (List ℕ)
unfolding push_owner
field_block_owners layout dof_owners ranks = do
  total ← total_dofs layout
  n ← to_usize total
  fail_if (not (length dof_owners == n)) (dimension_mismatch n (length dof_owners))
  fail_if (ranks == 0) (invalid_argument "MPI rank count must be positive")
  try_fold (push_owner layout dof_owners ranks) [] (range 0 (length layout.blocks))
