-- ===== src/Tests/Partitions.antt =====
-- Partitions of ten DOFs over three ranks, the partition of the chain of the unit tests of region.rs
-- over two ranks, and the theorems on partitions at them.
use hybit.Base.{
  ℕ, ◌+◌, ◌/◌, ◌%◌, ◌≤◌, ◌<◌, ◌≡◌, ◌≢◌, ◌⊎◌, ◌↔◌, refl, arith, ltb, if◌then◌else◌, List, [], ◌∷◌,
  length, ok, err, try_fold, try_map,
}
use hybit.Bits.{count_ones, trailing_zeros, clear_lowest}
use hybit.Csr
use hybit.Topology
use hybit.Topology.Build
use hybit.Dual
use hybit.Topology.Row.{zip_words, sum_popcounts, row_popcount}
use hybit.Partition.{
  ContiguousPartition, PartitionAssignment, invalid_rank_count, invalid_partition,
  rank_out_of_range, matrix_must_be_square, global_dof_out_of_range, unassigned, from_offsets,
  balanced, rank_count, owned_range, contiguous_owner_of, from_owners, owner_of, owned_count,
  from_contiguous,
}
use hybit.Partition.Offsets.{contiguous_owner_of-owned_range}
use hybit.Partition.Balanced.{balanced-owned_range}
use hybit.Partition.Assignment.{IsAssignment, from_owners_iff}
use hybit.Partition.Grow.{
  AbtmPartitionStats, abtm_region_grow_partition, claim_bits, visit_words, seed_rank, expand_node,
  expand, choose_seed, choose_from, keep_best, fill_next, check_target, node_degree,
  balanced_targets,
}
use hybit.Partition.Grow.Balance.{abtm_region_grow_partition-owned_count}
use hybit.Tests.Regions.{chain, chain_matrix, chain_built, chain_rows-Fits, chain_columns-Fits}

abbrev ten_dofs : ContiguousPartition
ten_dofs = record { global_dofs = 10; offsets = 0 ∷ 4 ∷ 7 ∷ 10 ∷ [] }

ten_built : from_offsets (0 ∷ 4 ∷ 7 ∷ 10 ∷ []) ≡ ok ten_dofs
unfolding from_offsets
ten_built = refl

contiguous_tests :
    (balanced 10 3 ≡ ok ten_dofs)
    × (contiguous_owner_of ten_dofs 6 ≡ ok 1)
    × (owned_range ten_dofs 1 ≡ ok (4, 7))
    × (owned_range ten_dofs 3 ≡ err (rank_out_of_range 3 3))
    × (from_offsets (0 ∷ 4 ∷ 4 ∷ [])
        ≡ err (invalid_partition "rank ownership ranges must be nonempty and strictly increasing"))
unfolding balanced from_offsets contiguous_owner_of owned_range try_fold
contiguous_tests = (refl, refl, refl, refl, refl)

spread : PartitionAssignment
spread = record { ranks = 3; owners = 0 ∷ 0 ∷ 0 ∷ 0 ∷ 1 ∷ 1 ∷ 1 ∷ 2 ∷ 2 ∷ 2 ∷ [] }

-- Among them the unit test `explicit_owner_labels_reject_empty_rank`.
assignment_tests :
    (from_contiguous ten_dofs ≡ ok spread)
    × (owner_of spread 6 ≡ ok 1)
    × (owned_count spread 2 ≡ ok 3)
    × (from_owners 3 (0 ∷ 0 ∷ 1 ∷ 1 ∷ [])
        ≡ err (invalid_partition "partition assignment contains an empty rank"))
unfolding spread from_contiguous from_owners owner_of owned_count owned_range try_fold
assignment_tests = (refl, refl, refl, refl)

abbrev halves : PartitionAssignment
halves = record { ranks = 2; owners = 0 ∷ 0 ∷ 0 ∷ 1 ∷ 1 ∷ [] }

grown_owners : ℕ → List ℕ
unfolding abtm_region_grow_partition
grown_owners ranks = elim (abtm_region_grow_partition chain_matrix ranks) [
  | ok (a, _) ↦ a.owners
  | _ ↦ []
]

grown_tests : (grown_owners 2 ≡ halves.owners) × (grown_owners 0 ≡ [])
unfolding grown_owners Dual.from_csr32 Csr.validate Build.from_csr32 try_fold try_map count_ones
    Dual.row Dual.column Topology.row row_popcount zip_words sum_popcounts seed_rank expand
    choose_seed claim_bits visit_words trailing_zeros fill_next check_target from_owners owned_count
    node_degree balanced_targets keep_best choose_from expand_node clear_lowest
grown_tests = (refl, refl)

contiguous_owner_of-owned_range_example :
    ((g : ℕ)
      → g < 10
      → (r : ℕ) × (start : ℕ) × (end : ℕ) × (contiguous_owner_of ten_dofs g ≡ ok r)
        × (owned_range ten_dofs r ≡ ok (start, end))
        × (start ≤ g)
        × (g < end))
    × ((r start end g : ℕ)
        → owned_range ten_dofs r ≡ ok (start, end)
        → start ≤ g
        → g < end
        → contiguous_owner_of ten_dofs g ≡ ok r)
    × ((g : ℕ) → 10 ≤ g → contiguous_owner_of ten_dofs g ≡ err (global_dof_out_of_range g 10))
contiguous_owner_of-owned_range_example =
    contiguous_owner_of-owned_range (0 ∷ 4 ∷ 7 ∷ 10 ∷ []) ten_dofs ten_built

balanced-owned_range_example :
    ((◌≡◌ {A = ℕ} 3 0) ⊎ (10 < 3) → balanced 10 3 ≡ err invalid_rank_count)
    × (0 < 3
        → 3 ≤ 10
        → (p : ContiguousPartition) × (balanced 10 3 ≡ ok p)
          × (p.global_dofs ≡ 10)
          × (rank_count p ≡ ok 3)
          × ((r : ℕ)
              → r < 3
              → (start : ℕ) × (end : ℕ) × (owned_range p r ≡ ok (start, end))
                × (end ≡ start + 10 / 3 + (if ltb r (10 % 3) then 1 else 0))))
balanced-owned_range_example = balanced-owned_range 10 3 (omega arith) (omega arith)

from_owners_iff_example :
    (from_owners 2 (0 ∷ 0 ∷ 0 ∷ 1 ∷ 1 ∷ []) ≡ ok halves)
    ↔ ((halves ≡ record { ranks = 2; owners = 0 ∷ 0 ∷ 0 ∷ 1 ∷ 1 ∷ [] }) × IsAssignment halves)
from_owners_iff_example = from_owners_iff 2 (0 ∷ 0 ∷ 0 ∷ 1 ∷ 1 ∷ []) halves

abtm_region_grow_partition-owned_count_example :
    (chain_matrix.nrows ≢ chain_matrix.ncols
      → abtm_region_grow_partition chain_matrix 2
        ≡ err (matrix_must_be_square chain_matrix.nrows chain_matrix.ncols))
    × (chain_matrix.nrows ≡ chain_matrix.ncols
        → (◌≡◌ {A = ℕ} 2 0) ⊎ (2 ≡ unassigned) ⊎ (chain_matrix.nrows < 2)
        → abtm_region_grow_partition chain_matrix 2 ≡ err invalid_rank_count)
    × (chain_matrix.nrows ≡ chain_matrix.ncols
        → 0 < 2
        → 2 ≢ unassigned
        → 2 ≤ chain_matrix.nrows
        → (a : PartitionAssignment) × (stats : AbtmPartitionStats) × (abtm_region_grow_partition
              chain_matrix 2
            ≡ ok (a, stats))
          × IsAssignment a
          × (a.ranks ≡ 2)
          × (length a.owners ≡ chain_matrix.nrows)
          × ((r : ℕ)
              → r < 2
              → owned_count a r
                ≡ ok (chain_matrix.nrows / 2 + (if ltb r (chain_matrix.nrows % 2) then 1 else 0))))
abtm_region_grow_partition-owned_count_example =
    abtm_region_grow_partition-owned_count chain_matrix 2 chain chain_built chain_rows-Fits
      chain_columns-Fits (omega arith)
