-- ===== src/Partition.antt =====
-- crates/hybit-distributed/src: which rank owns a degree of freedom. Contiguous partitions are those
-- of lib.rs, assignments of owners those of partition.rs; `Grow` has the partition by region growth, `Halo`
-- the halo plans of contiguous partitions.
pub mod Offsets
pub mod Balanced
pub mod Assignment
pub mod Grow
pub mod Halo
pub mod Telemetry
use hybit.Base.{
  ℕ, zero, suc, ◌+◌, ◌-◌, ◌/◌, ◌%◌, Bool, true, false, not, ◌&&◌, ◌||◌, ◌==◌, ltb, leb,
  if◌then◌else◌, List, [], ◌∷◌, ◌++◌, String, length, replicate, range, last?, any, foldl,
  get_elem?, partition_point, ok, err, panic, at, put, plus, minus, ok_or, fail_if, ◌>>=◌, ◌>>◌,
  try_fold, two_64, two_32,
}
use hybit.Base

pub data DistributedTopologyError : Type 0 where
  invalid_rank_count : DistributedTopologyError
  invalid_partition : String → DistributedTopologyError
  rank_out_of_range : (rank ranks : ℕ) → DistributedTopologyError
  global_dof_out_of_range : (global global_dofs : ℕ) → DistributedTopologyError
  matrix_must_be_square : (rows cols : ℕ) → DistributedTopologyError
  matrix_partition_mismatch : (matrix_rows global_dofs : ℕ) → DistributedTopologyError
  local_index_overflow : DistributedTopologyError
  vector_length_mismatch : (expected actual : ℕ) → DistributedTopologyError

abbrev pub Result {ℓ} : Type ℓ → Type ℓ
Result A = Base.Result DistributedTopologyError A

pub record ContiguousPartition : Type 0 where
  pub global_dofs : ℕ
  pub offsets : List ℕ

-- `offsets.windows(2).any(|pair| pair[0] >= pair[1])`
abbrev pub not_increasing : List ℕ → Bool
not_increasing [] = false
not_increasing (x ∷ []) = false
not_increasing (x ∷ y ∷ xs) = leb y x || not_increasing (y ∷ xs)

-- `ContiguousPartition::from_offsets`
unfoldable pub from_offsets : List ℕ → Result ContiguousPartition
from_offsets offsets = do
  fail_if (ltb (length offsets) 2) (invalid_partition "at least one rank is required")
  first ← at offsets 0
  fail_if (not (first == 0)) (invalid_partition "first offset must be zero")
  fail_if (not_increasing offsets)
      (invalid_partition "rank ownership ranges must be nonempty and strictly increasing")
  rank_count ← minus (length offsets) 1
  fail_if (ltb (two_32 - 1) rank_count) invalid_rank_count
  global_dofs ← ok_or (last? offsets) (invalid_partition "missing final global offset")
  ok (record { global_dofs = global_dofs; offsets = offsets })

-- `next += base + u64::from(rank < remainder); offsets.push(next)`
unfoldable pub push_offset : ℕ → ℕ → List ℕ × ℕ → ℕ → Result (List ℕ × ℕ)
push_offset base remainder (offsets, next) rank = do
  next' ← plus two_64 next (base + (if ltb rank remainder then 1 else 0))
  ok (offsets ++ next' ∷ [], next')

-- `ContiguousPartition::balanced`
unfoldable pub balanced : ℕ → ℕ → Result ContiguousPartition
unfolding push_offset
balanced global_dofs ranks = do
  fail_if ((ranks == 0) || (global_dofs == 0) || ltb global_dofs ranks) invalid_rank_count
  (offsets, _) ←
      try_fold (push_offset (global_dofs / ranks) (global_dofs % ranks)) (0 ∷ [], 0) (range 0 ranks)
  from_offsets offsets

-- `ContiguousPartition::rank_count`
unfoldable pub rank_count : ContiguousPartition → Result ℕ
rank_count p = do n ← minus (length p.offsets) 1; ok (n % two_32)

-- `ContiguousPartition::owned_range`
unfoldable pub owned_range : ContiguousPartition → ℕ → Result (ℕ × ℕ)
unfolding rank_count
owned_range p rank = do
  ranks ← rank_count p
  fail_if (leb ranks rank) (rank_out_of_range rank ranks)
  start ← at p.offsets rank
  end ← at p.offsets (rank + 1)
  ok (start, end)

-- `ContiguousPartition::owner_of`
unfoldable pub contiguous_owner_of : ContiguousPartition → ℕ → Result ℕ
contiguous_owner_of p global = do
  fail_if (leb p.global_dofs global) (global_dof_out_of_range global p.global_dofs)
  owner ← minus (partition_point (λ offset. leb offset global) p.offsets) 1
  ok (owner % two_32)

pub record PartitionAssignment : Type 0 where
  pub ranks : ℕ
  pub owners : List ℕ

-- `RankId::MAX`, which marks a DOF without an owner.
abbrev pub unassigned : ℕ
unassigned = two_32 - 1

-- One DOF is counted for its owner.
unfoldable pub count_owner : ℕ → List ℕ → ℕ → Result (List ℕ)
count_owner ranks counts owner = do
  fail_if (leb ranks owner) (rank_out_of_range owner ranks)
  count ← at counts owner
  put counts owner (count + 1)

-- `PartitionAssignment::from_owners`
unfoldable pub from_owners : ℕ → List ℕ → Result PartitionAssignment
unfolding count_owner
from_owners ranks owners = do
  fail_if ((ranks == 0) || (ranks == unassigned) || (length owners == 0)) invalid_rank_count
  fail_if (ltb (length owners) ranks) invalid_rank_count
  counts ← try_fold (count_owner ranks) (replicate ranks 0) owners
  fail_if (any (λ count. count == 0) counts)
      (invalid_partition "partition assignment contains an empty rank")
  ok (record { ranks = ranks; owners = owners })

-- `PartitionAssignment::owner_of`
unfoldable pub owner_of : PartitionAssignment → ℕ → Result ℕ
owner_of a global =
    ok_or (get_elem? a.owners global) (global_dof_out_of_range global (length a.owners))

-- `owners.iter().filter(|&&owner| owner == rank).count()`
abbrev pub count_of : ℕ → List ℕ → ℕ
count_of rank [] = 0
count_of rank (owner ∷ owners) = (if owner == rank then 1 else 0) + count_of rank owners

-- `PartitionAssignment::owned_count`
unfoldable pub owned_count : PartitionAssignment → ℕ → Result ℕ
owned_count a rank = do
  fail_if (leb a.ranks rank) (rank_out_of_range rank a.ranks)
  ok (count_of rank a.owners)

-- `owners[start..end].fill(rank)` for the ranks in turn.
abbrev pub fill_from : ℕ → ℕ → ℕ → List ℕ → List ℕ
fill_from start end rank [] = []
fill_from start end rank (x ∷ xs) =
    (if (start == 0) && ltb 0 end then rank else x) ∷ fill_from (start - 1) (end - 1) rank xs

unfoldable pub fill_rank_range : ContiguousPartition → List ℕ → ℕ → Result (List ℕ)
fill_rank_range p owners rank = do
  (start, end) ← owned_range p rank
  fail_if (leb two_64 start || leb two_64 end) local_index_overflow
  if leb start end && leb end (length owners) then ok (fill_from start end rank owners) else panic

-- `PartitionAssignment::from_contiguous`
unfoldable pub from_contiguous : ContiguousPartition → Result PartitionAssignment
unfolding fill_rank_range
from_contiguous p = do
  fail_if (leb two_64 p.global_dofs) local_index_overflow
  ranks ← rank_count p
  owners ← try_fold (fill_rank_range p) (replicate p.global_dofs 0) (range 0 ranks)
  from_owners ranks owners
