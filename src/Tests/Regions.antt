-- ===== src/Tests/Regions.antt =====
-- The chain of the unit tests of region.rs, 0 → 1 → 2 ← 3 with 4 isolated, and the theorems on
-- topologies and regions at it.
use hybit.Base.{ℕ, ◌≡◌, ◌↔◌, refl, arith, List, [], ◌∷◌, ok, try_fold}
use hybit.Bits.{count_ones, trailing_zeros}
use hybit.Mask
use hybit.Mask.{DofMask, indices, is_empty, and_not_assign, or_word, union_assign}
use hybit.Csr
use hybit.Topology.Build
use hybit.Topology.Row.{zip_words}
use hybit.Mask.Valid.{member, IsValid, IsValid-of_check, words_below}
use hybit.Csr.{Csr32Matrix}
use hybit.Topology
use hybit.Topology.{AbtmTopology}
use hybit.Topology.RowCheck.{Fits}
use hybit.Topology.Accepts.{IsWellFormed, validate-IsWellFormed}
use hybit.Dual
use hybit.Dual.{AbtmDualTopology}
use hybit.Dual.Valid.{IsDual, validate-IsDual}
use hybit.Region.{AbtmRegionGrowth, grow_undirected_region}
use hybit.Region.Reach.{IsRegionOf, grow_undirected_region_lem}

abbrev pub chain_matrix : Csr32Matrix
chain_matrix = record {
  nrows = 5;
  ncols = 5;
  row_ptr = 0 ∷ 1 ∷ 2 ∷ 2 ∷ 3 ∷ 3 ∷ [];
  col_idx = 1 ∷ 2 ∷ 2 ∷ [];
  values = 0x3ff0000000000000 ∷ 0x3ff0000000000000 ∷ 0x3ff0000000000000 ∷ [];
}

abbrev pub chain_rows : AbtmTopology
chain_rows = record {
  nrows = 5;
  ncols = 5;
  row_word_ptr = 0 ∷ 1 ∷ 2 ∷ 2 ∷ 3 ∷ 3 ∷ [];
  word_indices = 0 ∷ 0 ∷ 0 ∷ [];
  masks = 0b00010 ∷ 0b00100 ∷ 0b00100 ∷ [];
  structural_nnz = 3;
}

abbrev pub chain_columns : AbtmTopology
chain_columns = record {
  nrows = 5;
  ncols = 5;
  row_word_ptr = 0 ∷ 0 ∷ 1 ∷ 2 ∷ 2 ∷ 2 ∷ [];
  word_indices = 0 ∷ 0 ∷ [];
  masks = 0b00001 ∷ 0b01010 ∷ [];
  structural_nnz = 3;
}

abbrev pub chain : AbtmDualTopology
chain = record { rows = chain_rows; columns = chain_columns }

abbrev seed_0 : DofMask
seed_0 = record { len = 5; words = 0b00001 ∷ [] }

pub chain_built : Dual.from_csr32 chain_matrix ≡ ok chain
unfolding Dual.from_csr32 Csr.validate Build.from_csr32 try_fold count_ones
chain_built = refl

chain_validates : Dual.validate chain ≡ ok tt
unfolding Dual.validate Topology.validate try_fold count_ones
chain_validates = refl

-- The regions of the unit test `undirected_growth_uses_rows_and_columns`.
grown : ℕ → List ℕ
unfolding grow_undirected_region indices
grown hops = elim (grow_undirected_region chain seed_0 hops) [ ok g ↦ indices g.region | _ ↦ [] ]

grown_tests :
    (grown 0 ≡ 0 ∷ [])
    × (grown 1 ≡ 0 ∷ 1 ∷ [])
    × (grown 2 ≡ 0 ∷ 1 ∷ 2 ∷ [])
    × (grown 3 ≡ 0 ∷ 1 ∷ 2 ∷ 3 ∷ [])
    × (grown 9 ≡ 0 ∷ 1 ∷ 2 ∷ 3 ∷ [])
unfolding grown trailing_zeros is_empty count_ones try_fold Dual.row Topology.row Dual.column
    and_not_assign zip_words or_word Mask.new union_assign
grown_tests = (refl, refl, refl, refl, refl)

seed_0-IsValid : IsValid seed_0
seed_0-IsValid = IsValid-of_check seed_0 refl refl refl

pub chain_rows-Fits : Fits chain_rows
chain_rows-Fits = record {
  rows_fit = omega arith;
  columns_fit = omega arith;
  nnz_fits = omega arith;
  narrow = λ i. words_below chain_rows.masks i refl;
}

pub chain_columns-Fits : Fits chain_columns
chain_columns-Fits = record {
  rows_fit = omega arith;
  columns_fit = omega arith;
  nnz_fits = omega arith;
  narrow = λ i. words_below chain_columns.masks i refl;
}

pub chain_rows_validates : Topology.validate chain_rows ≡ ok tt
unfolding Topology.validate try_fold count_ones
chain_rows_validates = refl

validate-IsWellFormed_example : (Topology.validate chain_rows ≡ ok tt) ↔ IsWellFormed chain_rows
validate-IsWellFormed_example = validate-IsWellFormed chain_rows chain_rows-Fits

validate-IsDual_example : (Dual.validate chain ≡ ok tt) ↔ IsDual chain
validate-IsDual_example = validate-IsDual chain chain_rows-Fits chain_columns-Fits

grow_undirected_region_lem_example :
    (g : AbtmRegionGrowth) × (grow_undirected_region chain seed_0 2 ≡ ok g)
    × IsRegionOf chain 5 (member seed_0) 2 g.region
grow_undirected_region_lem_example =
    grow_undirected_region_lem chain seed_0 2 chain_validates chain_rows-Fits chain_columns-Fits
      refl refl seed_0-IsValid
