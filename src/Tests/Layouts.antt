-- ===== src/Tests/Layouts.antt =====
-- The layout and the matrix of the unit tests of field_region.rs, nine DOFs in four blocks, and the
-- theorems on layouts and on their regions at it.
use hybit.Base.{
  ℕ, ◌+◌, ◌≤◌, ◌<◌, ◌≡◌, ◌≢◌, ◌↔◌, refl, arith, true, List, [], ◌∷◌, some, none, length, get_elem?,
  ok, err, try_fold,
}
use hybit.Bits.{count_ones, trailing_zeros}
use hybit.Core.{invalid_argument, dimension_mismatch}
use hybit.Mask
use hybit.Mask.{DofMask, indices, is_empty, contains, or_word, and_not_assign, union_assign}
use hybit.Mask.Valid.{member, IsValid, IsValid-of_check, words_below}
use hybit.Topology
use hybit.Topology.{AbtmTopology}
use hybit.Topology.Row.{zip_words}
use hybit.Dual
use hybit.Dual.{AbtmDualTopology}
use hybit.Region.{grow_undirected_region}
use hybit.Layout
use hybit.Layout.{
  DofBlock, DofAddress, FieldAwareDofLayout, node, multiplier, block_range, locate, field_mask,
  validate_square_matrix_size, total_dofs,
}
use hybit.Layout.Valid.{IsLayout, sum_components, new_iff}
use hybit.Layout.Locate.{locate-block_range}
use hybit.Layout.FieldMask.{field_mask-locate}
use hybit.FieldRegion.{
  FieldAwareRegionGrowth, close_to_field_blocks, field_block_owners, grow_field_aware_region,
}
use hybit.FieldRegion.Closure.{Together, close_to_field_blocks-Together}
use hybit.FieldRegion.Owners.{OwnsBlocks, field_block_owners_iff}
use hybit.FieldRegion.Hops.{Fitting, FieldWithin}
use hybit.FieldRegion.Reach.{grow_field_aware_region-FieldWithin}

abbrev mixed_blocks : List DofBlock
mixed_blocks =
    record { entity_kind = node; entity_id = 1; field_id = 1; components = 3 }
    ∷ record { entity_kind = node; entity_id = 1; field_id = 2; components = 1 }
    ∷ record { entity_kind = node; entity_id = 2; field_id = 1; components = 2 }
    ∷ record { entity_kind = multiplier; entity_id = 3; field_id = 5; components = 3 }
    ∷ []

abbrev mixed : FieldAwareDofLayout
mixed = record { blocks = mixed_blocks; offsets = 0 ∷ 3 ∷ 4 ∷ 6 ∷ 9 ∷ [] }

mixed_built : Layout.new mixed_blocks ≡ ok mixed
unfolding Layout.new try_fold
mixed_built = refl

repeated_refused :
    Layout.new (
      record { entity_kind = node; entity_id = 1; field_id = 3; components = 1 }
      ∷ record { entity_kind = node; entity_id = 1; field_id = 3; components = 4 }
      ∷ [])
    ≡ err (invalid_argument "duplicate DOF entity/field block")
unfolding Layout.new try_fold
repeated_refused = refl

new_iff_example :
    (Layout.new mixed_blocks ≡ ok mixed) ↔ ((mixed.blocks ≡ mixed_blocks) × IsLayout mixed)
new_iff_example = new_iff mixed_blocks mixed

locate_tests :
    (locate mixed 5 ≡ ok (some (record { block_index = 2; component = 1 })))
    × (locate mixed 9 ≡ ok none)
unfolding locate
locate_tests = (refl, refl)

locate-block_range_example :
    ((d : ℕ) → sum_components mixed_blocks ≤ d → locate mixed d ≡ ok none)
    × ((d : ℕ)
        → d < sum_components mixed_blocks
        → (a : DofAddress) × (start : ℕ) × (end : ℕ) × (locate mixed d ≡ ok (some a))
          × (block_range mixed a.block_index ≡ ok (some (start, end)))
          × (start + a.component ≡ d)
          × (d < end))
    × ((k c start end : ℕ)
        → block_range mixed k ≡ ok (some (start, end))
        → start + c < end
        → locate mixed (start + c) ≡ ok (some (record { block_index = k; component = c })))
locate-block_range_example = locate-block_range mixed_blocks mixed mixed_built (omega arith)

field_mask_tests : field_mask mixed 1 ≡ ok (record { len = 9; words = 0b000110111 ∷ [] })
unfolding field_mask try_fold Mask.new or_word
field_mask_tests = refl

field_mask-locate_example :
    (m : DofMask) × (field_mask mixed 1 ≡ ok m)
    × IsValid m
    × (m.len ≡ 9)
    × ((d : ℕ)
        → (member m d ≡ true) ↔ (
            (a : DofAddress) × (b : DofBlock) × (locate mixed d ≡ ok (some a))
            × (get_elem? mixed_blocks a.block_index ≡ some b)
            × (b.field_id ≡ 1)))
field_mask-locate_example = field_mask-locate mixed_blocks mixed 1 mixed_built (omega arith)

abbrev seed_0 : DofMask
seed_0 = record { len = 9; words = 0b000000001 ∷ [] }

seed_0-IsValid : IsValid seed_0
seed_0-IsValid = IsValid-of_check seed_0 refl refl refl

closure_test :
    close_to_field_blocks mixed seed_0 ≡ ok (record { len = 9; words = 0b000000111 ∷ [] })
unfolding close_to_field_blocks block_range total_dofs try_fold Mask.new or_word
closure_test = refl

close_to_field_blocks-Together_example :
    (9 ≡ sum_components mixed_blocks
      → (m : DofMask) × (close_to_field_blocks mixed seed_0 ≡ ok m)
        × IsValid m
        × (m.len ≡ 9)
        × ((j : ℕ)
            → (member m j ≡ true) ↔ ((i : ℕ) × Together mixed i j × (member seed_0 i ≡ true))))
    × (9 ≢ sum_components mixed_blocks
        → close_to_field_blocks mixed seed_0
          ≡ err (dimension_mismatch (sum_components mixed_blocks) 9))
close_to_field_blocks-Together_example =
    close_to_field_blocks-Together mixed_blocks mixed seed_0 mixed_built seed_0-IsValid

abbrev mixed_owners : List ℕ
mixed_owners = 0 ∷ 0 ∷ 0 ∷ 1 ∷ 1 ∷ 1 ∷ 2 ∷ 2 ∷ 2 ∷ []

owners_tests :
    (field_block_owners mixed mixed_owners 3 ≡ ok (0 ∷ 1 ∷ 1 ∷ 2 ∷ []))
    × (field_block_owners mixed (0 ∷ 0 ∷ 1 ∷ 1 ∷ 1 ∷ 1 ∷ 2 ∷ 2 ∷ 2 ∷ []) 3
        ≡ err (invalid_argument "MPI ownership splits a physical field block"))
unfolding field_block_owners block_range total_dofs try_fold
owners_tests = (refl, refl)

field_block_owners_iff_example :
    (field_block_owners mixed mixed_owners 3 ≡ ok (0 ∷ 1 ∷ 1 ∷ 2 ∷ [])) ↔ (
      (length mixed_owners ≡ sum_components mixed_blocks)
      × (0 < 3)
      × OwnsBlocks mixed mixed_owners 3 (0 ∷ 1 ∷ 1 ∷ 2 ∷ []))
field_block_owners_iff_example =
    field_block_owners_iff mixed_blocks mixed mixed_owners 3 (0 ∷ 1 ∷ 1 ∷ 2 ∷ []) mixed_built

abbrev mixed_rows : AbtmTopology
mixed_rows = record {
  nrows = 9;
  ncols = 9;
  row_word_ptr = 0 ∷ 1 ∷ 2 ∷ 3 ∷ 4 ∷ 5 ∷ 6 ∷ 7 ∷ 8 ∷ 9 ∷ [];
  word_indices = 0 ∷ 0 ∷ 0 ∷ 0 ∷ 0 ∷ 0 ∷ 0 ∷ 0 ∷ 0 ∷ [];
  masks = 17 ∷ 2 ∷ 4 ∷ 8 ∷ 16 ∷ 32 ∷ 96 ∷ 128 ∷ 256 ∷ [];
  structural_nnz = 11;
}

abbrev mixed_columns : AbtmTopology
mixed_columns = record mixed_rows { masks = 1 ∷ 2 ∷ 4 ∷ 8 ∷ 17 ∷ 96 ∷ 64 ∷ 128 ∷ 256 ∷ [] }

abbrev mixed_topology : AbtmDualTopology
mixed_topology = record { rows = mixed_rows; columns = mixed_columns }

mixed_validates : Dual.validate mixed_topology ≡ ok tt
unfolding Dual.validate Topology.validate try_fold count_ones
mixed_validates = refl

mixed-Fitting : Fitting mixed_topology mixed_blocks mixed
mixed-Fitting = record {
  accepted = mixed_validates;
  rows_fit = record {
    rows_fit = omega arith;
    columns_fit = omega arith;
    nnz_fits = omega arith;
    narrow = λ i. words_below mixed_rows.masks i refl;
  };
  columns_fit = record {
    rows_fit = omega arith;
    columns_fit = omega arith;
    nnz_fits = omega arith;
    narrow = λ i. words_below mixed_columns.masks i refl;
  };
  rows = refl;
  columns = refl;
  built = mixed_built;
}

-- The regions of the unit test `directed_zero_edge_and_contact_closure_match_reference`.
grown_fields : ℕ → List ℕ
unfolding grow_field_aware_region indices
grown_fields hops = elim (grow_field_aware_region mixed_topology mixed seed_0 hops) [
  | ok g ↦ indices g.region
  | _ ↦ []
]

grown_fields_tests :
    (grown_fields 0 ≡ 0 ∷ 1 ∷ 2 ∷ [])
    × (grown_fields 1 ≡ 0 ∷ 1 ∷ 2 ∷ 4 ∷ 5 ∷ [])
    × (grown_fields 2 ≡ 0 ∷ 1 ∷ 2 ∷ 4 ∷ 5 ∷ 6 ∷ 7 ∷ 8 ∷ [])
unfolding grown_fields grow_undirected_region close_to_field_blocks validate_square_matrix_size
    block_range total_dofs trailing_zeros is_empty count_ones try_fold Dual.row Topology.row
    Dual.column and_not_assign zip_words or_word contains Mask.new union_assign
grown_fields_tests = (refl, refl, refl)

grow_field_aware_region-FieldWithin_example :
    (g : FieldAwareRegionGrowth) × (grow_field_aware_region mixed_topology mixed seed_0 2 ≡ ok g)
    × IsValid g.region
    × (g.region.len ≡ 9)
    × ((j : ℕ) → (member g.region j ≡ true) ↔ FieldWithin mixed_topology mixed (member seed_0) 2 j)
grow_field_aware_region-FieldWithin_example =
    grow_field_aware_region-FieldWithin mixed_topology mixed_blocks mixed seed_0 2 mixed-Fitting
      seed_0-IsValid refl
