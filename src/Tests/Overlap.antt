-- ===== src/Tests/Overlap.antt =====
-- The overlapping regions of the unit tests of region.rs, and the theorem on multiplicities at them.
use hybit.Base.{◌≡◌, refl, arith, List, [], ◌∷◌, foldl, max, ltb, leb, ok}
use hybit.Bits.{count_ones}
use hybit.Mask.{DofMask, mask_count_ones}
use hybit.Mask.Valid.{IsValid-of_check}
use hybit.Region.Multiplicity.{AbtmRegionMultiplicity, region_multiplicity}
use hybit.Region.Pairs.{overlaps, region_multiplicity-overlaps}
use hybit.Region.Summary.{number, pairs_of}
use hybit.Region.Covered.{sizes, multiplicities, AllOver, region_multiplicity_lem}

-- {0, 1, 2, 5}, {1, 2, 3, 5} and {2, 4, 5} among eight nodes.
abbrev overlapping : List DofMask
overlapping =
    (record { len = 8; words = 0b00100111 ∷ [] })
    ∷ (record { len = 8; words = 0b00101110 ∷ [] })
    ∷ (record { len = 8; words = 0b00110100 ∷ [] })
    ∷ []

overlapping-AllOver : AllOver 8 overlapping
overlapping-AllOver = (
  IsValid-of_check (record { len = 8; words = 0b00100111 ∷ [] }) refl refl refl,
  refl,
  (
    IsValid-of_check (record { len = 8; words = 0b00101110 ∷ [] }) refl refl refl,
    refl,
    (IsValid-of_check (record { len = 8; words = 0b00110100 ∷ [] }) refl refl refl, refl, tt),
  ),
)

eleven : sizes overlapping ≡ 11
unfolding mask_count_ones count_ones
eleven = refl

counted : multiplicities 8 overlapping ≡ 1 ∷ 2 ∷ 3 ∷ 1 ∷ 1 ∷ 3 ∷ 0 ∷ 0 ∷ []
counted = refl

region_multiplicity_lem_example :
    region_multiplicity 8 overlapping
    ≡ ok (record {
      counts = multiplicities 8 overlapping;
      stats = record {
        region_count = 3;
        node_count = 8;
        total_memberships = sizes overlapping;
        covered_nodes = number (ltb 0) (multiplicities 8 overlapping);
        overlap_nodes = number (leb 2) (multiplicities 8 overlapping);
        max_multiplicity = foldl max 0 (multiplicities 8 overlapping);
        pair_overlap_memberships = pairs_of (multiplicities 8 overlapping);
      };
    })
region_multiplicity_lem_example =
    region_multiplicity_lem 8 overlapping (omega arith) overlapping-AllOver (omega arith)
      (omega (arith, eleven)) (omega arith)

totals :
    (number (ltb 0) (multiplicities 8 overlapping) ≡ 6)
    × (number (leb 2) (multiplicities 8 overlapping) ≡ 3)
    × (pairs_of (multiplicities 8 overlapping) ≡ 7)
totals = (refl, refl, refl)

region_multiplicity-overlaps_example :
    (m : AbtmRegionMultiplicity) × (region_multiplicity 8 overlapping ≡ ok m)
    × (m.stats.pair_overlap_memberships ≡ overlaps 8 overlapping)
region_multiplicity-overlaps_example =
    region_multiplicity-overlaps 8 overlapping (omega arith) overlapping-AllOver (omega arith)
      (omega (arith, eleven)) (omega arith)

seven : overlaps 8 overlapping ≡ 7
seven = refl
