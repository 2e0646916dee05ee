-- ===== src/Tests/Masks.antt =====
-- The masks of the unit tests of mask.rs, and the theorems on masks at such inputs.
use hybit.Base.{
  ℕ, ◌/◌, ◌%◌, ◌≡◌, ◌↔◌, refl, arith, Bool, true, not, ◌&&◌, ◌||◌, ◌==◌, ltb, List, [], ◌∷◌, foldl,
  length, ok, has, try_fold, IsAscending,
}
use hybit.Bits.{bit, ones, for_each_bit, count_ones, trailing_zeros}
use hybit.Bits.Loop.{for_each_bit-eq-foldl}
use hybit.Mask.{
  DofMask, from_indices, contains, mask_count_ones, union_assign, intersect_assign, and_not_assign,
  intersects, indices, or_word,
}
use hybit.Mask.Valid.{member, IsValid, IsMaskOf, IsValid-of_check, contains-eq-member}
use hybit.Mask.Algebra.{assign-IsMaskOf, intersects_iff}
use hybit.Mask.OrWord.{or_word-IsMaskOf}
use hybit.Mask.Indices.{indices_lem, from_indices-IsMaskOf, from_indices-indices}

abbrev five : List ℕ
five = 0 ∷ 1 ∷ 63 ∷ 64 ∷ 129 ∷ []

abbrev round_trip_mask : DofMask
round_trip_mask = record { len = 130; words = 0x8000000000000003 ∷ 1 ∷ 2 ∷ [] }

mask_round_trip :
    (from_indices 130 five ≡ ok round_trip_mask)
    × (indices round_trip_mask ≡ five)
    × (mask_count_ones round_trip_mask ≡ 5)
unfolding from_indices try_fold indices mask_count_ones trailing_zeros count_ones
mask_round_trip = (refl, refl, refl)

abbrev evens : DofMask
evens = record { len = 6; words = 0b010101 ∷ [] }

abbrev thirds : DofMask
thirds = record { len = 6; words = 0b001001 ∷ [] }

abbrev short : DofMask
short = record { len = 3; words = 0b101 ∷ [] }

evens-IsValid : IsValid evens
evens-IsValid = IsValid-of_check evens refl refl refl

thirds-IsValid : IsValid thirds
thirds-IsValid = IsValid-of_check thirds refl refl refl

round_trip_mask-IsValid : IsValid round_trip_mask
round_trip_mask-IsValid = IsValid-of_check round_trip_mask refl refl refl

for_each_bit-eq-foldl_example :
    for_each_bit {S = List ℕ} (λ s b. b ∷ s) [] 0b1011 ≡ foldl (λ s b. b ∷ s) [] (ones 0b1011)
for_each_bit-eq-foldl_example = for_each_bit-eq-foldl (λ s b. b ∷ s) [] 0b1011 (omega arith)

contains-eq-member_example : contains round_trip_mask 64 ≡ ok (member round_trip_mask 64)
contains-eq-member_example = contains-eq-member round_trip_mask 64 round_trip_mask-IsValid

assign-IsMaskOf_example :
    IsMaskOf 6 (λ i. member evens i || member thirds i) (union_assign evens thirds)
    × IsMaskOf 6 (λ i. member evens i && member thirds i) (intersect_assign evens thirds)
    × IsMaskOf 6 (λ i. member evens i && not (member thirds i)) (and_not_assign evens thirds)
assign-IsMaskOf_example = assign-IsMaskOf evens thirds evens-IsValid thirds-IsValid refl

intersects_iff_example :
    (answer : Bool) × (intersects evens thirds ≡ ok answer)
    × ((answer ≡ true) ↔ ((i : ℕ) × (member evens i ≡ true) × (member thirds i ≡ true)))
intersects_iff_example = intersects_iff evens thirds evens-IsValid refl

or_word-IsMaskOf_example :
    IsMaskOf 6
      (λ j. member evens j || (ltb j 6 && (0 == j / 64) && bit 0b11000010 (j % 64)))
      (ok (or_word evens 0 0b11000010))
or_word-IsMaskOf_example = or_word-IsMaskOf evens 0 0b11000010 evens-IsValid (omega arith)

indices_lem_example :
    IsAscending 0 (indices evens)
    × ((i : ℕ) → has (indices evens) i ≡ member evens i)
    × (length (indices evens) ≡ mask_count_ones evens)
indices_lem_example = indices_lem evens evens-IsValid

from_indices-IsMaskOf_example : IsMaskOf 130 (has five) (from_indices 130 five)
from_indices-IsMaskOf_example = from_indices-IsMaskOf 130 five (omega arith)

from_indices-indices_example : from_indices 130 (indices round_trip_mask) ≡ ok round_trip_mask
from_indices-indices_example = from_indices-indices round_trip_mask round_trip_mask-IsValid
