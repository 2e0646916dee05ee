-- ===== src/Tests/Rows.antt =====
-- The rows of the unit tests of topology.rs, and the theorems on rows at them.
use hybit.Base.{
  ℕ, ◌+◌, ◌*◌, ◌<◌, ◌≤◌, ◌≡◌, ◌↔◌, refl, arith, true, [], ◌∷◌, length, some, get_elem?, ok, err,
  has, two_32,
}
use hybit.Bits.{bit, ones, count_ones}
use hybit.Core.{invalid_argument}
use hybit.Topology.{AbtmTopologyRow, row}
use hybit.Topology.Row.{
  AbtmTopologyWord, popcount, words, zip_words, word_rank, word_select, row_rank, row_select,
  row_contains,
}
use hybit.Topology.Row.Select.{below, word_select-eq-get_elem?, word_rank-word_select}
use hybit.Topology.Row.Columns.{columns}
use hybit.Topology.Row.Rank.{IsRow, row_select-row_rank, row_rank-row_select}
use hybit.Topology.Row.Contains.{row_contains-eq-has, row_contains_aliases}
use hybit.Topology.Rows.{IsStored, row-IsRow}
use hybit.Tests.Regions.{chain_rows, chain_rows-Fits, chain_rows_validates}

-- `word_rank_and_select_are_inverse`
abbrev sparse_word : AbtmTopologyWord
sparse_word = record { word_index = 3; mask = 0x8000000000020005 }

word_select-eq-get_elem?_example : word_select sparse_word 2 ≡ get_elem? (ones 0x8000000000020005) 2
word_select-eq-get_elem?_example = word_select-eq-get_elem? sparse_word 2 (omega arith)

four : popcount sparse_word ≡ 4
unfolding count_ones
four = refl

word_rank-word_select_example :
    (offset : ℕ) × (word_select sparse_word 2 ≡ some offset)
    × (bit 0x8000000000020005 offset ≡ true)
    × (word_rank sparse_word offset ≡ ok 2)
word_rank-word_select_example =
    word_rank-word_select sparse_word 2 (omega arith) (omega (arith, four))

-- `row_rank_and_select_are_inverse_across_words`: columns 0, 2, 63, 64, 127 and 129.
abbrev long_row : AbtmTopologyRow
long_row = record {
  ncols = 130;
  word_indices = 0 ∷ 1 ∷ 2 ∷ [];
  masks = 0x8000000000000005 ∷ 0x8000000000000001 ∷ 0b10 ∷ [];
}

long_row_columns : columns (words long_row) ≡ 0 ∷ 2 ∷ 63 ∷ 64 ∷ 127 ∷ 129 ∷ []
unfolding ones zip_words
long_row_columns = refl

long_row-IsRow : IsRow long_row
unfolding ones zip_words
long_row-IsRow = record { ascend = omega arith; inside = omega arith }

row_select-row_rank_example :
    ((ordinal : ℕ) → row_select long_row ordinal ≡ get_elem? (columns (words long_row)) ordinal)
    × ((col : ℕ)
        → col ≤ 130
        → row_rank long_row col ≡ ok (length (below col (columns (words long_row)))))
row_select-row_rank_example = row_select-row_rank long_row long_row-IsRow

five_below : 5 < length (columns (words long_row))
five_below = rw long_row_columns (omega arith)

row_rank-row_select_example :
    (col : ℕ) × (row_select long_row 5 ≡ some col) × (col < 130) × (row_rank long_row col ≡ ok 5)
row_rank-row_select_example = row_rank-row_select long_row 5 long_row-IsRow five_below

row_contains-eq-has_example : row_contains long_row 127 ≡ ok (has (columns (words long_row)) 127)
row_contains-eq-has_example = row_contains-eq-has long_row 127 long_row-IsRow refl (omega arith)

-- A row of a matrix with 2^39 columns.
abbrev wide_row : AbtmTopologyRow
wide_row = record { ncols = 549755813888; word_indices = 0 ∷ []; masks = 0b100 ∷ [] }

row_contains_aliases_example : row_contains wide_row (2 + 64 * two_32) ≡ row_contains wide_row 2
row_contains_aliases_example = row_contains_aliases wide_row 2 (omega arith)

row-IsRow_example :
    (1 < chain_rows.nrows
      → (found : AbtmTopologyRow) × (row chain_rows 1 ≡ ok found)
        × (found.ncols ≡ chain_rows.ncols)
        × IsRow found
        × ((column : ℕ)
            → (has (columns (words found)) column ≡ true) ↔ IsStored chain_rows 1 column))
    × (chain_rows.nrows ≤ 1
        → row chain_rows 1 ≡ err (invalid_argument "ABTM topology row index out of range"))
row-IsRow_example = row-IsRow chain_rows 1 chain_rows-Fits chain_rows_validates
