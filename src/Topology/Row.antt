-- ===== src/Topology/Row.antt =====
-- The words of a topology row and the reads of a row (topology.rs).
pub mod Select
pub mod Columns
pub mod Rank
pub mod Contains
use hybit.Base.{
  ℕ, zero, suc, ◌+◌, ◌-◌, ◌*◌, ◌/◌, ◌%◌, Bool, false, not, ◌&&◌, ◌==◌, ltb, leb, if◌then◌else◌,
  List, [], ◌∷◌, Option, none, some, ok, at, fail_if, ◌>>=◌, ◌>>◌, bit_and, two_32,
}
use hybit.Bits.{one_shl, count_ones, trailing_zeros, clear_lowest}
use hybit.Core.{invalid_argument, Result}
use hybit.Topology.{AbtmTopologyRow}

pub record AbtmTopologyWord : Type 0 where
  pub word_index : ℕ
  pub mask : ℕ

abbrev pub base_col : AbtmTopologyWord → ℕ
base_col w = w.word_index * 64

abbrev pub popcount : AbtmTopologyWord → ℕ
popcount w = count_ones w.mask

abbrev pub contains_offset : AbtmTopologyWord → ℕ → Bool
contains_offset w offset = ltb offset 64 && not (bit_and w.mask (one_shl offset) == 0)

-- `AbtmTopologyWord::rank`
unfoldable pub word_rank : AbtmTopologyWord → ℕ → Result ℕ
word_rank w offset = do
  fail_if (ltb 64 offset) (invalid_argument "ABTM topology rank offset out of range")
  if offset == 64
      then ok (popcount w)
      else if offset == 0
      then ok 0
      else ok (count_ones (bit_and w.mask (one_shl offset - 1)))

-- `for _ in 0..ordinal { bits &= bits - 1; }`
pub clear_times : ℕ → ℕ → ℕ
clear_times zero bits = bits
clear_times (suc n) bits = clear_times n (clear_lowest bits)

-- `AbtmTopologyWord::select`
unfoldable pub word_select : AbtmTopologyWord → ℕ → Option ℕ
unfolding clear_times
word_select w ordinal =
    if leb (popcount w) ordinal then none else some (trailing_zeros (clear_times ordinal w.mask))

-- `AbtmTopologyRow::words`: the two slices, zipped.
unfoldable pub zip_words : List ℕ → List ℕ → List AbtmTopologyWord
zip_words [] masks = []
zip_words (i ∷ is) [] = []
zip_words (i ∷ is) (m ∷ ms) = record { word_index = i; mask = m } ∷ zip_words is ms

abbrev pub words : AbtmTopologyRow → List AbtmTopologyWord
words r = zip_words r.word_indices r.masks

unfoldable pub sum_popcounts : List ℕ → ℕ
sum_popcounts [] = 0
sum_popcounts (m ∷ ms) = count_ones m + sum_popcounts ms

-- `AbtmTopologyRow::popcount`
unfoldable pub row_popcount : AbtmTopologyRow → ℕ
unfolding sum_popcounts
row_popcount r = sum_popcounts r.masks

-- `binary_search` on an ascending slice: where the item is, or where it would be inserted.
pub data Search : Type 0 where
  found : ℕ → Search
  insert_at : ℕ → Search

abbrev pub one_later : Search → Search
one_later (found i) = found (suc i)
one_later (insert_at i) = insert_at (suc i)

unfoldable pub binary_search : ℕ → List ℕ → Search
binary_search x [] = insert_at 0
binary_search x (y ∷ ys) =
    let rest = one_later (binary_search x ys) in
    if y == x then found 0 else if ltb x y then insert_at 0 else rest

-- The bit of the word that a search found.
abbrev pub read_found : List ℕ → ℕ → Search → Result Bool
read_found masks offset (found index) =
    at masks index >>= λ m. ok (not (bit_and m (one_shl offset) == 0))
read_found masks offset (insert_at index) = ok false

-- `AbtmTopologyRow::contains`; the number of the word is cast to u32.
unfoldable pub row_contains : AbtmTopologyRow → ℕ → Result Bool
unfolding binary_search
row_contains r col =
    if leb r.ncols col
    then ok false
    else read_found r.masks (col % 64) (binary_search ((col / 64) % two_32) r.word_indices)

-- The loop of `AbtmTopologyRow::rank`: words before the target count whole, and the loop breaks
-- at the first that is not.
unfoldable pub rank_loop : ℕ → ℕ → List AbtmTopologyWord → ℕ → ℕ
rank_loop target_word target_offset [] rank = rank
rank_loop target_word target_offset (w ∷ ws) rank =
    let rest = rank_loop target_word target_offset ws (rank + popcount w) in
    if ltb w.word_index target_word
    then rest
    else if (w.word_index == target_word) && not (target_offset == 0)
    then rank + count_ones (bit_and w.mask (one_shl target_offset - 1))
    else rank

unfoldable pub row_rank : AbtmTopologyRow → ℕ → Result ℕ
unfolding rank_loop zip_words
row_rank r col = do
  fail_if (ltb r.ncols col) (invalid_argument "ABTM topology row rank column out of range")
  ok (rank_loop (col / 64) (col % 64) (words r) 0)

-- A column that a word selects, kept when it lies in the matrix.
abbrev pub in_columns : ℕ → ℕ → Option ℕ → Option ℕ
in_columns ncols base none = none
in_columns ncols base (some bit) = if ltb (base + bit) ncols then some (base + bit) else none

unfoldable pub select_loop : ℕ → List AbtmTopologyWord → ℕ → Option ℕ
unfolding word_select
select_loop ncols [] ordinal = none
select_loop ncols (w ∷ ws) ordinal =
    let rest = select_loop ncols ws (ordinal - popcount w) in
    if ltb ordinal (popcount w) then in_columns ncols (base_col w) (word_select w ordinal) else rest

-- `AbtmTopologyRow::select`
unfoldable pub row_select : AbtmTopologyRow → ℕ → Option ℕ
unfolding select_loop zip_words
row_select r ordinal = select_loop r.ncols (words r) ordinal
