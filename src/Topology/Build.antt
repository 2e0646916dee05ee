-- ===== src/Topology/Build.antt =====
-- The construction of a topology from a structural CSR matrix (topology.rs).
use hybit.Base.{
  ℕ, zero, suc, ◌+◌, ◌-◌, ◌/◌, ◌%◌, Bool, false, not, ◌==◌, ltb, leb, if◌then◌else◌, List, [], ◌∷◌,
  map, length, first?, last?, any, range, ok, at, slice, fail_if, ◌>>=◌, ◌>>◌, try_fold, unwrap_or,
  saturating_add, two_64, two_32, bit_or,
}
use hybit.Bits.{one_shl}
use hybit.Core.{invalid_matrix, size_overflow, Result}
use hybit.Csr
use hybit.Csr.{Csr32Matrix, has_descent}
use hybit.Topology.{AbtmTopology, Filling, empty_filling, store_word, close_row, finish}
use hybit.Topology.Row.{found, insert_at, binary_search}

-- A row under construction: word indices with their masks.
abbrev pub RowWords : Type 0
RowWords = List (ℕ × ℕ)

-- `row_words[index].1 |= 1u64 << bit`
unfoldable pub or_at : RowWords → ℕ → ℕ → RowWords
or_at [] index bit = []
or_at ((w, m) ∷ ws) zero bit = (w, bit_or m (one_shl bit)) ∷ ws
or_at ((w, m) ∷ ws) (suc index) bit = (w, m) ∷ or_at ws index bit

-- `row_words.insert(index, (word, 1u64 << bit))`
unfoldable pub insert_word : RowWords → ℕ → ℕ → ℕ → RowWords
insert_word ws zero word bit = (word, one_shl bit) ∷ ws
insert_word [] (suc index) word bit = (word, one_shl bit) ∷ []
insert_word (w ∷ ws) (suc index) word bit = w ∷ insert_word ws index word bit

abbrev pub last_is : RowWords → ℕ → Bool
last_is [] word = false
last_is ((w, m) ∷ []) word = w == word
last_is ((w, m) ∷ x ∷ ws) word = last_is (x ∷ ws) word

-- `*last_mask |= 1u64 << bit`
unfoldable pub or_last : RowWords → ℕ → RowWords
or_last [] bit = []
or_last ((w, m) ∷ []) bit = (w, bit_or m (one_shl bit)) ∷ []
or_last ((w, m) ∷ x ∷ ws) bit = (w, m) ∷ or_last (x ∷ ws) bit

-- The body of the loop over the columns of a row.
unfoldable pub add_column : RowWords → ℕ → Result RowWords
unfolding or_at insert_word or_last binary_search
add_column ws col = do
  fail_if (ltb (two_32 - 1) (col / 64)) size_overflow
  ok (
      if last_is ws (col / 64)
      then or_last ws (col % 64)
      else elim (binary_search (col / 64) (map (λ w. w.0) ws)) [
        | found index ↦ or_at ws index (col % 64)
        | insert_at index ↦ insert_word ws index (col / 64) (col % 64)
      ])

-- One row of the loop over the rows.
unfoldable pub build_row : List ℕ → List ℕ → Filling → ℕ → Result Filling
unfolding add_column store_word close_row
build_row row_ptr col_idx f r = do
  start ← at row_ptr r
  end ← at row_ptr (r + 1)
  cols ← slice col_idx start end
  row_words ← try_fold add_column [] cols
  f' ← try_fold (λ f w. store_word f w.0 w.1) f row_words
  close_row f'

-- `AbtmTopology::from_structural_csr`
unfoldable pub from_structural_csr : ℕ → ℕ → List ℕ → List ℕ → Result AbtmTopology
unfolding build_row finish has_descent
from_structural_csr nrows ncols row_ptr col_idx = do
  fail_if (not (length row_ptr == saturating_add two_64 nrows 1))
      (invalid_matrix "ABTM topology structural row pointer length is invalid")
  fail_if (not (unwrap_or (first? row_ptr) 1 == 0))
      (invalid_matrix "ABTM topology structural row pointer must start at zero")
  fail_if (ltb (two_32 - 1) (length col_idx)) size_overflow
  fail_if (not (unwrap_or (last? row_ptr) 0 == length col_idx))
      (invalid_matrix "ABTM topology structural row pointer terminal offset is invalid")
  fail_if (has_descent row_ptr)
      (invalid_matrix "ABTM topology structural row pointer is not monotone")
  fail_if (any (λ c. leb ncols c) col_idx)
      (invalid_matrix "ABTM topology structural column index out of range")
  f ← try_fold (build_row row_ptr col_idx) empty_filling (range 0 nrows)
  finish nrows ncols f

-- `AbtmTopology::from_csr32`
unfoldable pub from_csr32 : Csr32Matrix → Result AbtmTopology
unfolding from_structural_csr
from_csr32 csr = Csr.validate csr >> from_structural_csr csr.nrows csr.ncols csr.row_ptr csr.col_idx
