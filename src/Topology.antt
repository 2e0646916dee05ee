-- ===== src/Topology.antt =====
-- crates/hybit-matrix/src/topology.rs: the sparsity pattern of a matrix as 64-bit words, row by
-- row, behind row pointers. `Row` has the reads of one row.
pub mod Row
pub mod Valid
pub mod Check
pub mod RowCheck
pub mod Accepts
pub mod Rows
pub mod Build
pub mod Combine
use hybit.Base.{
  ℕ, zero, suc, ◌+◌, ◌-◌, ◌*◌, Bool, true, false, not, ◌&&◌, ◌||◌, ◌==◌, ltb, leb, if◌then◌else◌,
  List, [], ◌∷◌, ◌++◌, length, first?, last?, range, Option, none, some, ok, err, at, slice,
  fail_if, ok_or, ◌>>=◌, ◌>>◌, try_fold, unwrap_or, checked_add, checked_mul, saturating_add,
  saturating_mul, two_64, two_32, bit_and, min,
}
use hybit.Bits.{one_shl, bit_not, count_ones}
use hybit.Core.{invalid_matrix, invalid_argument, size_overflow, Result}

pub record AbtmTopology : Type 0 where
  pub nrows : ℕ
  pub ncols : ℕ
  pub row_word_ptr : List ℕ
  pub word_indices : List ℕ
  pub masks : List ℕ
  pub structural_nnz : ℕ

pub record AbtmTopologyRow : Type 0 where
  pub ncols : ℕ
  pub word_indices : List ℕ
  pub masks : List ℕ

-- `AbtmTopology::row`
unfoldable pub row : AbtmTopology → ℕ → Result AbtmTopologyRow
row t r = do
  fail_if (leb t.nrows r) (invalid_argument "ABTM topology row index out of range")
  start ← at t.row_word_ptr r
  end ← at t.row_word_ptr (r + 1)
  words ← slice t.word_indices start end
  masks ← slice t.masks start end
  ok (record { ncols = t.ncols; word_indices = words; masks = masks })

pub record AbtmTopologyStats : Type 0 where
  pub nrows : ℕ
  pub ncols : ℕ
  pub structural_nnz : ℕ
  pub nonempty_words : ℕ
  pub metadata_bytes : ℕ

-- `AbtmTopology::stats`
unfoldable pub stats : AbtmTopology → AbtmTopologyStats
stats t = record {
  nrows = t.nrows;
  ncols = t.ncols;
  structural_nnz = t.structural_nnz;
  nonempty_words = length t.masks;
  metadata_bytes =
      saturating_add two_64
        (saturating_add two_64 (saturating_mul two_64 (length t.row_word_ptr) 4)
          (saturating_mul two_64 (length t.word_indices) 4))
        (saturating_mul two_64 (length t.masks) 8);
}

-- `previous_word.is_some_and(|previous| word <= previous)`
abbrev pub not_above : Option ℕ → ℕ → Bool
not_above none word = false
not_above (some previous) word = leb word previous

-- The bits beyond the columns in the last word of a row.
abbrev pub has_stray_bits : ℕ → ℕ → ℕ → Bool
has_stray_bits ncols base mask =
    ltb (ncols - base) 64 && not (bit_and mask (bit_not (one_shl (ncols - base) - 1)) == 0)

-- One stored word in `validate`: the state is the word before it and the count.
unfoldable pub check_word : AbtmTopology → Option ℕ × ℕ → ℕ → Result (Option ℕ × ℕ)
check_word t (previous, counted) index = do
  word ← at t.word_indices index
  mask ← at t.masks index
  fail_if (mask == 0) (invalid_matrix "ABTM topology stores an empty word")
  fail_if (not_above previous word)
      (invalid_matrix "ABTM topology row words are not strictly increasing")
  base ← ok_or (checked_mul two_64 word 64) size_overflow
  fail_if (leb t.ncols base) (invalid_matrix "ABTM topology word starts beyond matrix columns")
  fail_if (has_stray_bits t.ncols base mask)
      (invalid_matrix "ABTM topology has bits beyond matrix columns")
  counted' ← ok_or (checked_add two_64 counted (count_ones mask)) size_overflow
  ok (some word, counted')

unfoldable pub check_row : AbtmTopology → ℕ → ℕ → Result ℕ
unfolding check_word
check_row t counted r = do
  start ← at t.row_word_ptr r
  end ← at t.row_word_ptr (r + 1)
  fail_if (ltb end start || ltb (length t.masks) end)
      (invalid_matrix "ABTM topology row pointer is not monotone")
  s ← try_fold (check_word t) (none, counted) (range start (end - start))
  ok s.1

-- `AbtmTopology::validate`
unfoldable pub validate : AbtmTopology → Result (Unit {0})
unfolding check_row
validate t = do
  fail_if (not (length t.row_word_ptr == saturating_add two_64 t.nrows 1))
      (invalid_matrix "ABTM topology row pointer length is invalid")
  fail_if (not (unwrap_or (first? t.row_word_ptr) 1 == 0))
      (invalid_matrix "ABTM topology row pointer must start at zero")
  fail_if (not (length t.word_indices == length t.masks))
      (invalid_matrix "ABTM topology word/mask lengths differ")
  fail_if (not (unwrap_or (last? t.row_word_ptr) 0 == length t.masks))
      (invalid_matrix "ABTM topology row pointer terminal offset is invalid")
  counted ← try_fold (check_row t) 0 (range 0 t.nrows)
  fail_if (not (counted == t.structural_nnz))
      (invalid_matrix "ABTM topology structural nnz is inconsistent")
  ok tt

-- The vectors that the constructors fill.
pub record Filling : Type 0 where
  pub row_word_ptr : List ℕ
  pub word_indices : List ℕ
  pub masks : List ℕ
  pub structural_nnz : ℕ

abbrev pub empty_filling : Filling
empty_filling = record { row_word_ptr = 0 ∷ []; word_indices = []; masks = []; structural_nnz = 0 }

-- Storing one word of a row.
unfoldable pub store_word : Filling → ℕ → ℕ → Result Filling
store_word f word mask = do
  nnz ← ok_or (checked_add two_64 f.structural_nnz (count_ones mask)) size_overflow
  ok (record f {
    word_indices = f.word_indices ++ word ∷ [];
    masks = f.masks ++ mask ∷ [];
    structural_nnz = nnz;
  })

-- The end of a row.
unfoldable pub close_row : Filling → Result Filling
close_row f = do
  fail_if (ltb (two_32 - 1) (length f.masks)) size_overflow
  ok (record f { row_word_ptr = f.row_word_ptr ++ length f.masks ∷ [] })

-- The finished topology, after its own check.
unfoldable pub finish : ℕ → ℕ → Filling → Result AbtmTopology
unfolding validate
finish nrows ncols f =
    let t : AbtmTopology = record {
      nrows = nrows;
      ncols = ncols;
      row_word_ptr = f.row_word_ptr;
      word_indices = f.word_indices;
      masks = f.masks;
      structural_nnz = f.structural_nnz;
    } in
    validate t >> ok t
