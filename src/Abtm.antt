-- ===== src/Abtm.antt =====
-- crates/hybit-matrix/src/abtm.rs: the matrix in tiles of 64 columns, each with a bitmap of the
-- columns it stores. The tile descriptor and its packing, the thresholds and the reads are here;
-- `Build` has the construction and `Apply` the product with a vector.
pub mod Tiles
pub mod Build
pub mod Apply
use hybit.Base.{
  ℕ, zero, suc, ◌+◌, ◌-◌, ◌*◌, ◌/◌, bit_and, bit_or, Bool, not, ◌||◌, ◌==◌, ltb, leb, if◌then◌else◌,
  List, [], ◌∷◌, length, foldl, ok, panic, at, slice, fail_if, ◌>>=◌, ◌>>◌, try_fold, two_32,
}
use hybit.Core.{F64, invalid_argument, invalid_matrix, dimension_mismatch, size_overflow, Result}
use hybit.Core.Float.{Arithmetic, zero_f64}
use hybit.Mask.{DofMask, indices, or_word}

abbrev pub tile_width : ℕ
tile_width = 64

abbrev pub kind_shift : ℕ
kind_shift = 0x40000000

abbrev pub base_word_mask : ℕ
base_word_mask = kind_shift - 1

pub data TileKind : Type 0 where
  sparse : TileKind
  bitmap : TileKind
  dense : TileKind

-- `kind as u32`
abbrev pub kind_code : TileKind → ℕ
kind_code sparse = 0
kind_code bitmap = 1
kind_code dense = 2

pub record TileDesc : Type 0 where
  pub mask : ℕ
  pub value_offset : ℕ
  pub meta : ℕ

-- `TileDesc::new`
unfoldable pub new_tile : ℕ → ℕ → ℕ → TileKind → Result TileDesc
new_tile base value_offset mask kind = do
  fail_if (ltb base_word_mask (base / tile_width) || ltb (two_32 - 1) value_offset) size_overflow
  ok (record {
    mask = mask;
    value_offset = value_offset;
    meta = bit_or (base / tile_width) (kind_code kind * kind_shift);
  })

abbrev pub decode_kind : ℕ → Result TileKind
decode_kind code =
    if code == 0
    then ok sparse
    else if code == 1
    then ok bitmap
    else if code == 2
    then ok dense
    else panic

-- `TileDesc::kind`
unfoldable pub tile_kind : TileDesc → Result TileKind
tile_kind t = decode_kind (t.meta / kind_shift)

-- `TileDesc::base_col`
unfoldable pub tile_base_col : TileDesc → ℕ
tile_base_col t = bit_and t.meta base_word_mask * tile_width

pub record AbtmConfig : Type 0 where
  pub sparse_max_nnz : ℕ
  pub dense_min_nnz : ℕ

abbrev pub default_config : AbtmConfig
default_config = record { sparse_max_nnz = 8; dense_min_nnz = 40 }

-- `AbtmConfig::validate`
unfoldable pub validate_config : AbtmConfig → Result AbtmConfig
validate_config c = do
  fail_if
      ((c.sparse_max_nnz == 0)
        || ltb tile_width c.dense_min_nnz
        || leb c.dense_min_nnz c.sparse_max_nnz)
      (invalid_argument "invalid ABTM density thresholds")
  ok c

pub record AbtmStats : Type 0 where
  pub nrows : ℕ
  pub ncols : ℕ
  pub matrix_nnz : ℕ
  pub tiles : ℕ
  pub sparse_tiles : ℕ
  pub bitmap_tiles : ℕ
  pub dense_tiles : ℕ
  pub value_slots : ℕ
  pub metadata_bytes : ℕ

abbrev pub metadata_bytes_per_nnz : Arithmetic → AbtmStats → F64
metadata_bytes_per_nnz fp s =
    if s.matrix_nnz == 0
    then zero_f64
    else fp.div (fp.of_usize s.metadata_bytes) (fp.of_usize s.matrix_nnz)

abbrev pub total_estimated_bytes : AbtmStats → ℕ
total_estimated_bytes s = s.metadata_bytes + s.value_slots * 8

pub record AbtmMatrix : Type 0 where
  pub nrows : ℕ
  pub ncols : ℕ
  pub row_tile_ptr : List ℕ
  pub tiles : List TileDesc
  pub values : List F64
  pub matrix_nnz : ℕ

-- `&self.tiles[start..end]`, which panics out of range.
unfoldable pub tiles_of : AbtmMatrix → ℕ → Result (List TileDesc)
tiles_of a row = do
  start ← at a.row_tile_ptr row
  end ← at a.row_tile_ptr (row + 1)
  slice a.tiles start end

-- `AbtmMatrix::expand_mask_one_hop`
unfoldable pub expand_mask_one_hop : AbtmMatrix → DofMask → Result DofMask
unfolding tiles_of tile_base_col
expand_mask_one_hop a mask = do
  fail_if (not (a.nrows == a.ncols)) (invalid_matrix "mask expansion requires a square ABTM matrix")
  fail_if (not (mask.len == a.nrows)) (dimension_mismatch a.nrows mask.len)
  try_fold
      (λ expanded row. tiles_of a row >>= λ tiles.
        ok (foldl (λ m t. or_word m (tile_base_col t / tile_width) t.mask) expanded tiles))
      mask (indices mask)

-- `AbtmMatrix::row_tiles`
unfoldable pub row_tiles : AbtmMatrix → ℕ → Result (List TileDesc)
unfolding tiles_of
row_tiles a row = do
  fail_if (leb a.nrows row) (invalid_argument "ABTM row index out of range")
  tiles_of a row

-- The counter of a tile's kind.
abbrev pub count_kind : AbtmStats → TileKind → AbtmStats
count_kind s sparse = record s { sparse_tiles = s.sparse_tiles + 1 }
count_kind s bitmap = record s { bitmap_tiles = s.bitmap_tiles + 1 }
count_kind s dense = record s { dense_tiles = s.dense_tiles + 1 }

-- `AbtmMatrix::stats`; a descriptor has 16 bytes.
unfoldable pub stats : AbtmMatrix → Result AbtmStats
unfolding tile_kind
stats a =
    try_fold (λ s t. tile_kind t >>= λ k. ok (count_kind s k))
      (record {
        nrows = a.nrows;
        ncols = a.ncols;
        matrix_nnz = a.matrix_nnz;
        tiles = length a.tiles;
        sparse_tiles = 0;
        bitmap_tiles = 0;
        dense_tiles = 0;
        value_slots = length a.values;
        metadata_bytes = length a.row_tile_ptr * 4 + length a.tiles * 16;
      })
      a.tiles
