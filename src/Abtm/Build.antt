-- ===== src/Abtm/Build.antt =====
-- The construction of the tiles from a CSR matrix (abtm.rs).
use hybit.Base.{
  ℕ, ◌+◌, ◌-◌, ◌/◌, ◌%◌, bit_or, ◌==◌, ltb, leb, if◌then◌else◌, List, [], ◌∷◌, ◌++◌, length, foldl,
  map, set, replicate, range, ok, at, ok_or, fail_if, ◌>>=◌, ◌>>◌, try_fold, checked_mul, two_64,
  two_32,
}
use hybit.Bits.{one_shl}
use hybit.Core.{F64, size_overflow, Result}
use hybit.Core.Float.{Arithmetic, zero_f64, is_zero}
use hybit.Csr
use hybit.Csr.{Csr32Matrix}
use hybit.Abtm.{
  TileKind, sparse, bitmap, dense, TileDesc, new_tile, AbtmConfig, validate_config, AbtmMatrix,
  tile_width,
}

-- `BTreeMap<u8, f64>` and `BTreeMap<usize, _>`, by ascending keys.
abbrev pub Entries : Type 0
Entries = List (ℕ × F64)

abbrev pub Blocks : Type 0
Blocks = List (ℕ × Entries)

-- The vectors that the rows fill.
pub record Tiling : Type 0 where
  pub row_tile_ptr : List ℕ
  pub tiles : List TileDesc
  pub values : List F64
  pub matrix_nnz : ℕ

-- `.filter(|(_, v)| *v != 0.0)`
unfoldable pub nonzero_entries : Entries → Entries
nonzero_entries [] = []
nonzero_entries ((offset, v) ∷ es) =
    if is_zero v then nonzero_entries es else (offset, v) ∷ nonzero_entries es

unfoldable pub choose_kind : AbtmConfig → ℕ → TileKind
choose_kind c nnz =
    if leb nnz c.sparse_max_nnz then sparse else if leb c.dense_min_nnz nnz then dense else bitmap

-- The values a tile stores.
abbrev pub tile_values : TileKind → Entries → List F64
tile_values sparse es = map (λ e. e.1) es
tile_values bitmap es = map (λ e. e.1) es
tile_values dense es = foldl (λ d e. set d e.0 e.1) (replicate tile_width zero_f64) es

unfoldable pub entries_mask : Entries → ℕ
entries_mask es = foldl (λ mask e. bit_or mask (one_shl e.0)) 0 es

-- One block of a row.
unfoldable pub add_block : AbtmConfig → Tiling → ℕ × Entries → Result Tiling
unfolding nonzero_entries choose_kind entries_mask new_tile
add_block config s (block, entries) =
    let canonical : Entries = nonzero_entries entries in
    let kind : TileKind = choose_kind config (length canonical) in
    if length canonical == 0 then ok s else do
      base ← ok_or (checked_mul two_64 block tile_width) size_overflow
      tile ← new_tile base (length s.values) (entries_mask canonical) kind
      ok (record {
        row_tile_ptr = s.row_tile_ptr;
        tiles = s.tiles ++ tile ∷ [];
        values = s.values ++ tile_values kind canonical;
        matrix_nnz = s.matrix_nnz + length canonical;
      })

module _ (fp : Arithmetic) where
  -- `*entries.entry(offset).or_default() += value`
  unfoldable pub add_entry : Entries → ℕ → F64 → Entries
  add_entry [] offset value = (offset, fp.add zero_f64 value) ∷ []
  add_entry ((k, v) ∷ es) offset value =
      let later = add_entry es offset value in
      if k == offset
      then (k, fp.add v value) ∷ es
      else if ltb offset k
      then (offset, fp.add zero_f64 value) ∷ (k, v) ∷ es
      else (k, v) ∷ later

  -- The same one level up: the entry goes to its block.
  unfoldable pub add_to_block : Blocks → ℕ → ℕ → F64 → Blocks
  unfolding add_entry
  add_to_block [] block offset value = (block, add_entry [] offset value) ∷ []
  add_to_block ((k, es) ∷ bs) block offset value =
      let later = add_to_block bs block offset value in
      if k == block
      then (k, add_entry es offset value) ∷ bs
      else if ltb block k
      then (block, add_entry [] offset value) ∷ (k, es) ∷ bs
      else (k, es) ∷ later

  -- One stored entry of the matrix.
  unfoldable pub scatter_entry : Csr32Matrix → Blocks → ℕ → Result Blocks
  unfolding add_to_block
  scatter_entry csr blocks p = do
    col ← at csr.col_idx p
    value ← at csr.values p
    if is_zero value
        then ok blocks
        else ok (add_to_block blocks (col / tile_width) (col % tile_width) value)

  unfoldable pub tile_row : Csr32Matrix → AbtmConfig → Tiling → ℕ → Result Tiling
  unfolding scatter_entry add_block
  tile_row csr config s row = do
    start ← at csr.row_ptr row
    end ← at csr.row_ptr (row + 1)
    blocks ← try_fold (scatter_entry csr) [] (range start (end - start))
    s' ← try_fold (add_block config) s blocks
    fail_if (ltb (two_32 - 1) (length s'.tiles)) size_overflow
    ok (record s' { row_tile_ptr = s'.row_tile_ptr ++ length s'.tiles ∷ [] })

  -- `AbtmMatrix::from_csr32`
  unfoldable pub tile_matrix : Csr32Matrix → AbtmConfig → Result AbtmMatrix
  unfolding tile_row validate_config
  tile_matrix csr config = do
    Csr.validate csr
    config' ← validate_config config
    s ←
        try_fold (tile_row csr config')
          (record { row_tile_ptr = 0 ∷ []; tiles = []; values = []; matrix_nnz = 0 })
          (range 0 csr.nrows)
    ok (record {
      nrows = csr.nrows;
      ncols = csr.ncols;
      row_tile_ptr = s.row_tile_ptr;
      tiles = s.tiles;
      values = s.values;
      matrix_nnz = s.matrix_nnz;
    })
