-- ===== src/Abtm/Apply.antt =====
-- The product of a tiled matrix with a vector (abtm.rs).
use hybit.Base.{
  ℕ, ◌+◌, ◌-◌, min, not, ◌==◌, ltb, if◌then◌else◌, List, length, range, ok, panic, at, fail_if,
  ◌>>=◌, ◌>>◌, try_fold, try_map,
}
use hybit.Bits.{for_each_bit}
use hybit.Core.{F64, dimension_mismatch, Result}
use hybit.Core.Float.{Arithmetic, zero_f64}
use hybit.Abtm.{
  sparse, bitmap, dense, TileDesc, tile_kind, tile_base_col, AbtmMatrix, tiles_of, tile_width,
}

module _ (fp : Arithmetic) where
  -- `AbtmMatrix::apply_compact_tile`: the state is the sum and the position of the next value.
  unfoldable pub apply_compact_tile : AbtmMatrix → TileDesc → List F64 → Result F64
  unfolding for_each_bit tile_base_col
  apply_compact_tile a tile x = do
    (sum, _) ←
        for_each_bit
          (λ r bit. r >>= λ s. at a.values s.1 >>= λ v.
            at x (tile_base_col tile + bit) >>= λ xi. ok (fp.add s.0 (fp.mul v xi), s.1 + 1))
          (ok (zero_f64, tile.value_offset)) tile.mask
    ok sum

  -- The loop over a dense tile. `self.ncols - base` panics or leads out of `x` where it underflows.
  unfoldable pub add_dense_tile : AbtmMatrix → TileDesc → List F64 → F64 → Result F64
  unfolding tile_base_col
  add_dense_tile a tile x sum =
      if ltb a.ncols (tile_base_col tile)
      then panic
      else try_fold
          (λ s j. at a.values (tile.value_offset + j) >>= λ v.
            at x (tile_base_col tile + j) >>= λ xi. ok (fp.add s (fp.mul v xi)))
          sum (range 0 (min (a.ncols - tile_base_col tile) tile_width))

  -- One tile of a row.
  unfoldable pub add_tile : AbtmMatrix → List F64 → F64 → TileDesc → Result F64
  unfolding tile_kind apply_compact_tile add_dense_tile
  add_tile a x sum tile = do
    kind ← tile_kind tile
    elim kind [
      | sparse ↦ apply_compact_tile a tile x >>= λ part. ok (fp.add sum part)
      | bitmap ↦ apply_compact_tile a tile x >>= λ part. ok (fp.add sum part)
      | dense ↦ add_dense_tile a tile x sum
    ]

  unfoldable pub tiled_row : AbtmMatrix → List F64 → ℕ → Result F64
  unfolding add_tile tiles_of
  tiled_row a x row = do tiles ← tiles_of a row; try_fold (add_tile a x) zero_f64 tiles

  -- `LinearOperator::apply` of the tiled matrix.
  unfoldable pub apply_tiled : AbtmMatrix → List F64 → List F64 → Result (List F64)
  unfolding tiled_row
  apply_tiled a x y = do
    fail_if (not (length x == a.ncols)) (dimension_mismatch a.ncols (length x))
    fail_if (not (length y == a.nrows)) (dimension_mismatch a.nrows (length y))
    try_map (tiled_row a x) (range 0 (length y))
