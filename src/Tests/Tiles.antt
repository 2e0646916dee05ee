-- ===== src/Tests/Tiles.antt =====
-- A tile of columns 128 to 191, and the theorem on descriptors at it.
use hybit.Base.{◌*◌, ◌/◌, ◌≤◌, ◌<◌, ◌≡◌, ◌⊎◌, ok, err, two_32}
use hybit.Core.{size_overflow}
use hybit.Abtm.{TileDesc, bitmap, kind_shift, tile_width, new_tile, tile_kind, tile_base_col}
use hybit.Abtm.Tiles.{new_tile-tile_kind}

new_tile-tile_kind_example :
    (128 / tile_width < kind_shift
      → 7 < two_32
      → (t : TileDesc) × (new_tile 128 7 0b1011 bitmap ≡ ok t)
        × (tile_kind t ≡ ok bitmap)
        × (tile_base_col t ≡ 128 / tile_width * tile_width)
        × (t.mask ≡ 0b1011)
        × (t.value_offset ≡ 7))
    × ((kind_shift ≤ 128 / tile_width) ⊎ (two_32 ≤ 7)
        → new_tile 128 7 0b1011 bitmap ≡ err size_overflow)
new_tile-tile_kind_example = new_tile-tile_kind 128 7 0b1011 bitmap
