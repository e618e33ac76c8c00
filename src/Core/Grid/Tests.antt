-- ===== src/Core/Grid/Tests.antt =====
-- The grid at concrete coordinates.
use time_shade_db.Prelude.{ℕ, ◌<◌, ◌≡◌, refl, arith, List, All, length, Option, some, true}
use time_shade_db.Prelude.Int.{ℤ, pos, negsuc, ◌-ℤ◌, ◌+ℤ◌}
use time_shade_db.Core.Time.{floor_div}
use time_shade_db.Core.Grid.{
  ChunkCoord, TileCoord, tile, chunk, parent, children, ancestor, is_valid,
}
use time_shade_db.Core.Grid.Chunks.{chunk-tile}
use time_shade_db.Core.Grid.Levels.{coord, parent-children}
use time_shade_db.Core.Grid.Regions.{IsWithin, ancestor-IsWithin}

-- A chunk left of the origin.
abbrev near_chunk : ChunkCoord
near_chunk = record { x = negsuc 8; y = pos 23 }

tile_test : tile near_chunk ≡ (coord (pos 0) (negsuc 0) (pos 1), 255)
unfolding tile floor_div time_shade_db.Prelude.Int.int32 time_shade_db.Prelude.Int.int64 ◌-ℤ◌
    time_shade_db.Prelude.xor ◌+ℤ◌ time_shade_db.Prelude.Int.◌*ℤ◌
tile_test = refl

chunk-tile_example : chunk (tile near_chunk).0 (tile near_chunk).1 ≡ near_chunk
chunk-tile_example = chunk-tile near_chunk (omega arith) (omega arith)

parent-children_example :
    (cs : List TileCoord) × (children (coord (negsuc 3) (negsuc 2) (pos 5)) ≡ some cs)
    × (length cs ≡ 4)
    × All (λ c. parent c ≡ coord (negsuc 3) (negsuc 2) (pos 5)) cs
parent-children_example =
    parent-children 3 (negsuc 2) (pos 5) (omega arith) (omega arith, omega arith)
      (omega arith, omega arith)

abbrev near_tile : TileCoord
near_tile = coord (pos 0) (negsuc 2) (pos 5)

near_tile_valid : is_valid near_tile ≡ true
unfolding is_valid ◌-ℤ◌
near_tile_valid = refl

ancestor-IsWithin_example :
    (u : TileCoord) × (ancestor near_tile (negsuc 4) ≡ some u)
    × (is_valid u ≡ true)
    × (u.z ≡ negsuc 4)
    × IsWithin near_tile u
ancestor-IsWithin_example =
    ancestor-IsWithin near_tile (negsuc 4) near_tile_valid (omega arith) (omega arith)
