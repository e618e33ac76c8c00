-- ===== src/Core/Grid.antt =====
-- internal/core/grid.go: chunks, tiles and the pixels of a z0 tile. int8, int32 and int64 values
-- are the integers that they stand for, and each conversion and each sum that could wrap is
-- written out. `TileAt` and `Contains` take floats and are not modelled.
pub mod Chunks
pub mod Levels
pub mod Extent
pub mod Regions
mod Tests
use time_shade_db.Prelude.{ℕ, zero, suc, ◌+◌, ◌-◌, ◌*◌, ◌/◌, ◌%◌, ◌^◌, ◌≤◌, ◌<◌, ◌≡◌, arith}
use time_shade_db.Prelude.{Bool, true, false, not, ◌&&◌, ◌||◌, if◌then◌else◌, Option, none, some}
use time_shade_db.Prelude.{List, [], ◌∷◌, ltb}
use time_shade_db.Prelude.Int.{ℤ, pos, negsuc, pos_part, neg_part, ◌+ℤ◌, ◌-ℤ◌, ◌*ℤ◌}
use time_shade_db.Prelude.Int.{ltb_ℤ, leb_ℤ, bits8, int8, int32, int64, is_neg}
use time_shade_db.Core.Time.{floor_div}

abbrev pub chunk_size : ℕ
chunk_size = 32

abbrev pub chunk_pixel_count : ℕ
chunk_pixel_count = chunk_size * chunk_size

abbrev pub tile_chunks : ℕ
tile_chunks = 16

abbrev pub tile_blocks : ℕ
tile_blocks = tile_chunks * tile_chunks

abbrev pub tile_size : ℕ
tile_size = tile_chunks * chunk_size

abbrev pub tile_pixel_count : ℕ
tile_pixel_count = tile_size * tile_size

-- -256 and -8
abbrev pub grid_origin_tiles : ℤ
grid_origin_tiles = negsuc 255

abbrev pub grid_origin_chunks : ℤ
grid_origin_chunks = negsuc 7

-- `MinZ`, -10
abbrev pub min_z : ℤ
min_z = negsuc 9

abbrev pub max_coord : ℕ
max_coord = 2048

pub record ChunkCoord : Type 0 where
  pub x : ℤ
  pub y : ℤ

pub record TileCoord : Type 0 where
  pub z : ℤ
  pub x : ℤ
  pub y : ℤ

-- `int64(1) << uint(-z)`: the negation is an int8, and a negative one is a shift beyond the word.
unfoldable pub scale : ℤ → ℤ
scale z = let k = int8 (pos 0 -ℤ z) in if is_neg k then pos 0 else int64 (pos (2 ^ pos_part k))

unfoldable pub tile_span : ℤ → ℤ
tile_span z = int64 (pos tile_size *ℤ scale z)

-- `int32(MaxCoord >> uint(-t.Z))` for -10 <= z <= 0, and at least 1.
abbrev pub coord_limit : ℤ → ℕ
coord_limit z = let lim = max_coord / 2 ^ neg_part z in if ltb lim 1 then 1 else lim

unfoldable pub is_valid : TileCoord → Bool
is_valid t =
    if ltb_ℤ (pos 0) t.z || ltb_ℤ t.z min_z
    then false
    else let lim = pos (coord_limit t.z) in
      leb_ℤ (pos 0 -ℤ lim) t.x && (leb_ℤ t.x lim && (leb_ℤ (pos 0 -ℤ lim) t.y && leb_ℤ t.y lim))

-- `ChunkCoord.Tile`: the z0 tile of a chunk, and the chunk's block in it.
unfoldable pub tile : ChunkCoord → TileCoord × ℕ
tile c =
    let ox = int64 (c.x -ℤ grid_origin_chunks) in
    let oy = int64 (c.y -ℤ grid_origin_chunks) in
    let tx = floor_div ox (pos tile_chunks) in
    let ty = floor_div oy (pos tile_chunks) in
    let bx = int64 (ox -ℤ int64 (tx *ℤ pos tile_chunks)) in
    let by = int64 (oy -ℤ int64 (ty *ℤ pos tile_chunks)) in
    (
      record { z = pos 0; x = int32 tx; y = int32 ty },
      bits8 (int64 (bx +ℤ int64 (by *ℤ pos tile_chunks))),
    )

-- `TileCoord.Chunk`: the chunk at a block of a z0 tile, in int32 arithmetic.
unfoldable pub chunk : TileCoord → ℕ → ChunkCoord
chunk t block =
    let bx = pos (block % tile_chunks) in
    let by = pos (block / tile_chunks) in
    record {
      x = int32 (int32 (int32 (t.x *ℤ pos tile_chunks) +ℤ grid_origin_chunks) +ℤ bx);
      y = int32 (int32 (int32 (t.y *ℤ pos tile_chunks) +ℤ grid_origin_chunks) +ℤ by);
    }

-- `TileCoord.Origin`
unfoldable pub origin : TileCoord → ℤ × ℤ
origin t =
    let span = tile_span t.z in
    (
      int64 (grid_origin_tiles +ℤ int64 (t.x *ℤ span)),
      int64 (grid_origin_tiles +ℤ int64 (t.y *ℤ span)),
    )

unfoldable pub parent : TileCoord → TileCoord
parent t = record {
  z = int8 (t.z -ℤ pos 1);
  x = int32 (floor_div t.x (pos 2));
  y = int32 (floor_div t.y (pos 2));
}

-- `none` is the panic at z >= 0.
unfoldable pub children : TileCoord → Option (List TileCoord)
children t =
    if leb_ℤ (pos 0) t.z
    then none
    else let z' = int8 (t.z +ℤ pos 1) in
      let x' = int32 (t.x *ℤ pos 2) in
      let y' = int32 (t.y *ℤ pos 2) in
      some (
        record { z = z'; x = x'; y = y' }
        ∷ record { z = z'; x = int32 (x' +ℤ pos 1); y = y' }
        ∷ record { z = z'; x = x'; y = int32 (y' +ℤ pos 1) }
        ∷ record { z = z'; x = int32 (x' +ℤ pos 1); y = int32 (y' +ℤ pos 1) }
        ∷ [])

-- The loop of `Ancestor`, on fuel; `none` means that the fuel ran out.
pub ancestor_loop : ℕ → TileCoord → ℤ → Option TileCoord
ancestor_loop zero t z = if ltb_ℤ z t.z then none else some t
ancestor_loop (suc fuel) t z =
    let rest = ancestor_loop fuel (parent t) z in if ltb_ℤ z t.z then rest else some t

-- A level is an int8, so the loop has at most 255 rounds.
unfoldable pub ancestor : TileCoord → ℤ → Option TileCoord
unfolding ancestor_loop
ancestor t z = ancestor_loop 255 t z

-- `TilePixelIndex`: where a pixel of a block stands in the image of its tile.
unfoldable pub tile_pixel_index : ℕ → ℕ → ℕ
tile_pixel_index block p =
    let bx = block % tile_chunks in
    let by = block / tile_chunks in
    (by * chunk_size + p / chunk_size) * tile_size + bx * chunk_size + p % chunk_size
