-- ===== src/Core/Grid/Chunks.antt =====
-- `ChunkCoord.Tile` and `TileCoord.Chunk`, axis by axis, and `TilePixelIndex`.
use time_shade_db.Prelude.{ℕ, ◌+◌, ◌*◌, ◌/◌, ◌%◌, ◌^◌, ◌≤◌, ◌<◌, ◌≡◌, ap, ◌∙◌, arith}
use time_shade_db.Prelude.Int.{ℤ, pos, pos_part, neg_part, ◌+ℤ◌, ◌-ℤ◌, ◌*ℤ◌}
use time_shade_db.Prelude.Int.{bits8, int32, int64, int32_id, int64_id, int32-int32_add, IsI32}
use time_shade_db.Prelude.Int.{int_laws, int_parts, *ℤ_pos_parts}
use time_shade_db.Core.Time.{floor_div, floor_div_bounds, floor_unique}
use time_shade_db.Core.Grid.{ChunkCoord, grid_origin_chunks, tile, chunk}
use time_shade_db.Core.Grid.{tile_pixel_index, tile_pixel_count}

abbrev shifted : ℤ → ℤ
shifted a = int64 (a -ℤ grid_origin_chunks)

shifted_eq : (a : ℤ) → IsI32 a → shifted a ≡ a -ℤ grid_origin_chunks
shifted_eq a h = int64_id _ (omega int_parts)

-- The block of a chunk along one axis, as `tile` computes it from the shifted coordinate.
abbrev axis_block : ℤ → ℤ
axis_block o = int64 (o -ℤ int64 (floor_div o (pos 16) *ℤ pos 16))

-- Along one axis the shifted coordinate is 16 times the tile's plus an offset below 16.
record IsAxis (o : ℤ) : Type 0 where
  offset : ℕ
  block_is : axis_block o ≡ pos offset
  offset_lt : offset < 16
  sum_is : floor_div o (pos 16) *ℤ pos 16 +ℤ pos offset ≡ o

axis_lem : (o : ℤ) → pos_part o < 2 ^ 40 → neg_part o < 2 ^ 40 → IsAxis o
axis_lem o h k =
    let q = floor_div o (pos 16) in
    let (lo, hi) = floor_div_bounds o 16 (omega int_parts) (omega arith) in
    record {
      offset = pos_part (o -ℤ q *ℤ pos 16);
      block_is =
          rw
            (
              int64_id (q *ℤ pos 16) (omega int_parts),
              int64_id (o -ℤ q *ℤ pos 16) (omega int_parts),
            )
            (omega int_parts);
      offset_lt = omega int_parts;
      sum_is = omega int_parts;
    }

-- Where the sum of an axis fits an int32, `chunk` gives the coordinate back.
axis_chunk :
    (a q : ℤ) (n : ℕ)
    → IsI32 a
    → n < 16
    → q *ℤ pos 16 +ℤ pos n ≡ a -ℤ grid_origin_chunks
    → int32 (int32 (int32 (int32 q *ℤ pos 16) +ℤ grid_origin_chunks) +ℤ pos n) ≡ a
axis_chunk a q n h k e =
    rw (int32_id q (omega (int_parts, *ℤ_pos_parts q 16, ap pos_part e, ap neg_part e))) (
      int32-int32_add (int32 (q *ℤ pos 16) +ℤ grid_origin_chunks) (pos n)
      ∙ ap int32 (regroup (int32 (q *ℤ pos 16)))
      ∙ int32-int32_add (q *ℤ pos 16) (grid_origin_chunks +ℤ pos n)
      ∙ ap int32 total
      ∙ int32_id a h)
  where
    regroup : (x : ℤ) → x +ℤ grid_origin_chunks +ℤ pos n ≡ x +ℤ (grid_origin_chunks +ℤ pos n)
    regroup x = omega int_laws

    total : q *ℤ pos 16 +ℤ (grid_origin_chunks +ℤ pos n) ≡ a
    total = omega (int_parts, ap pos_part e, ap neg_part e)

block_eq :
    (m n : ℕ) → m < 16 → n < 16 → bits8 (int64 (pos m +ℤ int64 (pos n *ℤ pos 16))) ≡ m + n * 16
unfolding int64 ◌+ℤ◌ ◌*ℤ◌
block_eq m n h k = ground arith

low_digit : (m n : ℕ) → m < 16 → (m + n * 16) % 16 ≡ m
low_digit m n h = omega arith

high_digit : (m n : ℕ) → m < 16 → (m + n * 16) / 16 ≡ n
high_digit m n h = omega arith

digits_back : (b : ℕ) → b % 16 + b / 16 * 16 ≡ b
digits_back b = omega arith

-- For a chunk whose coordinates fit an int32, `TileCoord.Chunk` of the tile and block that
-- `ChunkCoord.Tile` gives is that chunk.
pub chunk-tile : (c : ChunkCoord) → IsI32 c.x → IsI32 c.y → chunk (tile c).0 (tile c).1 ≡ c
unfolding chunk tile
chunk-tile c hx hy =
    let ax = axis_lem (c.x -ℤ grid_origin_chunks) (omega int_parts) (omega int_parts) in
    let ay = axis_lem (c.y -ℤ grid_origin_chunks) (omega int_parts) (omega int_parts) in
    rw
      (
        shifted_eq c.x hx,
        shifted_eq c.y hy,
        ax.block_is,
        ay.block_is,
        block_eq ax.offset ay.offset ax.offset_lt ay.offset_lt,
        low_digit ax.offset ay.offset ax.offset_lt,
        high_digit ax.offset ay.offset ax.offset_lt,
      )
      (λ i. record {
        x =
            axis_chunk c.x (floor_div (c.x -ℤ grid_origin_chunks) (pos 16)) ax.offset hx
              ax.offset_lt ax.sum_is i;
        y =
            axis_chunk c.y (floor_div (c.y -ℤ grid_origin_chunks) (pos 16)) ay.offset hy
              ay.offset_lt ay.sum_is i;
      })

-- A coordinate whose chunks all fit: the addressable grid has at most 2048 tiles on each side.
abbrev IsSmall : ℤ → Type 0
IsSmall q = (pos_part q ≤ 2048) × (neg_part q ≤ 2048)

-- The chunk coordinate along one axis, without the wraps.
axis_coord :
    (q : ℤ) (n : ℕ)
    → IsSmall q
    → n < 16
    → int32 (int32 (int32 (q *ℤ pos 16) +ℤ grid_origin_chunks) +ℤ pos n)
      ≡ q *ℤ pos 16 +ℤ grid_origin_chunks +ℤ pos n
axis_coord q n h k = rw (int32_id (q *ℤ pos 16) (omega (int_parts, *ℤ_pos_parts q 16))) (
    int32-int32_add (q *ℤ pos 16 +ℤ grid_origin_chunks) (pos n)
    ∙ int32_id _ (omega (int_parts, *ℤ_pos_parts q 16)))

axis_back :
    (q : ℤ) (n : ℕ)
    → IsSmall q
    → n < 16
    → q *ℤ pos 16 +ℤ grid_origin_chunks +ℤ pos n -ℤ grid_origin_chunks ≡ q *ℤ pos 16 +ℤ pos n
axis_back q n h k = omega int_laws

axis_floor : (q : ℤ) (n : ℕ) → IsSmall q → n < 16 → floor_div (q *ℤ pos 16 +ℤ pos n) (pos 16) ≡ q
axis_floor q n h k =
    let o = q *ℤ pos 16 +ℤ pos n in
    let (lo, hi) = floor_div_bounds o 16 (omega (int_parts, *ℤ_pos_parts q 16)) (omega arith) in
    floor_unique o (floor_div o (pos 16)) q 16 lo hi (omega int_laws) (omega int_laws)

axis_rest : (q : ℤ) (n : ℕ) → q *ℤ pos 16 +ℤ pos n -ℤ q *ℤ pos 16 ≡ pos n
axis_rest q n = omega int_laws

abbrev axis_chunk_at : ℤ → ℕ → ℤ
axis_chunk_at q n = int32 (int32 (int32 (q *ℤ pos 16) +ℤ grid_origin_chunks) +ℤ pos n)

axis_shifted :
    (q : ℤ) (n : ℕ) → IsSmall q → n < 16 → shifted (axis_chunk_at q n) ≡ q *ℤ pos 16 +ℤ pos n
axis_shifted q n h k =
    rw (axis_coord q n h k, axis_back q n h k)
      (int64_id (q *ℤ pos 16 +ℤ pos n) (omega (int_parts, *ℤ_pos_parts q 16)))

axis_tile_round :
    (q : ℤ) (n : ℕ) → IsSmall q → n < 16 → floor_div (shifted (axis_chunk_at q n)) (pos 16) ≡ q
axis_tile_round q n h k = rw (axis_shifted q n h k) (axis_floor q n h k)

axis_block_round :
    (q : ℤ) (n : ℕ) → IsSmall q → n < 16 → axis_block (shifted (axis_chunk_at q n)) ≡ pos n
axis_block_round q n h k =
    rw
      (
        axis_shifted q n h k,
        axis_floor q n h k,
        int64_id (q *ℤ pos 16) (omega (int_parts, *ℤ_pos_parts q 16)),
        axis_rest q n,
      )
      (int64_id (pos n) (omega arith))

-- For a z0 tile with coordinates of at most 2048 in absolute value and a block below 256,
-- `ChunkCoord.Tile` of the chunk at that block gives the tile and the block back.
pub tile-chunk :
    (x y : ℤ) (block : ℕ)
    → IsSmall x
    → IsSmall y
    → block < 256
    → tile (chunk (record { z = pos 0; x = x; y = y }) block)
      ≡ (record { z = pos 0; x = x; y = y }, block)
unfolding chunk tile
tile-chunk x y block hx hy hb =
    let m = block % 16 in
    let n = block / 16 in
    rw (
      axis_block_round x m hx (omega arith),
      axis_block_round y n hy (omega arith),
      axis_tile_round x m hx (omega arith),
      axis_tile_round y n hy (omega arith),
      block_eq m n (omega arith) (omega arith),
      int32_id x (omega arith),
      int32_id y (omega arith),
      digits_back block,
    )

-- The block that a pixel of the tile image belongs to, and the pixel's place in it.
abbrev pub pixel_block : ℕ → ℕ
pixel_block i = i % 512 / 32 + i / 512 / 32 * 16

abbrev pub pixel_place : ℕ → ℕ
pixel_place i = i % 32 + i / 512 % 32 * 32

-- For a block below 256 and a pixel below 1024, `TilePixelIndex` is an index within the tile image,
-- from which the block and the pixel are read back.
pub tile_pixel_index_place :
    (b p : ℕ)
    → b < 256
    → p < 1024
    → (tile_pixel_index b p < tile_pixel_count)
      × (pixel_block (tile_pixel_index b p) ≡ b)
      × (pixel_place (tile_pixel_index b p) ≡ p)
unfolding tile_pixel_index
tile_pixel_index_place b p hb hp = omega arith

-- Every index of the tile image is the `TilePixelIndex` of one pixel, below 1024, of one block,
-- below 256.
pub tile_pixel_index-pixel_block :
    (i : ℕ)
    → i < tile_pixel_count
    → (pixel_block i < 256)
      × (pixel_place i < 1024)
      × (tile_pixel_index (pixel_block i) (pixel_place i) ≡ i)
unfolding tile_pixel_index
tile_pixel_index-pixel_block i h = omega arith
