-- ===== src/Core/Pixels.antt =====
-- internal/core/pixels.go: RGB565 colours, tile images and the 2x2 average; and
-- internal/pyramid/downsample.go, the packed average that the pyramid uses in its place.
-- A colour is a number below 2 ^ 16, and shifts are products and quotients by powers of two.
pub mod Average
pub mod Packing
mod Tests
use time_shade_db.Prelude.{ℕ, zero, suc, ◌+◌, ◌-◌, ◌*◌, ◌/◌, ◌%◌, ◌^◌, ltb, ◌==◌, if◌then◌else◌}
use time_shade_db.Prelude.{Bool, true, false, ◌&&◌, not, List, [], ◌∷◌, ◌++◌, length, take, drop}
use time_shade_db.Prelude.{replicate, get_or, bit_and, bit_or, Option, none, some}
use time_shade_db.Core.Grid.{chunk_size, tile_size, tile_pixel_count, tile_pixel_index}

-- `RGB565`: three 8-bit channels, packed by truncation.
unfoldable pub rgb565 : ℕ → ℕ → ℕ → ℕ
rgb565 r g b = bit_or (bit_or (r / 8 * 2 ^ 11) (g / 4 * 2 ^ 5)) (b / 8)

-- `RGB565ToRGB`: bit replication, in uint8.
unfoldable pub rgb565_to_rgb : ℕ → ℕ × ℕ × ℕ
rgb565_to_rgb v =
    let r5 = bit_and (v / 2 ^ 11) 31 in
    let g6 = bit_and (v / 2 ^ 5) 63 in
    let b5 = bit_and v 31 in
    (
      bit_or (r5 * 8 % 256) (r5 / 4),
      bit_or (g6 * 4 % 256) (g6 / 16),
      bit_or (b5 * 8 % 256) (b5 / 4),
    )

-- The closure `ch` of `Average4`, in uint16: `((sum + 2) >> 2) << shift`.
abbrev pub channel : ℕ → ℕ → ℕ → ℕ → ℕ → ℕ → ℕ
channel shift mask a b c d =
    let sum =
      bit_and (a / 2 ^ shift) mask
      + bit_and (b / 2 ^ shift) mask
      + bit_and (c / 2 ^ shift) mask
      + bit_and (d / 2 ^ shift) mask in
    (sum + 2) / 4 * 2 ^ shift % 2 ^ 16

unfoldable pub average4 : ℕ → ℕ → ℕ → ℕ → ℕ
average4 a b c d =
    bit_or (bit_or (channel 11 31 a b c d) (channel 5 63 a b c d)) (channel 0 31 a b c d)

-- `spread` of downsample.go: the green channel 16 bits up, in uint32.
unfoldable pub spread : ℕ → ℕ
spread x = bit_or (bit_and x 0xf81f) (bit_and x 0x07e0 * 2 ^ 16 % 2 ^ 32)

-- `avgRound`, 2 | 2<<11 | 2<<21
abbrev pub avg_round : ℕ
avg_round = bit_or (bit_or 2 (2 * 2 ^ 11)) (2 * 2 ^ 21)

-- One pixel of `downsampleInto`, in uint32, from the four pixels of the child.
unfoldable pub packed_average : ℕ → ℕ → ℕ → ℕ → ℕ
unfolding spread
packed_average a b c d =
    let s = (spread a + spread b + spread c + spread d + avg_round) % 2 ^ 32 in
    bit_or (bit_and (s / 4) 0xf81f) (bit_and (s / 2 ^ 18) 0x07e0) % 2 ^ 16
