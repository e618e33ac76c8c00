-- ===== src/Terrain/Keyframe.antt =====
-- internal/terrain/codec.go: keyframes, which hold every pixel of a tile by palette index.
pub mod RoundTrip
mod Tests
use time_shade_db.Prelude.{
  ℕ, zero, suc, ◌+◌, ◌-◌, ◌*◌, ◌%◌, ◌^◌, ltb, leb, ◌==◌, if◌then◌else◌, not, ◌&&◌, Bool, true,
  false, List, length, get_or,
}
use time_shade_db.Core.Grid.{tile_pixel_count}
use time_shade_db.Core.Image.{Image, put_pixel}
use time_shade_db.Terrain.Codec.{indices_of, places_below, put_indices, raw_index}

-- The largest entry of the lookup table for the first n pixels.
unfoldable pub max_code : ℕ → (ℕ → ℕ) → Image → ℕ
max_code zero pal im = 0
max_code (suc n) pal im = let m = max_code n pal im in if ltb m (pal (im n)) then pal (im n) else m

-- `m-1 > 255` on a uint32, which wraps.
abbrev pub is_wide_code : ℕ → Bool
is_wide_code m = ltb 255 ((m + 2 ^ 32 - 1) % 2 ^ 32)

-- `encodeKeyframe`: the bytes, and whether an index has two of them.
unfoldable pub encode_keyframe : Image → (ℕ → ℕ) → List ℕ × Bool
encode_keyframe im pal =
    let wide = is_wide_code (max_code tile_pixel_count pal im) in
    (put_indices wide (indices_of pal im (places_below tile_pixel_count)), wide)

-- A loop of `decodeKeyframe` over n pixels from pixel i on, where an index is tested or not.
unfoldable pub fill : List ℕ → Bool → Bool → List ℕ → ℕ → ℕ → Image → Bool × Image
fill pal tested wide p zero i im = (true, im)
fill pal tested wide p (suc n) i im =
    let v = raw_index wide p i in
    let rest = fill pal tested wide p n (suc i) (put_pixel i (get_or pal v 0) im) in
    if tested && leb (length pal) v then (false, im) else rest

-- `decodeKeyframe`
unfoldable pub decode_keyframe : Image → List ℕ → Bool → List ℕ → Bool × Image
decode_keyframe im p true pal =
    if not (length p == 2 * tile_pixel_count)
    then (false, im)
    else fill pal true true p tile_pixel_count 0 im
decode_keyframe im p false pal =
    if not (length p == tile_pixel_count)
    then (false, im)
    else fill pal (ltb (length pal) 256) false p tile_pixel_count 0 im
