-- ===== src/Terrain/Keyframe/Tests.antt =====
-- The keyframe of the empty tile.
use time_shade_db.Prelude.{ℕ, ◌<◌, arith, List, [], ◌∷◌}
use time_shade_db.Core.Grid.{tile_pixel_count}
use time_shade_db.Core.Image.{new_tile_image}
use time_shade_db.Terrain.Palette.{load_lut}
use time_shade_db.Terrain.Palette.Table.{IsLut, load_lut-IsLut}
use time_shade_db.Terrain.Keyframe.{encode_keyframe, decode_keyframe}
use time_shade_db.Terrain.Keyframe.RoundTrip.{Holds, decode_keyframe-encode_keyframe}

abbrev one_color : List ℕ
one_color = 0 ∷ []

abbrev table : ℕ → ℕ
table = load_lut 0 one_color (λ c. 0)

table-IsLut : IsLut one_color table
table-IsLut = load_lut-IsLut [] one_color (λ c. 0) none_known (omega arith)
  where
    none_known : IsLut [] (λ c. 0)
    none_known = record { place = λ c k. absurd (omega arith); known = λ c i k. cc }

zero_known : (k : ℕ) → k < tile_pixel_count → 0 < table (new_tile_image k)
unfolding load_lut new_tile_image
zero_known k h = omega arith

decode_keyframe-encode_keyframe_example : Holds new_tile_image (
    decode_keyframe new_tile_image
      (encode_keyframe new_tile_image table).0
      (encode_keyframe new_tile_image table).1
      one_color)
decode_keyframe-encode_keyframe_example =
    decode_keyframe-encode_keyframe one_color table table-IsLut (omega arith) new_tile_image
      new_tile_image zero_known
