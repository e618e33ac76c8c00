-- ===== src/Wire/Palette/Tests.antt =====
-- A palette of three colours.
use time_shade_db.Prelude.{ℕ, ◌≡◌, refl, arith, List, [], ◌∷◌, All, none, some}
use time_shade_db.Prelude.Words.{IsByte}
use time_shade_db.Wire.Palette.{
  encode_palette, decode_palette, decode_palette-encode_palette, encode_palette-decode_palette,
}

-- "TSP3", 3, and the colours 0, 0xf800 and 0x1f
abbrev body : List ℕ
body = b'T' ∷ b'S' ∷ b'P' ∷ b'3' ∷ 3 ∷ 0 ∷ 0 ∷ 0 ∷ 0 ∷ 0 ∷ 0 ∷ 248 ∷ 31 ∷ 0 ∷ []

abbrev colours : List ℕ
colours = 0 ∷ 0xf800 ∷ 0x1f ∷ []

body_accepted : decode_palette body ≡ some colours
unfolding decode_palette time_shade_db.Core.Keys.same_bytes time_shade_db.Wire.Palette.get_colours
body_accepted = refl

first_colour_test : decode_palette (b'T' ∷ b'S' ∷ b'P' ∷ b'3' ∷ 1 ∷ 0 ∷ 0 ∷ 0 ∷ 1 ∷ 0 ∷ []) ≡ none
unfolding decode_palette time_shade_db.Core.Keys.same_bytes time_shade_db.Wire.Palette.get_colours
first_colour_test = refl

body-IsByte : All IsByte body
body-IsByte = omega arith

decode_palette-encode_palette_example : decode_palette (encode_palette colours) ≡ some colours
decode_palette-encode_palette_example =
    decode_palette-encode_palette (0xf800 ∷ 0x1f ∷ []) (omega arith) (omega arith)

encode_palette-decode_palette_example : encode_palette colours ≡ body
encode_palette-decode_palette_example =
    encode_palette-decode_palette body colours body-IsByte body_accepted
