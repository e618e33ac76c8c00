-- ===== src/Wire/Header.antt =====
-- The TSV3 tile header of internal/core/wire/tile.go: the bytes that EncodeTile puts before the
-- pixels, and DecodeTileHeader.
mod Tests
use time_shade_db.Prelude.{
  ℕ, ◌+◌, ◌%◌, ◌^◌, ◌≤◌, ◌<◌, ◌≡◌, refl, ap, ◌∙◌, arith, ltb, ◌==◌, not, ◌||◌, if◌then◌else◌,
  bit_and,
}
use time_shade_db.Prelude.{
  Bool, true, false, Option, none, some, List, [], ◌∷◌, ◌++◌, length, take, drop, get_or,
}
use time_shade_db.Prelude.Int.{
  ℤ, pos, bits8, bits32, int8, signed32, negsuc, signed32-bits32, IsI8, IsI32,
}
use time_shade_db.Prelude.Words.{IsU32, put_u16, put_u32, get_u16, get_u32, get_u32-put_u32}
use time_shade_db.Core.Grid.{tile_size}
use time_shade_db.Core.Keys.{same_bytes}

-- `MagicTile`
abbrev pub magic_tile : List ℕ
magic_tile = b'T' ∷ b'S' ∷ b'V' ∷ b'3' ∷ []

-- `HeaderSize`
abbrev pub header_size : ℕ
header_size = 32

-- `FormatPal8` and `FormatRGB565`, the least and the greatest format.
abbrev pub format_pal8 : ℕ
format_pal8 = 1

abbrev pub format_rgb565 : ℕ
format_rgb565 = 3

pub record TileHeader : Type 0 where
  pub format : ℕ
  pub z : ℤ
  pub live : Bool
  pub x : ℤ
  pub y : ℤ
  pub version : ℕ
  pub palette_version : ℕ

-- The header that `EncodeTile` writes; the bytes that it does not set are 0.
unfoldable pub tile_header_bytes : TileHeader → List ℕ
tile_header_bytes h =
    magic_tile
    ++ (h.format ∷ bits8 h.z ∷ (if h.live then 1 else 0) ∷ 0 ∷ [])
    ++ put_u32 (bits32 h.x)
    ++ put_u32 (bits32 h.y)
    ++ put_u32 h.version
    ++ put_u32 h.palette_version
    ++ put_u16 tile_size
    ++ put_u16 tile_size
    ++ (0 ∷ 0 ∷ 0 ∷ 0 ∷ [])

-- `DecodeTileHeader`; `none` is ErrFormat.
unfoldable pub decode_tile_header : List ℕ → Option TileHeader
decode_tile_header b =
    if ltb (length b) header_size || not (same_bytes (take 4 b) magic_tile)
    then none
    else let f = get_or b 4 0 in
      if ltb f format_pal8 || ltb format_rgb565 f
      then none
      else (if not (get_u16 (drop 24 b) == tile_size) || not (get_u16 (drop 26 b) == tile_size)
          then none
          else some (record {
            format = f;
            z = int8 (pos (get_or b 5 0));
            live = not (bit_and (get_or b 6 0) 1 == 0);
            x = signed32 (get_u32 (drop 8 b));
            y = signed32 (get_u32 (drop 12 b));
            version = get_u32 (drop 16 b);
            palette_version = get_u32 (drop 20 b);
          }))

-- The headers whose fields fit their words, with a known format.
pub record IsHeader (h : TileHeader) : Type 0 where
  pub format_low : format_pal8 ≤ h.format
  pub format_high : h.format ≤ format_rgb565
  pub z_fits : IsI8 h.z
  pub x_fits : IsI32 h.x
  pub y_fits : IsI32 h.y
  pub version_fits : IsU32 h.version
  pub palette_fits : IsU32 h.palette_version

int8-bits8 : (z : ℤ) → IsI8 z → int8 (pos (bits8 z)) ≡ z
unfolding int8
int8-bits8 (pos n) h = ground arith
int8-bits8 (negsuc n) h = ground arith

live_bit : (b : Bool) → not (bit_and (if b then 1 else 0) 1 == 0) ≡ b
live_bit true = refl
live_bit false = refl

bits32-IsU32 : (z : ℤ) → IsU32 (bits32 z)
bits32-IsU32 (pos n) = omega arith
bits32-IsU32 (negsuc n) = omega arith

ltb_no : (a b : ℕ) → b ≤ a → ltb a b ≡ false
ltb_no a b h = ground arith

-- Whatever follows it, `DecodeTileHeader` reads back the header that `EncodeTile` writes, where its
-- fields fit their words and its format is one of the three.
pub decode_tile_header-tile_header_bytes :
    (h : TileHeader) (body : List ℕ)
    → IsHeader h
    → decode_tile_header (tile_header_bytes h ++ body) ≡ some h
unfolding decode_tile_header tile_header_bytes same_bytes
decode_tile_header-tile_header_bytes h body v =
    rw
      (
        decode_tile_header,
        ltb_no (length (tile_header_bytes h ++ body)) 32 (omega arith),
        ltb_no h.format 1 v.format_low,
        ltb_no 3 h.format v.format_high,
      )
      (λ i. some (record {
        format = h.format;
        z = int8-bits8 h.z v.z_fits i;
        live = live_bit h.live i;
        x =
            (ap signed32 (get_u32-put_u32 (bits32 h.x) [] (bits32-IsU32 h.x))
                ∙ signed32-bits32 h.x v.x_fits)
              i;
        y =
            (ap signed32 (get_u32-put_u32 (bits32 h.y) [] (bits32-IsU32 h.y))
                ∙ signed32-bits32 h.y v.y_fits)
              i;
        version = get_u32-put_u32 h.version [] v.version_fits i;
        palette_version = get_u32-put_u32 h.palette_version [] v.palette_fits i;
      }))
