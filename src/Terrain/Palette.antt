-- ===== src/Terrain/Palette.antt =====
-- internal/terrain/palette.go: the palette file of a datastore. A file is its bytes; the lookup
-- table and the bitmap of the colours are functions of a colour. Opening and reading the file do
-- not fail, and neither do the cuts; a write of new colours can fail after some bytes.
pub mod Table
pub mod Adding
pub mod Ensure
pub mod Reopen
mod Tests
use time_shade_db.Prelude.{
  ℕ, zero, suc, ◌+◌, ◌-◌, ◌*◌, ◌%◌, ◌^◌, ltb, leb, ◌==◌, if◌then◌else◌, not, ◌&&◌,
}
use time_shade_db.Prelude.{
  Bool, true, false, Option, none, some, List, [], ◌∷◌, ◌++◌, length, take, drop, get_or, replicate,
}
use time_shade_db.Prelude.Words.{put_u16}
use time_shade_db.Core.Keys.{same_bytes}
use time_shade_db.Series.File.{write_at}

-- TPL3
abbrev pub palette_magic : List ℕ
palette_magic = 84 ∷ 80 ∷ 76 ∷ 51 ∷ []

-- `palSnap`
pub record PalSnap : Type 0 where
  pub colors : List ℕ
  pub lut : ℕ → ℕ
  pub present : ℕ → Bool

-- `palette`; `none` is a closed file.
pub record Palette : Type 0 where
  pub file : Option (List ℕ)
  pub colors : List ℕ
  pub snap : PalSnap

pub data PaletteError : Type 0 where
  palette_closed : PaletteError
  palette_full : PaletteError
  write_error : PaletteError

-- `has` and `covers`
unfoldable pub covers : PalSnap → List ℕ → Bool
covers ps [] = true
covers ps (c ∷ px) = let rest = covers ps px in if not (ps.present c) then false else rest

-- The colours of the entries.
unfoldable pub entries : List ℕ → List ℕ
entries (a ∷ b ∷ r) = (a + 256 * b) ∷ entries r
entries _ = []

abbrev pub set_lut : ℕ → ℕ → (ℕ → ℕ) → ℕ → ℕ
set_lut c v lut x = if x == c then v else lut x

abbrev pub set_present : ℕ → (ℕ → Bool) → ℕ → Bool
set_present c present x = if x == c then true else present x

-- The loop of `openPalette` over the entries, from entry i on.
unfoldable pub load_lut : ℕ → List ℕ → (ℕ → ℕ) → ℕ → ℕ
load_lut i [] lut = lut
load_lut i (c ∷ cs) lut =
    load_lut (suc i) cs (if lut c == 0 then set_lut c ((i + 1) % 2 ^ 32) lut else lut)

unfoldable pub load_present : List ℕ → (ℕ → Bool) → ℕ → Bool
load_present [] present = present
load_present (c ∷ cs) present = load_present cs (set_present c present)

-- The end of `openPalette`: `none` where entry 0 is not 0.
abbrev pub load_palette : List ℕ → List ℕ → Option Palette
load_palette file colors =
    if get_or colors 0 0 == 0
    then some (record {
      file = some file;
      colors = colors;
      snap = record {
        colors = colors;
        lut = load_lut 0 colors (λ c. 0);
        present = load_present colors (λ c. false);
      };
    })
    else none

-- `openPalette` after the header: a torn entry is cut, and entry 0 is written where it is missing.
unfoldable pub open_body : List ℕ → List ℕ → Option Palette
open_body head body =
    let even = if length body % 2 == 1 then take (length body - 1) body else body in
    let whole = if ltb (length even) 2 then 0 ∷ 0 ∷ [] else even in
    load_palette (head ++ whole) (entries whole)

-- `openPalette`
unfoldable pub open_palette : List ℕ → Option Palette
open_palette raw =
    if ltb (length raw) 8
    then open_body (palette_magic ++ replicate 4 0) (0 ∷ 0 ∷ [])
    else (if not (same_bytes (take 4 raw) palette_magic)
        then none
        else open_body (take 8 raw) (drop 8 raw))

-- The loop of `ensure`: the colours and the lookup table, or `none` where the palette is full.
unfoldable pub add_colors : List ℕ → List ℕ → (ℕ → ℕ) → Option (List ℕ × (ℕ → ℕ))
add_colors [] colors lut = some (colors, lut)
add_colors (c ∷ px) colors lut =
    let known = not (lut c == 0) in
    let colors' = if known then colors else colors ++ (c ∷ []) in
    let lut' = if known then lut else set_lut c (suc (length colors) % 2 ^ 32) lut in
    let rest = add_colors px colors' lut' in
    if not known && leb (2 ^ 16) (length colors) then none else rest

-- The bytes of some entries.
unfoldable pub put_colors : List ℕ → List ℕ
put_colors [] = []
put_colors (c ∷ cs) = put_u16 c ++ put_colors cs

-- `write` and what `ensure` does when it fails.
abbrev pub write_colors : Option ℕ → List ℕ → ℕ → List ℕ → Bool × List ℕ
write_colors none buf first file = (true, write_at (8 + 2 * first) buf file)
write_colors (some k) buf first file =
    (false, take (8 + 2 * first) (write_at (8 + 2 * first) (take k buf) file))

-- The end of `ensure`, with the colours and the table that it made.
abbrev pub publish : Option ℕ → List ℕ → List ℕ → (ℕ → ℕ) → Palette → Option PaletteError × Palette
publish fault file colors lut p =
    let new = drop (length p.colors) colors in
    let (is_ok, file') = write_colors fault (put_colors new) (length p.colors) file in
    if is_ok
    then (
      none,
      record {
        file = some file';
        colors = colors;
        snap = record { colors = colors; lut = lut; present = load_present new p.snap.present };
      },
    )
    else (some write_error, record { file = some file'; colors = p.colors; snap = p.snap })

-- `ensure`
unfoldable pub ensure : Option ℕ → List ℕ → Palette → Option PaletteError × Palette
ensure fault px p = if covers p.snap px then (none, p) else elim p.file [
  | none ↦ (some palette_closed, p)
  | some file ↦ elim (add_colors px p.colors p.snap.lut) [
    | none ↦ (some palette_full, p)
    | some (colors, lut) ↦ publish fault file colors lut p
  ]
]

-- `close`
abbrev pub close : Palette → Palette
close p = record { file = none; colors = p.colors; snap = p.snap }
