-- ===== src/Terrain/Palette/Tests.antt =====
-- A new palette, and two new colours.
use time_shade_db.Prelude.{refl, arith, inr, false, none, some, [], ◌∷◌, ◌++◌, take, replicate}
use time_shade_db.Terrain.Palette.{
  Palette, palette_magic, open_palette, ensure, put_colors, load_lut, load_present,
}
use time_shade_db.Terrain.Palette.Table.{IsLut, load_lut-IsLut}
use time_shade_db.Terrain.Palette.Ensure.{IsPalette, Ensured, ensure-Ensured}
use time_shade_db.Terrain.Palette.Reopen.{Opened, open_palette-take, entries_left}

-- The entries 0 and 300.
abbrev two_entries : Palette
two_entries = record {
  file = some ((palette_magic ++ replicate 4 0) ++ put_colors (0 ∷ 300 ∷ []));
  colors = 0 ∷ 300 ∷ [];
  snap = record {
    colors = 0 ∷ 300 ∷ [];
    lut = load_lut 0 (0 ∷ 300 ∷ []) (λ c. 0);
    present = load_present (0 ∷ 300 ∷ []) (λ c. false);
  };
}

two_entries-IsPalette : IsPalette two_entries
two_entries-IsPalette = record {
  head = palette_magic ++ replicate 4 0;
  head_is = refl;
  magic_is = refl;
  file_is = inr refl;
  colors_are = refl;
  present_is = refl;
  lut_is = load_lut-IsLut [] (0 ∷ 300 ∷ []) (λ c. 0) none_known (omega arith);
  few = omega arith;
  words = (omega arith, (omega arith, tt));
  zero_is = refl;
}
  where
    none_known : IsLut [] (λ c. 0)
    none_known = record { place = λ c k. absurd (omega arith); known = λ c i k. cc }

ensure-Ensured_example :
    Ensured
      (300 ∷ 7 ∷ [])
      two_entries
      (ensure none (300 ∷ 7 ∷ []) two_entries).0
      (ensure none (300 ∷ 7 ∷ []) two_entries).1
ensure-Ensured_example =
    ensure-Ensured none (300 ∷ 7 ∷ []) two_entries two_entries-IsPalette
      (omega arith, (omega arith, tt))

-- A crash in the middle of the second entry.
open_palette-take_example :
    Opened
      (open_palette (take 11 ((palette_magic ++ replicate 4 0) ++ put_colors (0 ∷ 300 ∷ []))))
      (entries_left 11 (0 ∷ 300 ∷ []))
unfolding two_entries-IsPalette
open_palette-take_example = open_palette-take two_entries 11 two_entries-IsPalette
