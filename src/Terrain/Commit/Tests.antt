-- ===== src/Terrain/Commit/Tests.antt =====
-- A window with one block, of a chunk with one pixel of colour 7.
use time_shade_db.Prelude.{
  ℕ, ◌<◌, ◌≡◌, arith, inl, inr, Bool-cases, ◌==◌, if◌then◌else◌, true, List, [], ◌∷◌,
}
use time_shade_db.Core.Image.{ChunkPixels, new_tile_image}
use time_shade_db.Terrain.Codec.{apply_delta}
use time_shade_db.Terrain.Palette.{load_lut}
use time_shade_db.Terrain.Palette.Table.{IsLut, load_lut-IsLut}
use time_shade_db.Terrain.Commit.{window_delta, window_image}
use time_shade_db.Terrain.Commit.Apply.{Agrees}
use time_shade_db.Terrain.Commit.Window.{apply_delta-window_delta}

abbrev two_colors : List ℕ
two_colors = 0 ∷ 7 ∷ []

abbrev table : ℕ → ℕ
table = load_lut 0 two_colors (λ c. 0)

table-IsLut : IsLut two_colors table
table-IsLut = load_lut-IsLut [] two_colors (λ c. 0) none_known (omega arith)
  where
    none_known : IsLut [] (λ c. 0)
    none_known = record { place = λ c k. absurd (omega arith); known = λ c i k. cc }

abbrev one_pixel : ChunkPixels
one_pixel p = if p == 5 then 7 else 0

one_pixel_known : (p : ℕ) → p < 1024 → 0 < table (one_pixel p)
unfolding load_lut
one_pixel_known p h = elim (Bool-cases (p == 5)) [
  | inl c ↦ rw (c) (omega arith)
  | inr c ↦ rw (c) (omega arith)
]

apply_delta-window_delta_example :
    ((apply_delta two_colors
        (window_delta table new_tile_image ((3, one_pixel) ∷ [])).0
        (window_delta table new_tile_image ((3, one_pixel) ∷ [])).1
        new_tile_image).0
      ≡ true)
    × Agrees
        (apply_delta two_colors
          (window_delta table new_tile_image ((3, one_pixel) ∷ [])).0
          (window_delta table new_tile_image ((3, one_pixel) ∷ [])).1
          new_tile_image).1
        (window_image ((3, one_pixel) ∷ []) new_tile_image)
apply_delta-window_delta_example =
    apply_delta-window_delta two_colors table table-IsLut (omega arith) ((3, one_pixel) ∷ [])
      new_tile_image (omega arith, omega arith, one_pixel_known, tt)
