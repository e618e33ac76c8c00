-- ===== src/Terrain/Codec/Diff.antt =====
-- The changes that `diffChunk` finds.
use time_shade_db.Prelude.{
  ℕ, zero, suc, ◌+◌, ◌*◌, ◌≤◌, ◌<◌, ◌≡◌, refl, sym, ap, ◌∙◌, arith, ltb, ◌==◌, inl, inr, Bool-cases,
  subst,
}
use time_shade_db.Prelude.{All, some, List, [], ◌∷◌, ◌++◌, length, length-append}
use mathlib.Core.Option.{none-ne-some}
use time_shade_db.Core.Grid.{tile_pixel_index}
use time_shade_db.Core.Image.{Image, ChunkPixels}
use time_shade_db.Terrain.Codec.{
  ChunkChange, diff_row, diff_rows, diff_chunk, indices_of, places_below,
}
use time_shade_db.Terrain.Codec.Bitmap.{IsRising}
use time_shade_db.Terrain.Codec.RoundTrip.{IsChange}

-- Positions that rise, from one on and below another.
abbrev IsRun : ℕ → ℕ → List ℕ → Type 0
IsRun lo hi [] = lo ≤ hi
IsRun lo hi (p ∷ ps) = (lo ≤ p) × IsRun (suc p) hi ps

IsRun-append :
    (lo mid hi : ℕ) (ps qs : List ℕ) → IsRun lo mid ps → IsRun mid hi qs → IsRun lo hi (ps ++ qs)
IsRun-append lo mid hi [] [] h k = omega arith
IsRun-append lo mid hi [] (q ∷ qs) h (k, ks) = (omega arith, ks)
IsRun-append lo mid hi (p ∷ ps) qs (h, hs) k = (h, IsRun-append (suc p) mid hi ps qs hs k)

run_end : (lo hi : ℕ) (ps : List ℕ) → IsRun lo hi ps → lo ≤ hi
run_end lo hi [] h = h
run_end lo hi (p ∷ ps) (h, hs) = omega (arith, run_end (suc p) hi ps hs)

IsRun-longer : (lo hi hi' : ℕ) (ps : List ℕ) → hi ≤ hi' → IsRun lo hi ps → IsRun lo hi' ps
IsRun-longer lo hi hi' [] le h = omega arith
IsRun-longer lo hi hi' (p ∷ ps) le (h, hs) = (h, IsRun-longer (suc p) hi hi' ps le hs)

IsRun-IsRising : (lo hi : ℕ) (ps : List ℕ) → hi ≤ 1024 → IsRun lo hi ps → IsRising lo ps
IsRun-IsRising lo hi [] le h = tt
IsRun-IsRising lo hi (p ∷ ps) le (h, hs) =
    (h, omega (arith, run_end (suc p) hi ps hs), IsRun-IsRising (suc p) hi ps le hs)

diff_row-IsRun :
    (n block row : ℕ) (old : Image) (px : ChunkPixels)
    → IsRun (row * 32) (row * 32 + n) (diff_row n block row old px)
unfolding diff_row
diff_row-IsRun zero block row old px = omega arith
diff_row-IsRun (suc n) block row old px =
    elim (Bool-cases (old (tile_pixel_index block (row * 32) + n) == px (row * 32 + n))) [
      | inl c ↦ rw (c) (
          IsRun-longer (row * 32) (row * 32 + n) (row * 32 + suc n) (diff_row n block row old px)
            (omega arith) (diff_row-IsRun n block row old px))
      | inr c ↦ rw (c) (
          IsRun-append (row * 32) (row * 32 + n) (row * 32 + suc n) (diff_row n block row old px) _
            (diff_row-IsRun n block row old px) (omega arith, omega arith))
    ]

diff_rows-IsRun :
    (n block : ℕ) (old : Image) (px : ChunkPixels) → IsRun 0 (n * 32) (diff_rows n block old px)
unfolding diff_rows
diff_rows-IsRun zero block old px = omega arith
diff_rows-IsRun (suc n) block old px =
    IsRun-append 0 (n * 32) (suc n * 32) (diff_rows n block old px) (diff_row 32 block n old px)
      (diff_rows-IsRun n block old px)
      (subst (λ hi. IsRun (n * 32) hi (diff_row 32 block n old px)) (omega arith)
        (diff_row-IsRun 32 block n old px))

pub diff_rows-IsRising :
    (block : ℕ) (old : Image) (px : ChunkPixels) → IsRising 0 (diff_rows 32 block old px)
diff_rows-IsRising block old px =
    IsRun-IsRising 0 1024 (diff_rows 32 block old px) (omega arith)
      (diff_rows-IsRun 32 block old px)

pub IsRising-All : (lo : ℕ) (ps : List ℕ) → IsRising lo ps → All (λ p. p < 1024) ps
IsRising-All lo [] h = tt
IsRising-All lo (p ∷ ps) (l, h, hs) = (h, IsRising-All (suc p) ps hs)

pub length-indices_of :
    (pal : ℕ → ℕ) (px : ChunkPixels) (ps : List ℕ) → length (indices_of pal px ps) ≡ length ps
unfolding indices_of
length-indices_of pal px [] = refl
length-indices_of pal px (p ∷ ps) = ap suc (length-indices_of pal px ps)

pub length-places_below : (n : ℕ) → length (places_below n) ≡ n
unfolding places_below
length-places_below zero = refl
length-places_below (suc n) =
    omega (arith, length-append (places_below n) (n ∷ []), length-places_below n)

some_inj : (a b : ChunkChange) → some a ≡ some b → a ≡ b
some_inj a b h = cc

-- For a block below 256, a change that `diffChunk` returns has a block below 256 and at least one
-- index, and is of all 1024 pixels, or of fewer at rising positions below 1024, one index for each.
pub diff_chunk-IsChange :
    (block : ℕ) (old : Image) (px : ChunkPixels) (pal : ℕ → ℕ) (c : ChunkChange)
    → block < 256
    → diff_chunk block old px pal ≡ some c
    → IsChange c
unfolding diff_chunk
diff_chunk-IsChange block old px pal c h e = elim (Bool-cases (length pos == 0)) [
  | inl z ↦ absurd (none-ne-some c (rw (diff_chunk, z) at e))
  | inr z ↦ elim (Bool-cases (ltb 512 (length pos))) [
    | inl l ↦ subst IsChange (some_inj _ c (rw (diff_chunk, z, l) at e)) (record {
      block_is = h;
      some_is = omega (arith, whole_length);
      pos_is = inl (refl, whole_length);
    })
    | inr l ↦ subst IsChange (some_inj _ c (rw (diff_chunk, z, l) at e)) (record {
      block_is = h;
      some_is = ground (arith, length-indices_of pal px pos);
      pos_is = inr (
        pos,
        (
          refl,
          (
            rising,
            (sym (length-indices_of pal px pos), ground (arith, length-indices_of pal px pos)),
          ),
        ),
      );
    })
  ]
]
  where
    pos : List ℕ
    pos = diff_rows 32 block old px

    rising : IsRising 0 pos
    rising = diff_rows-IsRising block old px

    whole_length : length (indices_of pal px (places_below 1024)) ≡ 1024
    whole_length = length-indices_of pal px (places_below 1024) ∙ length-places_below 1024
