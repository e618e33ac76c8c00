-- ===== src/Terrain/Commit/Apply.antt =====
-- `applyDelta` of the delta of a window gives the image that `commitTile` goes on with.
use time_shade_db.Prelude.{
  ℕ, zero, suc, ◌+◌, ◌-◌, ◌*◌, ◌/◌, ◌%◌, ◌^◌, ◌≤◌, ◌<◌, ◌≡◌, refl, sym, ap, ◌∙◌, arith, ◌==◌,
  ==_iff, ltb, lt→ltb, lt→leb_false, if◌then◌else◌, inl, inr, ◌⊎◌, Bool-cases, ◌&&◌, subst,
}
use time_shade_db.Prelude.{
  Bool, true, false, Option, none, some, List, [], ◌∷◌, ◌++◌, All, length, get_elem?, get_or, drop,
}
use time_shade_db.Prelude.Maps.{some_inj}
use time_shade_db.Prelude.Words.{put_u16, get_u16}
use time_shade_db.Core.Grid.{tile_pixel_index, tile_pixel_count}
use time_shade_db.Core.Grid.Chunks.{pixel_block, pixel_place, tile_pixel_index-pixel_block}
use time_shade_db.Core.Image.{Image, ChunkPixels, set_block}
use time_shade_db.Core.Image.Blocks.{set_block_at}
use time_shade_db.Terrain.Codec.{
  ChunkChange, Visit, index_of, indices_of, places_below, diff_rows, diff_chunk, put_indices,
  raw_index, apply_places, apply_visit,
}
use time_shade_db.Terrain.Codec.RoundTrip.{visit_of}
use time_shade_db.Terrain.Codec.Diff.{diff_rows-IsRising, IsRising-All}
use time_shade_db.Terrain.Palette.Table.{IsLut, lut_le, get_elem?_lt}
use time_shade_db.Terrain.Commit.Places.{
  put_all, put_all_at, mem, mem-places_below, places_below-All, diff_rows-mem,
}

-- An index that has one byte, or two.
abbrev pub Fits : Bool → ℕ → Type 0
Fits true v = v < 2 ^ 16
Fits false v = v < 256

pub get_or-get_elem? : (xs : List ℕ) (i x : ℕ) → get_elem? xs i ≡ some x → get_or xs i 0 ≡ x
get_or-get_elem? [] i x h = cc
get_or-get_elem? (y ∷ xs) zero x h = cc
get_or-get_elem? (y ∷ xs) (suc i) x h = get_or-get_elem? xs i x h

-- An index is read back from the bytes of a change.
pub raw_index-put_indices :
    (wide : Bool) (vs : List ℕ) (i v : ℕ)
    → All (Fits wide) vs
    → get_elem? vs i ≡ some v
    → raw_index wide (put_indices wide vs) i ≡ v
unfolding put_indices
raw_index-put_indices wide [] i v h e = cc
raw_index-put_indices true (w ∷ vs) zero v (h, hs) e = word ∙ some_inj w v e
  where
    word : w % 256 + 256 * (w / 256 % 256) ≡ w
    word = omega arith
raw_index-put_indices true (w ∷ vs) (suc i) v (h, hs) e =
    ap (λ n. get_u16 (drop n (put_u16 w ++ put_indices true vs))) twice
    ∙ raw_index-put_indices true vs i v hs e
  where
    twice : 2 * suc i ≡ suc (suc (2 * i))
    twice = omega arith
raw_index-put_indices false (w ∷ vs) zero v (h, hs) e = byte ∙ some_inj w v e
  where
    byte : w % 256 ≡ w
    byte = omega arith
raw_index-put_indices false (w ∷ vs) (suc i) v (h, hs) e = raw_index-put_indices false vs i v hs e

pub get_elem?-indices_of :
    (lut : ℕ → ℕ) (px : ChunkPixels) (ps : List ℕ) (i p : ℕ)
    → get_elem? ps i ≡ some p
    → get_elem? (indices_of lut px ps) i ≡ some (index_of lut (px p))
unfolding indices_of
get_elem?-indices_of lut px [] i p h = cc
get_elem?-indices_of lut px (q ∷ ps) zero p h =
    ap (λ (r : ℕ). some (index_of lut (px r))) (some_inj q p h)
get_elem?-indices_of lut px (q ∷ ps) (suc i) p h = get_elem?-indices_of lut px ps i p h

All-get_elem? : (P : ℕ → Type 0) (xs : List ℕ) (i x : ℕ) → All P xs → get_elem? xs i ≡ some x → P x
All-get_elem? P [] i x h e = cc
All-get_elem? P (y ∷ xs) zero x (h, hs) e = subst P (some_inj y x e) h
All-get_elem? P (y ∷ xs) (suc i) x (h, hs) e = All-get_elem? P xs i x hs e

-- The blocks of a window: rising, below 256, and of known colours.
abbrev pub IsWindow : (ℕ → ℕ) → ℕ → List (ℕ × ChunkPixels) → Type 0
IsWindow lut lo [] = Unit {0}
IsWindow lut lo ((b, px) ∷ chunks) =
    (lo ≤ b) × (b < 256) × ((p : ℕ) → p < 1024 → 0 < lut (px p)) × IsWindow lut (suc b) chunks

-- Two images of a tile agree.
abbrev pub Agrees : Image → Image → Type 0
Agrees a b = (j : ℕ) → j < tile_pixel_count → a j ≡ b j

-- An image has the old pixels in the blocks from one on.
abbrev pub AgreesFrom : ℕ → Image → Image → Type 0
AgreesFrom lo im old = (j : ℕ) → j < tile_pixel_count → lo ≤ pixel_block j → im j ≡ old j

-- What `diffChunk` makes of a block: no change where the pixels are the old ones, or the new
-- pixels at some places with the old ones elsewhere.
pub record IsDiff (lut : ℕ → ℕ) (b : ℕ) (old : Image) (px : ChunkPixels) (c : ChunkChange)
    : Type 0 where
  pub block_is : c.block ≡ b
  pub places : List ℕ
  pub pos_is : (c.pos ≡ some places) ⊎ ((c.pos ≡ none) × (places ≡ places_below 1024))
  pub idx_is : c.idx ≡ indices_of lut px places
  pub below : All (λ p. p < 1024) places
  pub rest_is : (p : ℕ) → p < 1024 → mem p places ≡ false → old (tile_pixel_index b p) ≡ px p

abbrev pub Diffs : (ℕ → ℕ) → ℕ → Image → ChunkPixels → Option ChunkChange → Type 0
Diffs lut b old px none = (p : ℕ) → p < 1024 → old (tile_pixel_index b p) ≡ px p
Diffs lut b old px (some c) = IsDiff lut b old px c

module _ (pal : List ℕ) (lut : ℕ → ℕ) (is_lut : IsLut pal lut) (few : length pal ≤ 2 ^ 16) where
  -- The index of a known colour is its place in the palette.
  pub index_place : (c : ℕ) → 0 < lut c → get_elem? pal (index_of lut c) ≡ some c
  index_place c h = ap (λ (i : ℕ). get_elem? pal i) index ∙ is_lut.place c h
    where
      index : index_of lut c ≡ lut c - 1
      index = omega (arith, lut_le pal lut c is_lut)

  apply_places-put_all :
      (wide : Bool) (v : Visit) (px : ChunkPixels) (ps : List ℕ) (i : ℕ) (im : Image)
      → ((j p : ℕ)
          → get_elem? ps j ≡ some p
          → (raw_index wide v.raw (i + j) ≡ index_of lut (px p)) × (0 < lut (px p)))
      → apply_places pal wide v i ps im ≡ (true, put_all v.block px ps im)
  unfolding apply_places put_all
  apply_places-put_all wide v px [] i im h = refl
  apply_places-put_all wide v px (p ∷ ps) i im h =
      rw
        (
          apply_places,
          first,
          lt→leb_false (length pal) (index_of lut (px p))
              (get_elem?_lt pal (index_of lut (px p)) (px p) place),
          get_or-get_elem? pal (index_of lut (px p)) (px p) place,
        )
        (apply_places-put_all wide v px ps (suc i) _ later)
    where
      first : raw_index wide v.raw i ≡ index_of lut (px p)
      first = ap (λ (k : ℕ). raw_index wide v.raw k) (omega arith) ∙ (h 0 p refl).0

      place : get_elem? pal (index_of lut (px p)) ≡ some (px p)
      place = index_place (px p) (h 0 p refl).1

      later :
          (j q : ℕ)
          → get_elem? ps j ≡ some q
          → (raw_index wide v.raw (suc i + j) ≡ index_of lut (px q)) × (0 < lut (px q))
      later j q e = (
        ap (λ (k : ℕ). raw_index wide v.raw k) (omega arith) ∙ (h (suc j) q e).0,
        (h (suc j) q e).1,
      )

  pub diff_chunk-Diffs :
      (b : ℕ) (old : Image) (px : ChunkPixels) → Diffs lut b old px (diff_chunk b old px lut)
  unfolding diff_chunk mem
  diff_chunk-Diffs b old px = elim (Bool-cases (length pos == 0)) [
    | inl z ↦ rw (diff_chunk, z) (λ p h. same p h (mem_empty p pos (ground arith)))
    | inr z ↦ elim (Bool-cases (ltb 512 (length pos))) [
      | inl l ↦
          rw (diff_chunk, z, l)
            (record {
              block_is = refl;
              places = places_below 1024;
              pos_is = inr (refl, refl);
              idx_is = refl;
              below = places_below-All 1024 1024 (omega arith);
              rest_is = λ p h e.
                  absurd (true_false (sym (mem-places_below p 1024 ∙ lt→ltb p 1024 h) ∙ e));
            })
      | inr l ↦
          rw (diff_chunk, z, l)
            (record {
              block_is = refl;
              places = pos;
              pos_is = inl refl;
              idx_is = refl;
              below = IsRising-All 0 pos (diff_rows-IsRising b old px);
              rest_is = same;
            })
    ]
  ]
    where
      pos : List ℕ
      pos = diff_rows 32 b old px

      mem_empty : (p : ℕ) (xs : List ℕ) → length xs ≡ 0 → mem p xs ≡ false
      mem_empty p [] h = refl
      mem_empty p (x ∷ xs) h = absurd (omega arith)

      same : (p : ℕ) → p < 1024 → mem p pos ≡ false → old (tile_pixel_index b p) ≡ px p
      same p h e = ground (arith, diff_rows-mem 32 b p old px)

      true_false : true ≡ false → ⊥
      true_false x = cc

  apply_visit_places :
      (wide : Bool) (v : Visit) (ps : List ℕ) (im : Image)
      → (v.pos ≡ some ps) ⊎ ((v.pos ≡ none) × (ps ≡ places_below 1024))
      → apply_visit pal wide v im ≡ apply_places pal wide v 0 ps im
  apply_visit_places wide v ps im (inl e) = rw (e) refl
  apply_visit_places wide v ps im (inr (e, f)) = rw (e, f) refl

  -- The visitor of `applyDelta` sets the pixels of a change.
  pub apply_visit-put_all :
      (wide : Bool) (b : ℕ) (old : Image) (px : ChunkPixels) (c : ChunkChange) (im : Image)
      (d : IsDiff lut b old px c)
      → ((p : ℕ) → p < 1024 → 0 < lut (px p))
      → All (Fits wide) c.idx
      → apply_visit pal wide (visit_of wide c) im ≡ (true, put_all b px d.places im)
  apply_visit-put_all wide b old px c im d known fits =
      apply_visit_places wide (visit_of wide c) d.places im d.pos_is
      ∙ apply_places-put_all wide (visit_of wide c) px d.places 0 im at_place
      ∙ ap (λ (k : ℕ). (true, put_all k px d.places im)) d.block_is
    where
      at_place :
          (j p : ℕ)
          → get_elem? d.places j ≡ some p
          → (raw_index wide (put_indices wide c.idx) (0 + j) ≡ index_of lut (px p))
            × (0 < lut (px p))
      at_place j p e = (
        ap (λ (k : ℕ). raw_index wide (put_indices wide c.idx) k) (omega arith)
            ∙ raw_index-put_indices wide c.idx j (index_of lut (px p)) fits
                (ap (λ xs. get_elem? xs j) d.idx_is ∙ get_elem?-indices_of lut px d.places j p e),
        known p (All-get_elem? (λ q. q < 1024) d.places j p d.below e),
      )

  -- A block without a change has its pixels already.
  pub none-Agrees :
      (lo b : ℕ) (old im e : Image) (px : ChunkPixels)
      → lo ≤ b
      → b < 256
      → Agrees im e
      → AgreesFrom lo im old
      → Diffs lut b old px none
      → Agrees im (set_block b px e)
  none-Agrees lo b old im e px l hb ag from d j hj =
      let (in_block, in_place, back) = tile_pixel_index-pixel_block j hj in
      elim (Bool-cases (pixel_block j == b)) [
        | inl c ↦
            from j hj (ground arith)
            ∙ ap old (sym back)
            ∙ ap (λ (k : ℕ). old (tile_pixel_index k (pixel_place j)))
                ((==_iff (pixel_block j) b).0 c)
            ∙ d (pixel_place j) in_place
            ∙ sym (set_block_at b px e j hb hj ∙ rw (c) refl)
        | inr c ↦ ag j hj ∙ sym (set_block_at b px e j hb hj ∙ rw (c) refl)
      ]

  pick :
      (blk m : Bool) (x i e : ℕ)
      → (blk ≡ false → i ≡ e)
      → (blk ≡ true → m ≡ false → i ≡ x)
      → (if blk && m then x else i) ≡ (if blk then x else e)
  pick false m x i e f g = f refl
  pick true true x i e f g = refl
  pick true false x i e f g = g refl refl

  -- A block with a change gets its pixels.
  pub some-Agrees :
      (lo b : ℕ) (old im e : Image) (px : ChunkPixels) (c : ChunkChange) (d : IsDiff lut b old px c)
      → lo ≤ b
      → b < 256
      → Agrees im e
      → AgreesFrom lo im old
      → Agrees (put_all b px d.places im) (set_block b px e)
  some-Agrees lo b old im e px c d l hb ag from j hj =
      let (in_block, in_place, back) = tile_pixel_index-pixel_block j hj in
      put_all_at b px d.places im j hb d.below hj
      ∙ pick (pixel_block j == b) (mem (pixel_place j) d.places) (px (pixel_place j)) (im j) (e j)
          (λ n. ag j hj)
          (λ y m.
            from j hj (ground arith)
            ∙ ap old (sym back)
            ∙ ap (λ (k : ℕ). old (tile_pixel_index k (pixel_place j)))
                ((==_iff (pixel_block j) b).0 y)
            ∙ d.rest_is (pixel_place j) in_place m)
      ∙ sym (set_block_at b px e j hb hj)
