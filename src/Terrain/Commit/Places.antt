-- ===== src/Terrain/Commit/Places.antt =====
-- The pixels that a change sets, and those that `diffChunk` leaves out.
use time_shade_db.Prelude.{
  ℕ, zero, suc, ◌+◌, ◌*◌, ◌≤◌, ◌<◌, ◌≡◌, refl, sym, ap, ◌∙◌, arith, ◌==◌, ==_iff, ltb, leb,
  if◌then◌else◌, inl, inr, Bool-cases, not, ◌||◌, ◌&&◌, subst,
}
use time_shade_db.Prelude.{Bool, true, false, List, [], ◌∷◌, ◌++◌, All, All-append}
use time_shade_db.Core.Grid.{tile_pixel_index, tile_pixel_count}
use time_shade_db.Core.Grid.Chunks.{
  pixel_block, pixel_place, tile_pixel_index_place, tile_pixel_index-pixel_block,
}
use time_shade_db.Core.Image.{Image, ChunkPixels, put_pixel}
use time_shade_db.Terrain.Codec.{diff_row, diff_rows, places_below}

-- The pixels of a chunk at some places.
unfoldable pub put_all : ℕ → ChunkPixels → List ℕ → Image → Image
put_all b px [] im = im
put_all b px (p ∷ ps) im = put_all b px ps (put_pixel (tile_pixel_index b p) (px p) im)

unfoldable pub mem : ℕ → List ℕ → Bool
mem p [] = false
mem p (q ∷ qs) = (q == p) || mem p qs

mem-append : (p : ℕ) (xs ys : List ℕ) → mem p (xs ++ ys) ≡ (mem p xs || mem p ys)
unfolding mem
mem-append p [] ys = refl
mem-append p (x ∷ xs) ys = elim (Bool-cases (x == p)) [
  | inl c ↦ rw (c) refl
  | inr c ↦ rw (c) (mem-append p xs ys)
]

pub mem-places_below : (p n : ℕ) → mem p (places_below n) ≡ ltb p n
unfolding mem places_below
mem-places_below p zero = ground arith
mem-places_below p (suc n) =
    rw (mem-append p (places_below n) (n ∷ []), mem-places_below p n) (ground arith)

pub places_below-All : (n m : ℕ) → n ≤ m → All (λ p. p < m) (places_below n)
unfolding places_below
places_below-All zero m h = tt
places_below-All (suc n) m h =
    All-append (λ p. p < m) (places_below n) (n ∷ []) (places_below-All n m (omega arith))
      (omega arith, tt)

-- The pixel of an index is that of one place.
same_place :
    (b p j : ℕ)
    → b < 256
    → p < 1024
    → j < tile_pixel_count
    → (tile_pixel_index b p == j) ≡ ((pixel_block j == b) && (p == pixel_place j))
same_place b p j hb hp hj = elim (Bool-cases (tile_pixel_index b p == j)) [
  | inl c ↦
      subst (λ k. (tile_pixel_index b p == k) ≡ ((pixel_block k == b) && (p == pixel_place k)))
        ((==_iff (tile_pixel_index b p) j).0 c)
        (let (inside, blk, place) = tile_pixel_index_place b p hb hp in
          rw (blk, place) (ground arith))
  | inr c ↦ c ∙ sym (elsewhere c)
]
  where
    at_place : pixel_block j ≡ b → p ≡ pixel_place j → (tile_pixel_index b p == j) ≡ true
    at_place d e = (==_iff (tile_pixel_index b p) j).1 (
        let (in_block, in_place, back) = tile_pixel_index-pixel_block j hj in
        ap (λ (x : ℕ). tile_pixel_index x p) (sym d)
        ∙ ap (λ (y : ℕ). tile_pixel_index (pixel_block j) y) e
        ∙ back)

    true_false : true ≡ false → ⊥
    true_false x = cc

    elsewhere :
        (tile_pixel_index b p == j) ≡ false → ((pixel_block j == b) && (p == pixel_place j)) ≡ false
    elsewhere c = elim (Bool-cases (pixel_block j == b)) [
      | inr d ↦ rw (d) refl
      | inl d ↦ elim (Bool-cases (p == pixel_place j)) [
        | inr e ↦ rw (d, e) refl
        | inl e ↦ absurd (
            true_false (
              sym (at_place ((==_iff (pixel_block j) b).0 d) ((==_iff p (pixel_place j)).0 e)) ∙ c))
      ]
    ]

-- One more place.
one_more :
    (blk here there : Bool) (x y z : ℕ)
    → (here ≡ true → y ≡ x)
    → (if blk && there then x else (if blk && here then y else z))
      ≡ (if blk && (here || there) then x else z)
one_more false here there x y z h = refl
one_more true true true x y z h = refl
one_more true true false x y z h = h refl
one_more true false there x y z h = refl

-- The image after the pixels of some places were set.
pub put_all_at :
    (b : ℕ) (px : ChunkPixels) (ps : List ℕ) (im : Image) (j : ℕ)
    → b < 256
    → All (λ p. p < 1024) ps
    → j < tile_pixel_count
    → put_all b px ps im j
      ≡ (if (pixel_block j == b) && mem (pixel_place j) ps then px (pixel_place j) else im j)
unfolding put_all mem put_pixel
put_all_at b px [] im j hb h hj = ground arith
put_all_at b px (p ∷ ps) im j hb (h, hs) hj =
    put_all_at b px ps (put_pixel (tile_pixel_index b p) (px p) im) j hb hs hj
    ∙ rw (same_place b p j hb h hj) (
        one_more (pixel_block j == b) (p == pixel_place j) (mem (pixel_place j) ps)
          (px (pixel_place j)) (px p) (im j) (λ e. ap px ((==_iff p (pixel_place j)).0 e)))

mem-if :
    (d : Bool) (p q : ℕ) (xs : List ℕ)
    → mem p (if d then xs else xs ++ (q ∷ [])) ≡ (mem p xs || (not d && q == p))
unfolding mem
mem-if true p q xs = or_false (mem p xs)
  where
    or_false : (c : Bool) → c ≡ (c || false)
    or_false true = refl
    or_false false = refl
mem-if false p q xs = mem-append p xs (q ∷ []) ∙ ap (λ c. mem p xs || c) (or_false (q == p))
  where
    or_false : (c : Bool) → (c || false) ≡ c
    or_false true = refl
    or_false false = refl

next_index :
    (b row n : ℕ) → n < 32 → tile_pixel_index b (row * 32) + n ≡ tile_pixel_index b (row * 32 + n)
unfolding tile_pixel_index
next_index b row n h = omega arith

no_place : (lo p : ℕ) (e : Bool) → false ≡ (leb lo p && (ltb p (lo + 0) && e))
no_place lo p e = ground arith

no_rows : (p : ℕ) (e : Bool) → false ≡ (ltb p (0 * 32) && e)
no_rows p e = ground arith

-- One more place of a row, on the numbers that the tests read.
row_step :
    (lo n p : ℕ) (d e : Bool)
    → (lo + n ≡ p → d ≡ e)
    → (leb lo p && (ltb p (lo + n) && not e) || (not d && (lo + n) == p))
      ≡ (leb lo p && (ltb p (lo + suc n) && not e))
row_step lo n p d e h = ground (arith, h)

-- `diffChunk` finds a place exactly where the pixels differ.
diff_row-mem :
    (n b row p : ℕ) (old : Image) (px : ChunkPixels)
    → n ≤ 32
    → mem p (diff_row n b row old px)
      ≡ (leb (row * 32) p && (ltb p (row * 32 + n) && not (old (tile_pixel_index b p) == px p)))
unfolding diff_row mem
diff_row-mem zero b row p old px h =
    no_place (row * 32) p (not (old (tile_pixel_index b p) == px p))
diff_row-mem (suc n) b row p old px h =
    mem-if (old (tile_pixel_index b (row * 32) + n) == px (row * 32 + n)) p (row * 32 + n)
      (diff_row n b row old px)
    ∙ rw (diff_row-mem n b row p old px (omega arith), next_index b row n (omega arith))
        (row_step (row * 32) n p (old (tile_pixel_index b (row * 32 + n)) == px (row * 32 + n))
          (old (tile_pixel_index b p) == px p)
          (λ e. ap (λ (q : ℕ). old (tile_pixel_index b q) == px q) e))

rows_step :
    (n p : ℕ) (e : Bool)
    → (ltb p (n * 32) && not e || (leb (n * 32) p && (ltb p (n * 32 + 32) && not e)))
      ≡ (ltb p (suc n * 32) && not e)
rows_step n p e = ground arith

pub diff_rows-mem :
    (n b p : ℕ) (old : Image) (px : ChunkPixels)
    → mem p (diff_rows n b old px) ≡ (ltb p (n * 32) && not (old (tile_pixel_index b p) == px p))
unfolding diff_rows mem
diff_rows-mem zero b p old px = no_rows p (not (old (tile_pixel_index b p) == px p))
diff_rows-mem (suc n) b p old px =
    mem-append p (diff_rows n b old px) (diff_row 32 b n old px)
    ∙ rw (diff_rows-mem n b p old px, diff_row-mem 32 b n p old px (omega arith))
        (rows_step n p (old (tile_pixel_index b p) == px p))
