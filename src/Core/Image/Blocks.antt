-- ===== src/Core/Image/Blocks.antt =====
-- `Block` and `SetBlock` against a description by pixel index.
use time_shade_db.Prelude.{ℕ, zero, suc, ◌+◌, ◌-◌, ◌*◌, ◌≤◌, ◌<◌, ◌≡◌, ◌≢◌, refl, sym, ◌∙◌, arith}
use time_shade_db.Prelude.{
  ltb, leb, lt→ltb, ==_iff, ◌↔◌, ◌==◌, if◌then◌else◌, Bool, true, false, ◌&&◌,
}
use time_shade_db.Core.Grid.{tile_pixel_index, tile_pixel_count}
use time_shade_db.Core.Grid.Chunks.{pixel_block, pixel_place, tile_pixel_index_place}
use time_shade_db.Core.Image.{
  Image, ChunkPixels, copy_row, block_rows, get_block, set_rows, set_block, same_pixels, all_below,
}

block_rows_at :
    (n b : ℕ) (im : Image) (out : ChunkPixels) (p : ℕ)
    → n ≤ 32
    → block_rows n b im out p ≡ (if ltb p (n * 32) then im (tile_pixel_index b p) else out p)
unfolding block_rows copy_row tile_pixel_index
block_rows_at zero b im out p h = ground arith
block_rows_at (suc n) b im out p h = ground (arith, block_rows_at n b im out p)

-- A pixel of the chunk at a block is the pixel of the image at its index.
pub get_block_at :
    (b : ℕ) (im : Image) (p : ℕ) → p < 1024 → get_block b im p ≡ im (tile_pixel_index b p)
unfolding get_block
get_block_at b im p h = ground (arith, block_rows_at 32 b im (λ _. 0) p)

-- The pixels of a row of a block, by index and by place.
row_in :
    (b n i : ℕ)
    → b < 256
    → n < 32
    → i < tile_pixel_count
    → tile_pixel_index b (n * 32) ≤ i
    → i < tile_pixel_index b (n * 32) + 32
    → (pixel_block i ≡ b) × (pixel_place i ≡ n * 32 + (i - tile_pixel_index b (n * 32)))
unfolding tile_pixel_index
row_in b n i hb hn hi lo hi' = omega arith

row_out :
    (b n i : ℕ)
    → b < 256
    → n < 32
    → i < tile_pixel_count
    → pixel_block i ≡ b
    → n * 32 ≤ pixel_place i
    → pixel_place i < n * 32 + 32
    → (tile_pixel_index b (n * 32) ≤ i) × (i < tile_pixel_index b (n * 32) + 32)
unfolding tile_pixel_index
row_out b n i hb hn hi e lo hi' = omega arith

-- One round of the loop, on the numbers that the tests read.
round_at :
    (t i blk b place n : ℕ) (px : ChunkPixels) (old base : ℕ)
    → (t ≤ i → i < t + 32 → (blk ≡ b) × (place ≡ n * 32 + (i - t)))
    → (blk ≡ b → n * 32 ≤ place → place < n * 32 + 32 → (t ≤ i) × (i < t + 32))
    → old ≡ (if (blk == b) && ltb place (n * 32) then px place else base)
    → (if leb t i && ltb i (t + 32) then px (n * 32 + (i - t)) else old)
      ≡ (if (blk == b) && ltb place (suc n * 32) then px place else base)
round_at t i blk b place n px old base into out e = ground (arith, into, out)

set_rows_at :
    (n b : ℕ) (px : ChunkPixels) (im : Image) (i : ℕ)
    → n ≤ 32
    → b < 256
    → i < tile_pixel_count
    → set_rows n b px im i
      ≡ (if (pixel_block i == b) && ltb (pixel_place i) (n * 32) then px (pixel_place i) else im i)
unfolding set_rows copy_row
set_rows_at zero b px im i h hb hi = before (pixel_block i == b) (pixel_place i)
  where
    before : (c : Bool) (p : ℕ) → im i ≡ (if c && ltb p (0 * 32) then px p else im i)
    before true p = ground arith
    before false p = refl
set_rows_at (suc n) b px im i h hb hi =
    round_at (tile_pixel_index b (n * 32)) i (pixel_block i) b (pixel_place i) n px
      (set_rows n b px im i) (im i) (row_in b n i hb (omega arith) hi)
      (row_out b n i hb (omega arith) hi) (set_rows_at n b px im i (omega arith) hb hi)

all_rows : (i : ℕ) → ltb (pixel_place i) (32 * 32) ≡ true
all_rows i = lt→ltb _ _ (omega arith)

and_true : (c : Bool) → c && true ≡ c
and_true true = refl
and_true false = refl

-- For a block below 256 and an index of the tile image, `SetBlock` writes the chunk's pixel where
-- the index belongs to the block, and leaves the image's own elsewhere.
pub set_block_at :
    (b : ℕ) (px : ChunkPixels) (im : Image) (i : ℕ)
    → b < 256
    → i < tile_pixel_count
    → set_block b px im i ≡ (if pixel_block i == b then px (pixel_place i) else im i)
unfolding set_block
set_block_at b px im i hb hi =
    set_rows_at 32 b px im i (omega arith) hb hi ∙ rw (all_rows i, and_true (pixel_block i == b))

-- For a block below 256 and a pixel below 1024, `Block` reads the pixel that `SetBlock` wrote.
pub get_block-set_block_self :
    (b : ℕ) (px : ChunkPixels) (im : Image) (p : ℕ)
    → b < 256
    → p < 1024
    → get_block b (set_block b px im) p ≡ px p
get_block-set_block_self b px im p hb hp =
    let (inside, blk, place) = tile_pixel_index_place b p hb hp in
    get_block_at b (set_block b px im) p hp
    ∙ set_block_at b px im (tile_pixel_index b p) hb inside
    ∙ rw (blk, place) (ground arith)

-- For two different blocks below 256 and a pixel below 1024, `SetBlock` of one leaves what `Block`
-- reads of the other.
pub get_block-set_block_ne :
    (b c : ℕ) (px : ChunkPixels) (im : Image) (p : ℕ)
    → b < 256
    → c < 256
    → c ≢ b
    → p < 1024
    → get_block c (set_block b px im) p ≡ get_block c im p
get_block-set_block_ne b c px im p hb hc ne hp =
    let (inside, blk, place) = tile_pixel_index_place c p hc hp in
    get_block_at c (set_block b px im) p hp
    ∙ set_block_at b px im (tile_pixel_index c p) hb inside
    ∙ rw (blk, place) (ground arith)
    ∙ sym (get_block_at c im p hp)

all_below_sound : (n : ℕ) (t : ℕ → Bool) (i : ℕ) → all_below n t ≡ true → i < n → t i ≡ true
unfolding all_below
all_below_sound zero t i h lt = absurd (omega arith)
all_below_sound (suc n) t i h lt = ground (arith, all_below_sound n t i)

all_below_complete : (n : ℕ) (t : ℕ → Bool) → ((i : ℕ) → i < n → t i ≡ true) → all_below n t ≡ true
unfolding all_below
all_below_complete zero t h = refl
all_below_complete (suc n) t h =
    rw (all_below_complete n t (λ i lt. h i (omega arith)), h n (omega arith))

-- The array comparison tells whether the first n elements agree.
pub same_pixels_iff :
    (n : ℕ) (p q : ℕ → ℕ) → (same_pixels n p q ≡ true) ↔ ((i : ℕ) → i < n → p i ≡ q i)
unfolding same_pixels
same_pixels_iff n p q = (
  λ h i lt. (==_iff (p i) (q i)).0 (all_below_sound n (λ j. p j == q j) i h lt),
  λ h. all_below_complete n (λ j. p j == q j) (λ i lt. (==_iff (p i) (q i)).1 (h i lt)),
)
