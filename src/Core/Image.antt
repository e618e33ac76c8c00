-- ===== src/Core/Image.antt =====
-- internal/core/pixels.go, the tile images, and `downsample` of internal/pyramid/downsample.go.
-- An array of fixed length is the function from its indices to its elements: the code indexes
-- within the length only (262,144 pixels of a tile, 1,024 of a chunk), and the values beyond it
-- mean nothing. A slice write is an update of the function, loop by loop as the code makes it.
pub mod Blocks
pub mod Downsample
mod Tests
use time_shade_db.Prelude.{
  ℕ, zero, suc, ◌+◌, ◌-◌, ◌*◌, ◌/◌, ◌%◌, ◌<◌, ltb, leb, ◌==◌, if◌then◌else◌,
}
use time_shade_db.Prelude.{Bool, true, false, ◌&&◌, List, [], ◌∷◌, Option, none, some}
use time_shade_db.Core.Grid.{
  chunk_size, chunk_pixel_count, tile_size, tile_pixel_count, tile_pixel_index,
}
use time_shade_db.Core.Pixels.{average4, packed_average}

-- A `TileImage`, and a `ChunkPixels`.
abbrev pub Image : Type 0
Image = ℕ → ℕ

abbrev pub ChunkPixels : Type 0
ChunkPixels = ℕ → ℕ

-- `NewTileImage`
unfoldable pub new_tile_image : Image
new_tile_image i = 0

-- Whether a test holds below n, from the first index on.
unfoldable pub all_below : ℕ → (ℕ → Bool) → Bool
all_below zero p = true
all_below (suc n) p = all_below n p && p n

-- `==` on two ChunkPixels, and `Equal` on two images.
unfoldable pub same_pixels : ℕ → (ℕ → ℕ) → (ℕ → ℕ) → Bool
unfolding all_below
same_pixels n p q = all_below n (λ i. p i == q i)

-- `IsEmpty`
unfoldable pub is_empty : Image → Bool
unfolding all_below
is_empty im = all_below tile_pixel_count (λ i. im i == 0)

-- `copy(dst[at:at+n], src[from:from+n])`
unfoldable pub copy_row : Image → ℕ → (ℕ → ℕ) → ℕ → ℕ → Image
copy_row dst at src from n i = if leb at i && ltb i (at + n) then src (from + (i - at)) else dst i

-- The first rows of the loop of `Block`, into `out`.
unfoldable pub block_rows : ℕ → ℕ → Image → ChunkPixels → ChunkPixels
unfolding copy_row
block_rows zero block im out = out
block_rows (suc row) block im out =
    copy_row (block_rows row block im out) (row * chunk_size) im
      (tile_pixel_index block (row * chunk_size)) chunk_size

-- `Block`: the chunk at a block of the image.
unfoldable pub get_block : ℕ → Image → ChunkPixels
unfolding block_rows
get_block block im = block_rows chunk_size block im (λ i. 0)

-- The first rows of the loop of `SetBlock`.
unfoldable pub set_rows : ℕ → ℕ → ChunkPixels → Image → Image
unfolding copy_row
set_rows zero block px im = im
set_rows (suc row) block px im =
    copy_row (set_rows row block px im) (tile_pixel_index block (row * chunk_size)) px
      (row * chunk_size) chunk_size

-- `SetBlock`
unfoldable pub set_block : ℕ → ChunkPixels → Image → Image
unfolding set_rows
set_block block px im = set_rows chunk_size block px im

-- `pix[i] = v`
unfoldable pub put_pixel : ℕ → ℕ → Image → Image
put_pixel i v im j = if i == j then v else im j

-- `half` of the two downsampling functions.
abbrev pub half_size : ℕ
half_size = tile_size / 2

-- The loops over x and y of `Downsample`
unfoldable pub down_pixel : Image → ℕ → ℕ → ℕ
down_pixel child x y =
    let i = 2 * y * tile_size + 2 * x in
    average4 (child i) (child (i + 1)) (child (i + tile_size)) (child (i + tile_size + 1))

unfoldable pub down_row : ℕ → Image → ℕ → ℕ → ℕ → Image → Image
down_row zero child ox oy y out = out
down_row (suc x) child ox oy y out =
    put_pixel ((oy + y) * tile_size + ox + x) (down_pixel child x y) (down_row x child ox oy y out)

unfoldable pub down_rows : ℕ → Image → ℕ → ℕ → Image → Image
down_rows zero child ox oy out = out
down_rows (suc y) child ox oy out = down_row half_size child ox oy y (down_rows y child ox oy out)

-- The loop over the quadrants, from the q-th on; a nil child is skipped.
unfoldable pub down_children : List (Option Image) → ℕ → Image → Image
down_children [] q out = out
down_children (none ∷ cs) q out = down_children cs (suc q) out
down_children (some child ∷ cs) q out =
    down_children cs (suc q) (down_rows half_size child (q % 2 * half_size) (q / 2 * half_size) out)

-- `core.Downsample`
unfoldable pub core_downsample : List (Option Image) → Image
core_downsample children = down_children children 0 new_tile_image

infixl 5 ◌>>=◌
abbrev pub ◌>>=◌ {ℓ κ} : {A : Type ℓ} {B : Type κ} → Option A → (A → Option B) → Option B
none >>= f = none
some a >>= f = f a

-- A slice of the pixels of a tile: where it begins, and its length.
pub record Slice : Type 0 where
  pub from : ℕ
  pub len : ℕ

-- `pix[from:to]`; `none` is the panic of a slice out of bounds.
unfoldable pub slice : ℕ → ℕ → Option Slice
slice from to =
    if leb from to && leb to tile_pixel_count
    then some (record { from = from; len = to - from })
    else none

-- `r[i]`, and `o[i] = v`, which writes to the image below; `none` is the panic of an index out of
-- range.
unfoldable pub slice_at : Image → Slice → ℕ → Option ℕ
slice_at im r i = if ltb i r.len then some (im (r.from + i)) else none

unfoldable pub set_slice : Slice → ℕ → ℕ → Image → Option Image
set_slice o i v im = if ltb i o.len then some (put_pixel (o.from + i) v im) else none

-- The loop `for x := range o` of `downsampleInto`, its first n rounds, over two rows of the child.
unfoldable pub pack_row : ℕ → Image → Slice → Slice → Slice → Image → Option Image
pack_row zero child r0 r1 o out = some out
pack_row (suc x) child r0 r1 o out = pack_row x child r0 r1 o out >>= λ im.
    slice_at child r0 (2 * x) >>= λ a. slice_at child r0 (2 * x + 1) >>= λ b.
    slice_at child r1 (2 * x) >>= λ c.
    slice_at child r1 (2 * x + 1) >>= λ d. set_slice o x (packed_average a b c d) im

-- The first rounds of the loop over y of `downsampleInto`.
unfoldable pub downsample_rows : ℕ → Image → Image → ℕ → ℕ → Option Image
downsample_rows zero out child ox oy = some out
downsample_rows (suc y) out child ox oy = downsample_rows y out child ox oy >>= λ im.
    slice (2 * y * tile_size) ((2 * y + 1) * tile_size) >>= λ r0.
    slice ((2 * y + 1) * tile_size) ((2 * y + 2) * tile_size) >>= λ r1.
    slice ((oy + y) * tile_size + ox) ((oy + y) * tile_size + ox + half_size) >>= λ o.
    pack_row o.len child r0 r1 o im

-- `downsampleInto`
unfoldable pub downsample_into : Image → Image → ℕ → ℕ → Option Image
downsample_into out child ox oy = downsample_rows half_size out child ox oy

-- The loop of `downsample` over the children, from the q-th on.
unfoldable pub pyramid_children : List (Option Image) → ℕ → Image → Option Image
pyramid_children [] q out = some out
pyramid_children (none ∷ cs) q out = pyramid_children cs (suc q) out
pyramid_children (some child ∷ cs) q out =
    downsample_into out child (q % 2 * half_size) (q / 2 * half_size) >>= λ im.
    pyramid_children cs (suc q) im

-- `pyramid.downsample`
unfoldable pub pyramid_downsample : List (Option Image) → Option Image
pyramid_downsample children = pyramid_children children 0 new_tile_image
