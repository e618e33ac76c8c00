-- ===== src/Terrain/Codec.antt =====
-- internal/terrain/codec.go: delta blocks, which hold the changed pixels of the chunks of a tile by
-- palette index. `Uvarint` and `AppendUvarint` are those of encoding/binary. Buffers that are reused
-- are new lists.
pub mod Varint
pub mod Bitmap
pub mod RoundTrip
pub mod Diff
mod Tests
use time_shade_db.Prelude.{
  ℕ, zero, suc, ◌+◌, ◌-◌, ◌*◌, ◌/◌, ◌%◌, ◌^◌, ltb, leb, ◌==◌, if◌then◌else◌, not, ◌||◌,
}
use time_shade_db.Prelude.{
  Bool, true, false, Option, none, some, List, [], ◌∷◌, ◌++◌, length, take, drop, get_or, replicate,
  bit_and, bit_or,
}
use time_shade_db.Prelude.Words.{put_u16, get_u16}
use time_shade_db.Core.Grid.{tile_pixel_index}
use time_shade_db.Core.Image.{Image, ChunkPixels, put_pixel}

-- `chunkChange`; `none` is the nil slice of positions.
pub record ChunkChange : Type 0 where
  pub block : ℕ
  pub pos : Option (List ℕ)
  pub idx : List ℕ

-- The loop of `binary.AppendUvarint`; a uint64 has at most ten groups of seven bits.
unfoldable pub uvarint_groups : ℕ → ℕ → List ℕ
uvarint_groups zero x = x % 256 ∷ []
uvarint_groups (suc fuel) x =
    let rest = uvarint_groups fuel (x / 128) in if leb 128 x then (128 + x % 128) ∷ rest else x ∷ []

abbrev pub put_uvarint : ℕ → List ℕ
put_uvarint x = uvarint_groups 9 x

-- `binary.Uvarint` from byte number i on: the value and what follows it, `none` where k <= 0.
unfoldable pub uvarint_from : ℕ → ℕ → List ℕ → Option (ℕ × List ℕ)
uvarint_from i x [] = none
uvarint_from i x (b ∷ bs) =
    let rest = uvarint_from (suc i) (x + b % 128 * 2 ^ (7 * i)) bs in
    if i == 10
    then none
    else (if ltb b 128
        then (if (i == 9)
            then (if ltb 1 b then none else some (x + b * 2 ^ (7 * i), bs))
            else some (x + b * 2 ^ (7 * i), bs))
        else rest)

abbrev pub uvarint : List ℕ → Option (ℕ × List ℕ)
uvarint p = uvarint_from 0 0 p

-- The differing pixels of one row of a chunk.
unfoldable pub diff_row : ℕ → ℕ → ℕ → Image → ChunkPixels → List ℕ
diff_row zero block row old px = []
diff_row (suc n) block row old px =
    let front = diff_row n block row old px in
    let p = row * 32 + n in
    if old (tile_pixel_index block (row * 32) + n) == px p then front else front ++ (p ∷ [])

unfoldable pub diff_rows : ℕ → ℕ → Image → ChunkPixels → List ℕ
diff_rows zero block old px = []
diff_rows (suc n) block old px = diff_rows n block old px ++ diff_row 32 block n old px

-- The index of a colour: `uint16(pal[v] - 1)`, where pal maps colours to indices plus one.
abbrev pub index_of : (ℕ → ℕ) → ℕ → ℕ
index_of pal c = (pal c + 2 ^ 32 - 1) % 2 ^ 16

unfoldable pub indices_of : (ℕ → ℕ) → ChunkPixels → List ℕ → List ℕ
indices_of pal px [] = []
indices_of pal px (p ∷ ps) = index_of pal (px p) ∷ indices_of pal px ps

-- The places 0 to n - 1.
unfoldable pub places_below : ℕ → List ℕ
places_below zero = []
places_below (suc n) = places_below n ++ (n ∷ [])

-- `diffChunk`
unfoldable pub diff_chunk : ℕ → Image → ChunkPixels → (ℕ → ℕ) → Option ChunkChange
diff_chunk block old px pal =
    let pos = diff_rows 32 block old px in
    if length pos == 0
    then none
    else (if ltb 512 (length pos)
        then some
            (record { block = block; pos = none; idx = indices_of pal px (places_below 1024) })
        else some (record { block = block; pos = some pos; idx = indices_of pal px pos }))

-- The gaps between positions, from the first one that may follow; a negative gap wraps in a uint64.
unfoldable pub put_gaps : ℕ → List ℕ → List ℕ
put_gaps next [] = []
put_gaps next (p ∷ ps) = put_uvarint ((p + 2 ^ 64 - next) % 2 ^ 64) ++ put_gaps (suc p) ps

-- One bit of the bitmap.
unfoldable pub set_bit : ℕ → List ℕ → List ℕ
set_bit p [] = []
set_bit p (b ∷ bs) =
    let rest = set_bit (p - 8) bs in if ltb p 8 then bit_or b (2 ^ p) ∷ bs else b ∷ rest

unfoldable pub set_bits : List ℕ → List ℕ → List ℕ
set_bits [] bm = bm
set_bits (p ∷ ps) bm = set_bits ps (set_bit p bm)

abbrev pub put_positions : ℕ → Option (List ℕ) → List ℕ
put_positions n none = []
put_positions n (some ps) = if leb n 128 then put_gaps 0 ps else set_bits ps (replicate 128 0)

unfoldable pub put_indices : Bool → List ℕ → List ℕ
put_indices wide [] = []
put_indices wide (v ∷ vs) =
    let rest = put_indices wide vs in if wide then put_u16 v ++ rest else (v % 256) ∷ rest

-- One round of `encodeDelta`.
abbrev pub put_change : Bool → ChunkChange → List ℕ
put_change wide c =
    put_uvarint c.block
    ++ (put_uvarint (length c.idx)
        ++ (put_positions (length c.idx) c.pos ++ put_indices wide c.idx))

-- `encodeDelta`
unfoldable pub encode_delta : Bool → List ChunkChange → List ℕ
encode_delta wide [] = []
encode_delta wide (c ∷ cs) = put_change wide c ++ encode_delta wide cs

-- What a visitor receives.
pub record Visit : Type 0 where
  pub block : ℕ
  pub count : ℕ
  pub pos : Option (List ℕ)
  pub raw : List ℕ

-- The positions by their gaps, and what follows them.
unfoldable pub read_gaps : ℕ → ℕ → List ℕ → Option (List ℕ × List ℕ)
read_gaps zero next p = some ([], p)
read_gaps (suc n) next p = elim (uvarint p) [
  | none ↦ none
  | some (d, r) ↦
      let rest = read_gaps n (suc (next + d)) r in
      if leb 1024 d || leb 1024 (next + d)
      then none
      else elim rest [ none ↦ none | some (ps, r') ↦ some ((next + d) ∷ ps, r') ]
]

-- `trailingZeros8` of a byte that is not 0.
unfoldable pub trailing_zeros : ℕ → ℕ → ℕ
trailing_zeros zero b = 0
trailing_zeros (suc fuel) b =
    let rest = trailing_zeros fuel (b / 2) in if b % 2 == 0 then suc rest else 0

-- The positions of the bits of byte i, lowest first.
unfoldable pub byte_positions : ℕ → ℕ → ℕ → List ℕ
byte_positions zero i bits = []
byte_positions (suc fuel) i bits =
    let rest = byte_positions fuel i (bit_and bits (bits - 1)) in
    if bits == 0 then [] else (i * 8 + trailing_zeros 8 bits) ∷ rest

unfoldable pub bitmap_positions : ℕ → List ℕ → List ℕ
bitmap_positions i [] = []
bitmap_positions i (b ∷ bs) = byte_positions 8 i b ++ bitmap_positions (suc i) bs

-- The switch on the number of pixels: the positions and what follows them.
unfoldable pub read_positions : ℕ → List ℕ → Option (Option (List ℕ) × List ℕ)
read_positions n p =
    if n == 1024
    then some (none, p)
    else (if leb n 128
        then elim (read_gaps n 0 p) [ none ↦ none | some (ps, r) ↦ some (some ps, r) ]
        else (let ps = bitmap_positions 0 (take 128 p) in
            if ltb (length p) 128 || not (length ps == n)
            then none
            else some (some ps, drop 128 p)))

-- One round of `walkDelta` up to the visit, for blocks from `next` on.
unfoldable pub read_change : ℕ → ℕ → List ℕ → Option (Visit × List ℕ)
read_change width next p = elim (uvarint p) [
  | none ↦ none
  | some (b, p1) ↦ if ltb 255 b || ltb b next then none else elim (uvarint p1) [
    | none ↦ none
    | some (n, p2) ↦ if ltb n 1 || ltb 1024 n then none else elim (read_positions n p2) [
      | none ↦ none
      | some (pos, p3) ↦
          if ltb (length p3) (n * width)
          then none
          else some (
            record { block = b; count = n; pos = pos; raw = take (n * width) p3 },
            drop (n * width) p3,
          )
    ]
  ]
]

module _ {S : Type 0} (visit : Visit → S → Bool × S) where
  -- The loop of `walkDelta`; a round takes at least one byte. The state is that of the visitor, and
  -- the Boolean tells whether there was no error.
  unfoldable pub walk_from : ℕ → ℕ → ℕ → List ℕ → S → Bool × S
  walk_from fuel width next [] s = (true, s)
  walk_from zero width next (c ∷ p) s = (false, s)
  walk_from (suc fuel) width next (c ∷ p) s = elim (read_change width next (c ∷ p)) [
    | none ↦ (false, s)
    | some (v, rest) ↦
        let (ok, s') = visit v s in
        let after = walk_from fuel width (suc v.block) rest s' in if ok then after else (false, s')
  ]

  -- `walkDelta`
  abbrev pub walk_delta : Bool → List ℕ → S → Bool × S
  walk_delta wide p s = walk_from (length p) (if wide then 2 else 1) 0 p s

-- The pixel number i that a visitor gets, as a palette index.
abbrev pub raw_index : Bool → List ℕ → ℕ → ℕ
raw_index wide raw i = if wide then get_u16 (drop (2 * i) raw) else get_or raw i 0

-- The loop of `applyDelta` over the positions of a chunk, from pixel number i on.
unfoldable pub apply_places : List ℕ → Bool → Visit → ℕ → List ℕ → Image → Bool × Image
apply_places pal wide v i [] im = (true, im)
apply_places pal wide v i (p ∷ ps) im =
    let c = raw_index wide v.raw i in
    let rest =
      apply_places pal wide v (suc i) ps
        (put_pixel (tile_pixel_index v.block p) (get_or pal c 0) im) in
    if leb (length pal) c then (false, im) else rest

-- The visitor of `applyDelta`.
abbrev pub apply_visit : List ℕ → Bool → Visit → Image → Bool × Image
apply_visit pal wide v im = elim v.pos [
  | none ↦ apply_places pal wide v 0 (places_below 1024) im
  | some ps ↦ apply_places pal wide v 0 ps im
]

-- `applyDelta`
unfoldable pub apply_delta : List ℕ → Bool → List ℕ → Image → Bool × Image
apply_delta pal wide p im = walk_delta (apply_visit pal wide) wide p im
