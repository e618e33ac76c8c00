-- ===== src/Terrain/Commit.antt =====
-- internal/terrain/store.go: what `commitTile` makes of one window of a tile, and `maxIndex` of
-- internal/terrain/codec.go. A window is its chunks by block, in the order of the sorted blocks.
pub mod Places
pub mod Apply
pub mod Window
mod Tests
use time_shade_db.Prelude.{ℕ, ltb, if◌then◌else◌, Bool, Option, none, some, List, [], ◌∷◌}
use time_shade_db.Core.Image.{Image, ChunkPixels, set_block}
use time_shade_db.Terrain.Codec.{ChunkChange, diff_chunk, encode_delta}

unfoldable pub max_of : ℕ → List ℕ → ℕ
max_of m [] = m
max_of m (v ∷ vs) = max_of (if ltb m v then v else m) vs

-- The loops of `maxIndex`, from a value on.
unfoldable pub max_index : ℕ → List ChunkChange → ℕ
max_index m [] = m
max_index m (c ∷ cs) = max_index (max_of m c.idx) cs

-- The changes of the blocks against the current image.
unfoldable pub window_changes : (ℕ → ℕ) → Image → List (ℕ × ChunkPixels) → List ChunkChange
window_changes pal cur [] = []
window_changes pal cur ((b, px) ∷ chunks) =
    let rest = window_changes pal cur chunks in
    elim (diff_chunk b cur px pal) [ none ↦ rest | some c ↦ c ∷ rest ]

-- The new current image.
unfoldable pub window_image : List (ℕ × ChunkPixels) → Image → Image
window_image [] cur = cur
window_image ((b, px) ∷ chunks) cur = window_image chunks (set_block b px cur)

abbrev pub is_wide : List ChunkChange → Bool
is_wide changes = ltb 255 (max_index 0 changes)

-- The flag and the payload of the delta record before compression.
abbrev pub window_delta : (ℕ → ℕ) → Image → List (ℕ × ChunkPixels) → Bool × List ℕ
window_delta pal cur chunks =
    let changes = window_changes pal cur chunks in
    (is_wide changes, encode_delta (is_wide changes) changes)
