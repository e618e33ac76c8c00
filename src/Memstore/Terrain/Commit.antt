-- ===== src/Memstore/Terrain/Commit.antt =====
-- `Commit` of the reference terrain store: the windows that end are closed, in time order.
use time_shade_db.Prelude.{ℕ, ltb, if◌then◌else◌}
use time_shade_db.Prelude.{none, some, List, [], ◌∷◌, ◌++◌}
use time_shade_db.Prelude.Int.{ℤ, ltb_ℤ, leb_ℤ, ◌+ℤ◌, int64}
use time_shade_db.Prelude.Maps.{Map, lookup, erase, keys, int_Eq, nat_Eq}
use time_shade_db.Core.Time.{window_start}
use time_shade_db.Core.Grid.{TileCoord, chunk_pixel_count}
use time_shade_db.Core.Keys.{DatastoreKey}
use time_shade_db.Core.Image.{Image, get_block, set_block, same_pixels}
use time_shade_db.Memstore.Terrain.{Outcome, done, failed, closed_error, ChunkDelta}
use time_shade_db.Memstore.Terrain.{Window, TerrainTile, TerrainDs, Terrain, or_empty}

-- `sort.Slice` of the window starts, which are distinct.
unfoldable pub insert_start : ℤ → List ℤ → List ℤ
insert_start a [] = a ∷ []
insert_start a (b ∷ bs) = let rest = insert_start a bs in if ltb_ℤ a b then a ∷ b ∷ bs else b ∷ rest

unfoldable pub sort_starts : List ℤ → List ℤ
unfolding insert_start
sort_starts [] = []
sort_starts (a ∷ as') = insert_start a (sort_starts as')

-- The window starts before the new horizon.
unfoldable pub starts_before : ℤ → List ℤ → List ℤ
starts_before h [] = []
starts_before h (a ∷ as') = let rest = starts_before h as' in if ltb_ℤ a h then a ∷ rest else rest

-- `sort.Ints` of the blocks.
unfoldable pub insert_block : ℕ → List ℕ → List ℕ
insert_block a [] = a ∷ []
insert_block a (b ∷ bs) = let rest = insert_block a bs in if ltb a b then a ∷ b ∷ bs else b ∷ rest

unfoldable pub sort_blocks : List ℕ → List ℕ
unfolding insert_block
sort_blocks [] = []
sort_blocks (a ∷ as') = insert_block a (sort_blocks as')

-- The deltas of a window: its updates that differ from the committed content, in block order.
unfoldable pub changed : Image → Window → List ℕ → List ChunkDelta
changed current win [] = []
changed current win (b ∷ bs) =
    let rest = changed current win bs in
    elim (lookup b win) [
      | none ↦ rest
      | some u ↦
          if same_pixels chunk_pixel_count (get_block b current) u.pixels
          then rest
          else record { block = b; pixels = u.pixels } ∷ rest
    ]

-- The loop of `SetBlock` calls over the deltas of one version.
unfoldable pub apply_deltas : List ChunkDelta → Image → Image
apply_deltas [] im = im
apply_deltas (d ∷ ds) im = apply_deltas ds (set_block d.block d.pixels im)

-- The tile after a closed window with the given deltas.
unfoldable pub add_version : ℤ → List ChunkDelta → TerrainTile → TerrainTile
add_version eff [] tl = tl
add_version eff (d ∷ ds) tl = record tl {
  current = apply_deltas (d ∷ ds) tl.current;
  versions = tl.versions ++ (record { eff = eff; deltas = d ∷ ds } ∷ []);
}

-- One round of the loop over the windows of a tile.
unfoldable pub close_window : ℤ → ℤ → TerrainTile → TerrainTile
close_window w ws tl =
    let win = or_empty (lookup ws tl.windows) in
    add_version (int64 (ws +ℤ w)) (changed tl.current win (sort_blocks (keys win)))
      (record tl { windows = erase ws tl.windows })

unfoldable pub close_windows : ℤ → List ℤ → TerrainTile → TerrainTile
close_windows w [] tl = tl
close_windows w (ws ∷ starts) tl = close_windows w starts (close_window w ws tl)

unfoldable pub commit_tile : ℤ → ℤ → TerrainTile → TerrainTile
commit_tile w h tl = close_windows w (sort_starts (starts_before h (keys tl.windows))) tl

unfoldable pub commit_tiles : ℤ → ℤ → Map TileCoord TerrainTile → Map TileCoord TerrainTile
commit_tiles w h [] = []
commit_tiles w h ((tc, tl) ∷ m) = (tc, commit_tile w h tl) ∷ commit_tiles w h m

-- One round of the loop over the datastores.
unfoldable pub commit_ds : ℤ → TerrainDs → TerrainDs
commit_ds up_to d =
    let h = window_start up_to d.window in
    if leb_ℤ h d.horizon
    then d
    else record d { tiles = commit_tiles d.window h d.tiles; horizon = h }

unfoldable pub commit_all : ℤ → Map DatastoreKey TerrainDs → Map DatastoreKey TerrainDs
commit_all up_to [] = []
commit_all up_to ((k, d) ∷ m) = (k, commit_ds up_to d) ∷ commit_all up_to m

-- `Commit`
unfoldable pub commit : ℤ → Terrain → Outcome (Unit {0}) × Terrain
commit up_to s =
    if s.closed
    then (failed closed_error, s)
    else (done tt, record s { ds = commit_all up_to s.ds })
