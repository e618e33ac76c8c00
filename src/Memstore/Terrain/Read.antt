-- ===== src/Memstore/Terrain/Read.antt =====
-- The reads of the reference terrain store.
use time_shade_db.Prelude.{
  ℕ, zero, suc, ◌+◌, ◌-◌, ◌%◌, ◌^◌, ltb, leb, ◌==◌, if◌then◌else◌, Bool, true, false, not,
}
use time_shade_db.Prelude.{◌&&◌, ◌||◌, none, some, List, [], ◌∷◌, ◌++◌, length, take, drop}
use time_shade_db.Prelude.Int.{ℤ, pos, ltb_ℤ, leb_ℤ, ◌==ℤ◌}
use time_shade_db.Prelude.Maps.{Map, lookup, insert, int_Eq, nat_Eq}
use time_shade_db.Core.Grid.{TileCoord, is_valid, tile_blocks, chunk_pixel_count}
use time_shade_db.Core.Keys.{DatastoreKey}
use time_shade_db.Core.Image.{Image, new_tile_image, get_block, set_block, same_pixels}
use time_shade_db.Memstore.Terrain.{
  Outcome, done, failed, ◌>>=◌, closed_error, bad_tile, unknown_datastore,
}
use time_shade_db.Memstore.Terrain.{
  no_tile, no_version, OpenUpdate, ChunkDelta, CommittedVersion, Window,
}
use time_shade_db.Memstore.Terrain.{TerrainTile, TerrainDs, Terrain, key_Eq, tile_Eq}
use time_shade_db.Memstore.Terrain.Commit.{apply_deltas}

pub record TileState : Type 0 where
  pub version : ℕ
  pub live : Bool
  pub live_seq : ℕ

pub record VersionPoint : Type 0 where
  pub t : ℤ
  pub version : ℕ

-- `lookup` resolves a z0 tile.
unfoldable pub find_tile : Terrain → DatastoreKey → TileCoord → Outcome (TerrainDs × TerrainTile)
find_tile s key tc =
    if s.closed
    then failed closed_error
    else (if not (tc.z ==ℤ pos 0) || not (is_valid tc)
        then failed bad_tile
        else elim (lookup key s.ds) [
          | none ↦ failed unknown_datastore
          | some d ↦ elim (lookup tc d.tiles) [ none ↦ failed no_tile | some tl ↦ done (d, tl) ]
        ])

-- `sort.Search` for the first version with eff > t. The versions stand in the order of `eff`, so
-- it is the number of those from the front with eff <= t.
unfoldable pub search_after : ℤ → List CommittedVersion → ℕ
search_after t [] = 0
search_after t (v ∷ vs) = let rest = search_after t vs in if ltb_ℤ t v.eff then 0 else suc rest

-- `versionAt`
unfoldable pub version_at : ℤ → TerrainTile → ℕ
unfolding search_after
version_at t tl = search_after t tl.versions % 2 ^ 32

unfoldable pub is_live : TerrainDs → TerrainTile → ℤ → Bool
is_live d tl t = not (length tl.windows == 0) && (leb_ℤ d.horizon t && leb_ℤ d.last t)

-- `state`
unfoldable pub tile_state : TerrainDs → TerrainTile → ℤ → TileState
unfolding version_at is_live
tile_state d tl t =
    if is_live d tl t
    then record { version = version_at t tl; live = true; live_seq = tl.live_seq }
    else record { version = version_at t tl; live = false; live_seq = 0 }

-- Replays versions onto an image.
unfoldable pub replay : List CommittedVersion → Image → Image
replay [] im = im
replay (v ∷ vs) im = replay vs (apply_deltas v.deltas im)

-- `content`
unfoldable pub content : ℕ → TerrainTile → Image
content v tl =
    if v == length tl.versions then tl.current else replay (take v tl.versions) new_tile_image

-- `VersionAt`
unfoldable pub read_version_at : DatastoreKey → TileCoord → ℤ → Terrain → Outcome TileState
read_version_at key tc t s = find_tile s key tc >>= λ p. done (tile_state p.0 p.1 t)

-- `ReadVersion`
unfoldable pub read_version : DatastoreKey → TileCoord → ℕ → Terrain → Outcome Image
read_version key tc v s = find_tile s key tc >>= λ p.
    if ltb (length p.1.versions) v then failed no_version else done (content v p.1)

-- Whether an open update is newer than the one chosen for its block so far.
abbrev pub is_newer : OpenUpdate → OpenUpdate → Bool
is_newer u cur = ltb_ℤ cur.t u.t || ((u.t ==ℤ cur.t) && ltb cur.arrival u.arrival)

unfoldable pub newest_of : Window → Window → Window
newest_of [] newest = newest
newest_of ((b, u) ∷ win) newest = newest_of win (elim (lookup b newest) [
  | none ↦ insert b u newest
  | some cur ↦ if is_newer u cur then insert b u newest else newest
])

-- The newest open update of each block across the windows.
unfoldable pub newest_across : Map ℤ Window → Window → Window
newest_across [] newest = newest
newest_across ((ws, win) ∷ m) newest = newest_across m (newest_of win newest)

unfoldable pub set_newest : Window → Image → Image
set_newest [] im = im
set_newest ((b, u) ∷ win) im = set_newest win (set_block b u.pixels im)

-- `ReadTile`
unfoldable pub read_tile :
    DatastoreKey → TileCoord → ℤ → Bool → Terrain → Outcome (Image × TileState)
unfolding newest_of newest_across set_newest
read_tile key tc t live s = find_tile s key tc >>= λ p.
    let st = tile_state p.0 p.1 t in
    let im = content st.version p.1 in
    if live && st.live
    then done (set_newest (newest_across p.1.windows []) im, st)
    else done (im, record st { live = false; live_seq = 0 })

-- The loop of `History`, from version i on.
unfoldable pub history_from : ℕ → ℤ → ℤ → List CommittedVersion → List VersionPoint
history_from i t0 t1 [] = []
history_from i t0 t1 (v ∷ vs) =
    let rest = history_from (suc i) t0 t1 vs in
    if leb_ℤ t0 v.eff && ltb_ℤ v.eff t1
    then record { t = v.eff; version = (i + 1) % 2 ^ 32 } ∷ rest
    else rest

-- `History`
unfoldable pub history : DatastoreKey → TileCoord → ℤ → ℤ → Terrain → Outcome (List VersionPoint)
unfolding history_from
history key tc t0 t1 s = find_tile s key tc >>= λ p. done (history_from 0 t0 t1 p.1.versions)

-- `Palette`
unfoldable pub palette : DatastoreKey → Terrain → Outcome (List ℕ)
palette key s =
    if s.closed
    then failed closed_error
    else elim (lookup key s.ds) [ none ↦ failed unknown_datastore | some d ↦ done d.palette ]

-- Whether a block is touched by one of the versions.
unfoldable pub touches : ℕ → List ChunkDelta → Bool
touches b [] = false
touches b (d ∷ ds) = (d.block == b) || touches b ds

unfoldable pub is_touched : ℕ → List CommittedVersion → Bool
unfolding touches
is_touched b [] = false
is_touched b (v ∷ vs) = touches b v.deltas || is_touched b vs

-- The loop of `ChangedChunks` over the first n blocks, between two contents.
unfoldable pub differing : ℕ → List CommittedVersion → Image → Image → List ChunkDelta
unfolding is_touched
differing zero vs a b = []
differing (suc n) vs a b =
    let before = differing n vs a b in
    if not (is_touched n vs)
    then before
    else (if same_pixels chunk_pixel_count (get_block n a) (get_block n b)
        then before
        else before ++ (record { block = n; pixels = get_block n b } ∷ []))

-- `ChangedChunks`
unfoldable pub changed_chunks :
    DatastoreKey → TileCoord → ℕ → ℕ → Terrain → Outcome (List ChunkDelta)
unfolding differing
changed_chunks key tc from to s = find_tile s key tc >>= λ p.
    let tl = p.1 in
    if leb to from || ltb (length tl.versions) to
    then failed no_version
    else done (
        differing tile_blocks (take (to - from) (drop from tl.versions)) (content from tl)
          (content to tl))
