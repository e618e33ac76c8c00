-- ===== src/Memstore/Terrain/Tests.antt =====
-- The reference terrain store on a short run: one update, a commit, a second update, a commit.
use time_shade_db.Prelude.{
  ℕ, ◌≡◌, refl, arith, List, [], ◌∷◌, ◌++◌, true, false, some, length, get_elem?,
}
use time_shade_db.Prelude.Int.{ℤ, pos, ◌<ℤ◌}
use time_shade_db.Prelude.Maps.{lookup, int_Eq}
use time_shade_db.Core.Grid.{TileCoord}
use time_shade_db.Core.Keys.{DatastoreKey}
use time_shade_db.Core.Image.{Image, new_tile_image, set_block}
use time_shade_db.Memstore.Terrain.{Terrain, TerrainDs, TerrainTile, ChunkUpdate, ApplyResult, done}
use time_shade_db.Memstore.Terrain.{
  new_terrain, new_ds, new_tile, ensure_datastore, apply, accept, update_pixels, key_Eq, tile_Eq,
}
use time_shade_db.Memstore.Terrain.Commit.{commit, commit_tile}
use time_shade_db.Memstore.Terrain.Read.{TileState, read_tile, read_version, read_version_at}
use time_shade_db.Memstore.Terrain.Versions.{IsTile, IsStart, Extends}
use time_shade_db.Memstore.Terrain.Closing.{commit_tile-IsTile}
use time_shade_db.Memstore.Terrain.Accept.{new_tile-IsTile, tile_update-IsTile}
use time_shade_db.Memstore.Terrain.Steps.{IsStore}
use time_shade_db.Memstore.Terrain.Stable.{
  Steps, ensuring, applying, committing, stay, then_step, Steps-IsStore,
}
use time_shade_db.Memstore.Terrain.Past.{
  read_tile_stable, read_version_stable, read_version_at_stable,
}
use time_shade_db.Memstore.Terrain.Counts.{total, apply-total}
use time_shade_db.Memstore.Terrain.Colours.{IsPalette, accept_colours, new_ds-IsPalette}
use time_shade_db.Memstore.Terrain.Read.{
  find_tile, content, replay, tile_state, is_live, version_at, search_after,
}
use time_shade_db.Core.Keys.{validate, same_bytes}
use time_shade_db.Memstore.Terrain.{
  apply_one, is_malformed, same_key, add_colour, add_colours, apply_all, ensure, note_time,
  put_update, same_tile, tile_update,
}
use time_shade_db.Core.Grid.{is_valid, tile, tile_pixel_index}
use time_shade_db.Prelude.Int.{◌-ℤ◌, int32, int64, ◌*ℤ◌, ◌+ℤ◌}
use time_shade_db.Core.Time.{floor_div, window_start}
use time_shade_db.Prelude.{xor}
use time_shade_db.Prelude.Maps.{insert, erase, keys}
use time_shade_db.Core.Image.{all_below, block_rows, copy_row, get_block, same_pixels, set_rows}
use time_shade_db.Memstore.Terrain.Commit.{
  add_version, apply_deltas, changed, close_window, close_windows, commit_all, commit_ds,
  commit_tiles, insert_block, insert_start, sort_blocks, sort_starts, starts_before,
}

abbrev key : DatastoreKey
key = record { map_name = b'm' ∷ []; surface = b's' ∷ []; force = b'f' ∷ [] }

abbrev tile0 : TileCoord
tile0 = record { z = pos 0; x = pos 0; y = pos 0 }

abbrev update_at : ℤ → ℕ → ChunkUpdate
update_at t c = record {
  ds = key;
  chunk = record { x = pos 0; y = pos 0 };
  t = t;
  deleted = false;
  pixels = some (λ p. c);
}

abbrev store0 : Terrain
store0 = (ensure_datastore key (pos 60000) new_terrain).1

abbrev store1 : Terrain
store1 = (apply (update_at (pos 61000) 5 ∷ []) store0).1

abbrev store2 : Terrain
store2 = (commit (pos 180000) store1).1

abbrev store3 : Terrain
store3 = (apply (update_at (pos 190000) 9 ∷ update_at (pos 70000) 7 ∷ []) store2).1

abbrev store4 : Terrain
store4 = (commit (pos 300000) store3).1

first-Steps : Steps new_terrain store2
first-Steps =
    then_step
      (then_step (then_step stay (ensuring key (pos 60000) (omega arith)))
        (applying (update_at (pos 61000) 5 ∷ []) ((omega arith, omega arith), tt)))
      (committing (pos 180000) (omega arith, omega arith))

next-Steps : Steps store2 store4
next-Steps =
    then_step
      (then_step stay (
        applying (update_at (pos 190000) 9 ∷ update_at (pos 70000) 7 ∷ [])
          ((omega arith, omega arith), ((omega arith, omega arith), tt))))
      (committing (pos 300000) (omega arith, omega arith))

Steps-IsStore_example : IsStore store2
Steps-IsStore_example = Steps-IsStore store2 first-Steps

-- The image of the first version: the chunk stands in block 136 of its tile.
abbrev image1 : Image
image1 = set_block 136 (λ p. 5) new_tile_image

abbrev ds2 : TerrainDs
ds2 = commit_ds (pos 180000) (accept tile0 136 (update_at (pos 61000) 5) (new_ds (pos 60000)))

-- The tile of the first version, at a time in the past.
abbrev state1 : TileState
state1 = record { version = 1; live = false; live_seq = 0 }

record Run : Type 0 where
  open_at_4 : store4.closed ≡ false
  ds_at_2 : lookup key store2.ds ≡ some ds2
  horizon_at_2 : ds2.horizon ≡ pos 180000
  version_at_2 : read_version key tile0 1 store2 ≡ done image1
  state_at_2 : read_version_at key tile0 (pos 150000) store2 ≡ done state1
  tile_at_2 : read_tile key tile0 (pos 150000) true store2 ≡ done (image1, state1)
  state_at_4 :
      read_version_at key tile0 (pos 299999) store4
      ≡ done (record { version = 2; live = false; live_seq = 0 })
  counts_at_3 :
      (apply (update_at (pos 190000) 9 ∷ update_at (pos 70000) 7 ∷ []) store2).0
      ≡ done (record { accepted = 1; late = 1; invalid = 0 })

run : Run
unfolding ensure_datastore apply commit read_version find_tile validate new_terrain lookup apply_one
    is_malformed is_valid tile ◌-ℤ◌ int32 floor_div int64 xor insert key_Eq tile_Eq same_key
    same_bytes tile_pixel_index all_below block_rows copy_row get_block new_tile_image same_pixels
    set_block set_rows window_start add_version apply_deltas changed close_window close_windows
    commit_all commit_ds commit_tile commit_tiles insert_block insert_start sort_blocks sort_starts
    starts_before content replay accept add_colour add_colours apply_all ensure new_ds new_tile
    note_time put_update same_tile tile_update update_pixels ◌*ℤ◌ ◌+ℤ◌ erase keys read_version_at
    tile_state is_live version_at search_after read_tile
run = record {
  open_at_4 = refl;
  ds_at_2 = refl;
  horizon_at_2 = refl;
  version_at_2 = refl;
  state_at_2 = refl;
  tile_at_2 = refl;
  state_at_4 = refl;
  counts_at_3 = refl;
}

before_horizon : pos 150000 <ℤ ds2.horizon
before_horizon = rw run.horizon_at_2 (omega arith)

read_version_stable_example : read_version key tile0 1 store4 ≡ done image1
read_version_stable_example =
    read_version_stable store2 store4 key tile0 1 image1 first-Steps next-Steps run.open_at_4
      run.version_at_2

read_version_at_stable_example : read_version_at key tile0 (pos 150000) store4 ≡ done state1
read_version_at_stable_example =
    read_version_at_stable store2 store4 key tile0 (pos 150000) ds2 state1 first-Steps next-Steps
      run.open_at_4 run.ds_at_2 before_horizon run.state_at_2

read_tile_stable_example : read_tile key tile0 (pos 150000) true store4 ≡ done (image1, state1)
read_tile_stable_example =
    read_tile_stable store2 store4 key tile0 (pos 150000) true ds2 (image1, state1) first-Steps
      next-Steps run.open_at_4 run.ds_at_2 before_horizon run.tile_at_2

-- A tile with one open window, from 60000 on.
abbrev open_tile : TerrainTile
open_tile =
    tile_update (pos 60000) 136 (record { t = pos 61000; arrival = 1; pixels = λ p. 5 }) new_tile

start60 : IsStart 60000 (pos 60000)
unfolding ◌*ℤ◌
start60 = record { factor = pos 1; start_is = refl; low = omega arith; high = omega arith }

start120 : IsStart 60000 (pos 120000)
unfolding ◌*ℤ◌
start120 = record { factor = pos 2; start_is = refl; low = omega arith; high = omega arith }

commit_tile-IsTile_example :
    IsTile 60000 (pos 120000) (commit_tile (pos 60000) (pos 120000) open_tile)
    × Extends (pos 0) (pos 120000) open_tile (commit_tile (pos 60000) (pos 120000) open_tile)
commit_tile-IsTile_example =
    commit_tile-IsTile 60000 (pos 0) (pos 120000) (omega arith) (omega arith) open_tile start120
      (omega arith)
      (tile_update-IsTile 60000 (pos 0) (pos 60000) 136 _ new_tile start60 (omega arith)
        (new_tile-IsTile 60000 (pos 0)))

store0_open : store0.closed ≡ false
unfolding ensure_datastore validate new_terrain ensure lookup
store0_open = refl

apply-total_example :
    (r : ApplyResult) × ((apply (update_at (pos 61000) 5 ∷ []) store0).0 ≡ done r)
    × (total r ≡ length (update_at (pos 61000) 5 ∷ []))
apply-total_example = apply-total (update_at (pos 61000) 5 ∷ []) store0 store0_open

accept_colours_example :
    let d = accept tile0 136 (update_at (pos 61000) 5) (new_ds (pos 60000)) in
    IsPalette d
    × ((more : List ℕ) × (d.palette ≡ (new_ds (pos 60000)).palette ++ more))
    × ((i : ℕ) × (get_elem? d.palette i ≡ some (update_pixels (update_at (pos 61000) 5) 3)))
accept_colours_example =
    accept_colours tile0 136 (update_at (pos 61000) 5) (new_ds (pos 60000)) 3
      (new_ds-IsPalette (pos 60000)) (omega arith)
