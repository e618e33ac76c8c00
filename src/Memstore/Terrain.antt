-- ===== src/Memstore/Terrain.antt =====
-- internal/core/memstore/terrain.go: the reference terrain store, and the types and errors of
-- internal/core/terrain.go that it uses. A method takes the store and returns the new one; the
-- context argument and the lock are left out. Times are int64, versions uint32 and the counters
-- uint64, with their wraps written out.
pub mod Commit
pub mod Read
pub mod Versions
pub mod Closing
pub mod Accept
pub mod Grow
pub mod Steps
pub mod Stable
pub mod Past
pub mod Counts
pub mod Colours
mod Tests
use time_shade_db.Prelude.{ℕ, zero, suc, ◌+◌, ◌%◌, ◌^◌, ◌==◌, if◌then◌else◌, Bool, true, false, not}
use time_shade_db.Prelude.{◌&&◌, ◌||◌, ◌≡◌, refl, Option, none, some, List, [], ◌∷◌, ◌++◌, length}
use time_shade_db.Prelude.{inl, inr, ◌↔◌, ◌-◌, arith, subst}
use time_shade_db.Prelude.Int.{ℤ, pos, negsuc, ltb_ℤ, leb_ℤ, ◌==ℤ◌, ◌+ℤ◌, int64}
use time_shade_db.Prelude.Maps.{Eq, Map, lookup, insert, erase, keys, int_Eq, nat_Eq}
use time_shade_db.Core.Time.{default_terrain_window, window_start}
use time_shade_db.Core.Grid.{ChunkCoord, TileCoord, tile, is_valid, chunk_pixel_count}
use time_shade_db.Core.Keys.{DatastoreKey, Result, ok, err, validate, same_bytes}
use time_shade_db.Core.Keys.Escape.{same_bytes→eq, same_bytes_refl}
use time_shade_db.Core.Image.{Image, ChunkPixels, new_tile_image, set_block}

-- The errors of the stores. The messages around them are left out.
pub data StoreError : Type 0 where
  closed_error : StoreError
  bad_key : StoreError
  bad_tile : StoreError
  unknown_datastore : StoreError
  no_tile : StoreError
  no_version : StoreError

pub data Outcome {ℓ} (A : Type ℓ) : Type ℓ where
  done : A → Outcome A
  failed : StoreError → Outcome A

infixl 5 ◌>>=◌
abbrev pub ◌>>=◌ {ℓ κ} : {A : Type ℓ} {B : Type κ} → Outcome A → (A → Outcome B) → Outcome B
done a >>= f = f a
failed e >>= f = failed e

same_key : DatastoreKey → DatastoreKey → Bool
same_key a b =
    same_bytes a.map_name b.map_name
    && (same_bytes a.surface b.surface && same_bytes a.force b.force)

same_key_iff : (a b : DatastoreKey) → (same_key a b ≡ true) ↔ (a ≡ b)
unfolding same_key
same_key_iff a b = (
  λ h. ground (
    arith,
    same_bytes→eq a.map_name b.map_name,
    same_bytes→eq a.surface b.surface,
    same_bytes→eq a.force b.force,
  ),
  λ h.
      subst (λ x. same_key a x ≡ true) h
        (rw (same_bytes_refl a.map_name, same_bytes_refl a.surface, same_bytes_refl a.force)),
)

same_tile : TileCoord → TileCoord → Bool
same_tile a b = (a.z ==ℤ b.z) && ((a.x ==ℤ b.x) && (a.y ==ℤ b.y))

same_tile_iff : (a b : TileCoord) → (same_tile a b ≡ true) ↔ (a ≡ b)
unfolding same_tile
same_tile_iff a b = ground arith

instance pub key_Eq : Eq DatastoreKey
key_Eq = record { same = same_key; same_iff = same_key_iff }

instance pub tile_Eq : Eq TileCoord
tile_Eq = record { same = same_tile; same_iff = same_tile_iff }

-- `noHorizon`, the least int64.
abbrev pub no_horizon : ℤ
no_horizon = negsuc (2 ^ 63 - 1)

-- `ChunkUpdate`; `none` is the nil pointer.
pub record ChunkUpdate : Type 0 where
  pub ds : DatastoreKey
  pub chunk : ChunkCoord
  pub t : ℤ
  pub deleted : Bool
  pub pixels : Option ChunkPixels

pub record ApplyResult : Type 0 where
  pub accepted : ℕ
  pub late : ℕ
  pub invalid : ℕ

pub record OpenUpdate : Type 0 where
  pub t : ℤ
  pub arrival : ℕ
  pub pixels : ChunkPixels

-- `ChunkDelta`
pub record ChunkDelta : Type 0 where
  pub block : ℕ
  pub pixels : ChunkPixels

pub record CommittedVersion : Type 0 where
  pub eff : ℤ
  pub deltas : List ChunkDelta

abbrev pub Window : Type 0
Window = Map ℕ OpenUpdate

pub record TerrainTile : Type 0 where
  pub versions : List CommittedVersion
  pub current : Image
  pub windows : Map ℤ Window
  pub live_seq : ℕ

pub record TerrainDs : Type 0 where
  pub window : ℤ
  pub horizon : ℤ
  pub first : ℤ
  pub last : ℤ
  pub has_data : Bool
  pub palette : List ℕ
  pub pal_idx : Map ℕ ℕ
  pub tiles : Map TileCoord TerrainTile
  pub applies : ℕ

pub record Terrain : Type 0 where
  pub closed : Bool
  pub ds : Map DatastoreKey TerrainDs

-- `NewTerrain`
unfoldable pub new_terrain : Terrain
new_terrain = record { closed = false; ds = [] }

-- A new datastore of `ensure`.
unfoldable pub new_ds : ℤ → TerrainDs
new_ds w = record {
  window = if leb_ℤ w (pos 0) then default_terrain_window else w;
  horizon = no_horizon;
  first = pos 0;
  last = pos 0;
  has_data = false;
  palette = 0 ∷ [];
  pal_idx = (0, 0) ∷ [];
  tiles = [];
  applies = 0;
}

-- `ensure`: the datastore of a key, and the store that holds it.
unfoldable pub ensure : DatastoreKey → ℤ → Terrain → TerrainDs × Terrain
unfolding new_ds
ensure key w s = elim (lookup key s.ds) [
  | some d ↦ (d, s)
  | none ↦ (new_ds w, record s { ds = insert key (new_ds w) s.ds })
]

-- `EnsureDatastore`
unfoldable pub ensure_datastore : DatastoreKey → ℤ → Terrain → Outcome (Unit {0}) × Terrain
unfolding ensure
ensure_datastore key w s = elim (validate key) [
  | err e ↦ (failed bad_key, s)
  | ok u ↦ if s.closed then (failed closed_error, s) else (done tt, (ensure key w s).1)
]

-- One round of the palette loop of `Apply`: a colour that is not in the table is appended.
unfoldable pub add_colour : ℕ → TerrainDs → TerrainDs
add_colour c d = elim (lookup c d.pal_idx) [
  | some i ↦ d
  | none ↦ record d {
    pal_idx = insert c (length d.palette) d.pal_idx;
    palette = d.palette ++ (c ∷ []);
  }
]

-- The loop over the first n pixels of a chunk.
unfoldable pub add_colours : ℕ → ChunkPixels → TerrainDs → TerrainDs
add_colours zero px d = d
add_colours (suc n) px d = add_colour (px n) (add_colours n px d)

unfoldable pub new_tile : TerrainTile
new_tile = record { versions = []; current = new_tile_image; windows = []; live_seq = 0 }

-- `px` of `Apply`: zero pixels for a deleted chunk.
unfoldable pub update_pixels : ChunkUpdate → ChunkPixels
update_pixels u = if u.deleted then (λ i. 0) else elim u.pixels [ some px ↦ px | none ↦ (λ i. 0) ]

-- The window gets the update unless it holds a newer one of the same block.
unfoldable pub put_update : ℕ → OpenUpdate → Window → Window
put_update block u win = elim (lookup block win) [
  | none ↦ insert block u win
  | some cur ↦ if leb_ℤ cur.t u.t then insert block u win else win
]

abbrev pub or_empty : Option Window → Window
or_empty none = []
or_empty (some win) = win

-- The tile after an accepted update of a block, in the window from `ws` on.
unfoldable pub tile_update : ℤ → ℕ → OpenUpdate → TerrainTile → TerrainTile
unfolding put_update
tile_update ws block u tl = record tl {
  windows = insert ws (put_update block u (or_empty (lookup ws tl.windows))) tl.windows;
  live_seq = (tl.live_seq + 1) % 2 ^ 64;
}

abbrev pub or_new : Option TerrainTile → TerrainTile
or_new none = new_tile
or_new (some tl) = tl

-- The times of the datastore after an accepted update.
unfoldable pub note_time : ℤ → TerrainDs → TerrainDs
note_time t d = record d {
  first = if not d.has_data || ltb_ℤ t d.first then t else d.first;
  last = if not d.has_data || ltb_ℤ d.last t then t else d.last;
  has_data = true;
}

-- What `Apply` does to the datastore with an update that it accepts.
unfoldable pub accept : TileCoord → ℕ → ChunkUpdate → TerrainDs → TerrainDs
accept tc block u d =
    let px = update_pixels u in
    let d' = add_colours chunk_pixel_count px d in
    let n = (d'.applies + 1) % 2 ^ 64 in
    let tl =
      tile_update (window_start u.t d'.window) block (record { t = u.t; arrival = n; pixels = px })
        (or_new (lookup tc d'.tiles)) in
    note_time u.t (record d' { applies = n; tiles = insert tc tl d'.tiles })

-- `u.DS.Validate() != nil || (!u.Deleted && u.Pixels == nil)`
unfoldable pub is_malformed : ChunkUpdate → Bool
is_malformed u = elim (validate u.ds) [
  | err e ↦ true
  | ok v ↦ not u.deleted && elim u.pixels [ none ↦ true | some px ↦ false ]
]

-- One round of the loop of `Apply`.
unfoldable pub apply_one : ChunkUpdate → ApplyResult × Terrain → ApplyResult × Terrain
apply_one u (res, s) =
    if is_malformed u
    then (record res { invalid = res.invalid + 1 }, s)
    else let (tc, block) = tile u.chunk in
      if not (is_valid tc)
      then (record res { invalid = res.invalid + 1 }, s)
      else let (d, s') = ensure u.ds (pos 0) s in
        if ltb_ℤ u.t d.horizon then (record res { late = res.late + 1 }, s') else (
          record res { accepted = res.accepted + 1 },
          record s' { ds = insert u.ds (accept tc block u d) s'.ds },
        )

unfoldable pub apply_all : List ChunkUpdate → ApplyResult × Terrain → ApplyResult × Terrain
apply_all [] acc = acc
apply_all (u ∷ us) acc = apply_all us (apply_one u acc)

-- `Apply`; a closed store returns the zero result with ErrClosed.
unfoldable pub apply : List ChunkUpdate → Terrain → Outcome ApplyResult × Terrain
unfolding apply_all
apply us s =
    if s.closed
    then (failed closed_error, s)
    else let (res, s') = apply_all us (record { accepted = 0; late = 0; invalid = 0 }, s) in
      (done res, s')

-- `Close`
unfoldable pub close : Terrain → Terrain
close s = record s { closed = true }
