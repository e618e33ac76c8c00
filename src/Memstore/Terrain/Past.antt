-- ===== src/Memstore/Terrain/Past.antt =====
-- What was read of the past is read again: the reads of the reference terrain store, over its steps.
use time_shade_db.Prelude.{ℕ, ◌%◌, ◌^◌, ◌≤◌, ◌≡◌, refl, sym, ap, ◌∙◌, subst, arith, ltb}
use time_shade_db.Prelude.{
  Bool, true, false, Bool-cases, inl, inr, some, le→ltb_false, List, [], ◌∷◌, ◌++◌, length,
  length-append,
}
use time_shade_db.Prelude.Int.{ℤ, ◌<ℤ◌}
use time_shade_db.Prelude.Maps.{lookup, some_inj}
use time_shade_db.Core.Grid.{TileCoord}
use time_shade_db.Core.Keys.{DatastoreKey}
use time_shade_db.Core.Image.{Image}
use time_shade_db.Memstore.Terrain.{
  Terrain, TerrainDs, TerrainTile, CommittedVersion, key_Eq, tile_Eq,
}
use time_shade_db.Memstore.Terrain.{new_terrain, Outcome, done, failed}
use time_shade_db.Memstore.Terrain.Read.{
  TileState, tile_state, is_live, read_tile, read_version_at, content, find_tile, read_version,
  search_after, version_at,
}
use time_shade_db.Memstore.Terrain.Grow.{Grows}
use time_shade_db.Memstore.Terrain.Stable.{Steps, StillThere-content, find_tile-StillThere}
use time_shade_db.Memstore.Terrain.Stable.{search_after-append, find_tile-Found}

le_of : (v : ℕ) (vs : List CommittedVersion) → ltb (length vs) v ≡ false → v ≤ length vs
le_of v vs h = ground arith

in_range :
    (v : ℕ) (vs vs' more : List CommittedVersion)
    → vs' ≡ vs ++ more
    → ltb (length vs) v ≡ false
    → ltb (length vs') v ≡ false
in_range v vs vs' more e h =
    le→ltb_false _ _ (rw (e, length-append vs more) (omega (arith, le_of v vs h)))

-- From any store that the operations reach from a new one, with times below 2^62 in absolute value
-- and windows below 2^62: the image that `ReadVersion` returns for a version is the one it returns
-- for it in every later store that is not closed.
pub read_version_stable :
    (s s' : Terrain) (key : DatastoreKey) (tc : TileCoord) (v : ℕ) (im : Image)
    → Steps new_terrain s
    → Steps s s'
    → s'.closed ≡ false
    → read_version key tc v s ≡ done im
    → read_version key tc v s' ≡ done im
unfolding read_version
read_version_stable s s' key tc v im past x open_now h = by_tile (find_tile s key tc) refl
  where
    by_tile :
        (o : Outcome (TerrainDs × TerrainTile))
        → find_tile s key tc ≡ o
        → read_version key tc v s' ≡ done im
    by_tile (failed e) q = cc
    by_tile (done p) q = elim (Bool-cases (ltb (length p.1.versions) v)) [
      | inl l ↦ cc
      | inr l ↦
          let y = find_tile-StillThere s s' key tc p past x open_now q in
          rw
            (
              read_version,
              y.found,
              in_range v p.1.versions y.tile'.versions y.grows.more y.grows.versions_are l,
            )
            (ap done (StillThere-content s' key tc p.0 p.1 v y (le_of v p.1.versions l))
              ∙ (rw (read_version, q, l) at h))
    ]

not_live : (d : TerrainDs) (tl : TerrainTile) (t : ℤ) → t <ℤ d.horizon → is_live d tl t ≡ false
unfolding is_live
not_live d tl t lt = ground arith

-- The state of a tile before the horizon.
abbrev past_state : ℕ → TileState
past_state v = record { version = v; live = false; live_seq = 0 }

tile_state-past :
    (d : TerrainDs) (tl : TerrainTile) (t : ℤ)
    → t <ℤ d.horizon
    → tile_state d tl t ≡ past_state (version_at t tl)
unfolding tile_state
tile_state-past d tl t lt = rw (tile_state, not_live d tl t lt)

version_at-later :
    (h t : ℤ) (tl tl' : TerrainTile) → t <ℤ h → Grows h tl tl' → version_at t tl' ≡ version_at t tl
unfolding version_at
version_at-later h t tl tl' lt g =
    ap (λ n. n % 2 ^ 32)
      (ap (search_after t) g.versions_are
        ∙ search_after-append t h tl.versions g.more (omega (arith, lt)) g.after)

search_after_le : (t : ℤ) (vs : List CommittedVersion) → search_after t vs ≤ length vs
unfolding search_after
search_after_le t [] = omega arith
search_after_le t (v ∷ vs) = ground (arith, search_after_le t vs)

version_at_le : (t : ℤ) (tl : TerrainTile) → version_at t tl ≤ length tl.versions
unfolding version_at
version_at_le t tl = omega (arith, search_after_le t tl.versions)

horizon_at :
    (s : Terrain) (key : DatastoreKey) (tc : TileCoord) (p : TerrainDs × TerrainTile)
    (d : TerrainDs) (t : ℤ)
    → find_tile s key tc ≡ done p
    → lookup key s.ds ≡ some d
    → t <ℤ d.horizon
    → t <ℤ p.0.horizon
horizon_at s key tc p d t q e lt =
    subst (λ y. t <ℤ y.horizon) (some_inj d p.0 (sym e ∙ (find_tile-Found s key tc p q).ds_is)) lt

-- From any store that the operations reach from a new one, with times below 2^62 in absolute
-- value and windows below 2^62: the state that `VersionAt` returns for a time before the
-- committed horizon of the datastore is the one it returns in every later store that is not closed.
pub read_version_at_stable :
    (s s' : Terrain) (key : DatastoreKey) (tc : TileCoord) (t : ℤ) (d : TerrainDs) (st : TileState)
    → Steps new_terrain s
    → Steps s s'
    → s'.closed ≡ false
    → lookup key s.ds ≡ some d
    → t <ℤ d.horizon
    → read_version_at key tc t s ≡ done st
    → read_version_at key tc t s' ≡ done st
unfolding read_version_at
read_version_at_stable s s' key tc t d st past x open_now e lt h = by_tile (find_tile s key tc) refl
  where
    by_tile :
        (o : Outcome (TerrainDs × TerrainTile))
        → find_tile s key tc ≡ o
        → read_version_at key tc t s' ≡ done st
    by_tile (failed f) q = cc
    by_tile (done p) q =
        let y = find_tile-StillThere s s' key tc p past x open_now q in
        let lt' = horizon_at s key tc p d t q e lt in
        rw (read_version_at, y.found)
          (ap done (
              tile_state-past y.ds' y.tile' t (omega (arith, lt', y.forward))
              ∙ ap past_state (version_at-later p.0.horizon t p.1 y.tile' lt' y.grows)
              ∙ sym (tile_state-past p.0 p.1 t lt'))
            ∙ (rw (read_version_at, q) at h))

read_tile-past :
    (s : Terrain) (key : DatastoreKey) (tc : TileCoord) (t : ℤ) (live : Bool) (d : TerrainDs)
    (tl : TerrainTile)
    → find_tile s key tc ≡ done (d, tl)
    → t <ℤ d.horizon
    → read_tile key tc t live s ≡ done (content (version_at t tl) tl, past_state (version_at t tl))
unfolding read_tile
read_tile-past s key tc t false d tl q lt = rw (read_tile, q, tile_state-past d tl t lt)
read_tile-past s key tc t true d tl q lt = rw (read_tile, q, tile_state-past d tl t lt)

-- From any store that the operations reach from a new one, with times below 2^62 in absolute
-- value and windows below 2^62: the image and state that `ReadTile` returns for a time before the
-- committed horizon of the datastore, live or not, are those it returns in every later store that
-- is not closed.
pub read_tile_stable :
    (s s' : Terrain) (key : DatastoreKey) (tc : TileCoord) (t : ℤ) (live : Bool) (d : TerrainDs)
    (r : Image × TileState)
    → Steps new_terrain s
    → Steps s s'
    → s'.closed ≡ false
    → lookup key s.ds ≡ some d
    → t <ℤ d.horizon
    → read_tile key tc t live s ≡ done r
    → read_tile key tc t live s' ≡ done r
unfolding read_tile
read_tile_stable s s' key tc t live d r past x open_now e lt h = by_tile (find_tile s key tc) refl
  where
    by_tile :
        (o : Outcome (TerrainDs × TerrainTile))
        → find_tile s key tc ≡ o
        → read_tile key tc t live s' ≡ done r
    by_tile (failed f) q = cc
    by_tile (done p) q =
        let y = find_tile-StillThere s s' key tc p past x open_now q in
        let lt' = horizon_at s key tc p d t q e lt in
        let same = version_at-later p.0.horizon t p.1 y.tile' lt' y.grows in
        read_tile-past s' key tc t live y.ds' y.tile' y.found (omega (arith, lt', y.forward))
        ∙ ap (λ n. done (content n y.tile', past_state n)) same
        ∙ ap (λ im. done (im, past_state (version_at t p.1)))
            (StillThere-content s' key tc p.0 p.1 (version_at t p.1) y (version_at_le t p.1))
        ∙ sym (read_tile-past s key tc t live p.0 p.1 q lt')
        ∙ h
