-- ===== src/Memstore/Terrain/Stable.antt =====
-- Committed terrain never changes: what a reader got for a version, or for a time at or before the
-- horizon, it gets from every later store.
use time_shade_db.Prelude.{ℕ, suc, ◌^◌, ◌≤◌, ◌<◌, ◌≡◌, refl, sym, ap, ◌∙◌, subst, arith}
use time_shade_db.Prelude.{
  false, not, ◌||◌, ◌==◌, ==_iff, Bool-cases, inl, inr, some, Option-cases, List, [], ◌∷◌, ◌++◌,
  All, length, take, take-append_le, take-length,
}
use time_shade_db.Prelude.Int.{ℤ, pos, ◌≤ℤ◌, ◌<ℤ◌, ltb_ℤ, pos_part, ◌==ℤ◌}
use time_shade_db.Prelude.Maps.{lookup, lookup-Entries, int_Eq}
use time_shade_db.Core.Time.{IsTime}
use time_shade_db.Core.Grid.{TileCoord, is_valid}
use time_shade_db.Core.Keys.{DatastoreKey}
use time_shade_db.Core.Image.{new_tile_image}
use time_shade_db.Memstore.Terrain.{
  Terrain, TerrainDs, TerrainTile, CommittedVersion, ChunkUpdate, key_Eq, tile_Eq,
}
use time_shade_db.Memstore.Terrain.{new_terrain, ensure_datastore, apply, close, done}
use time_shade_db.Memstore.Terrain.Commit.{commit}
use time_shade_db.Memstore.Terrain.Read.{content, replay, find_tile, search_after}
use time_shade_db.Memstore.Terrain.Versions.{IsTile}
use time_shade_db.Memstore.Terrain.Accept.{IsDs}
use time_shade_db.Memstore.Terrain.Grow.{Grows}
use time_shade_db.Memstore.Terrain.Steps.{IsStore, IsStep, IsStep-refl, IsStep-trans}
use time_shade_db.Memstore.Terrain.Steps.{
  apply-IsStep, commit-IsStep, close-IsStep, ensure_datastore-IsStep,
}

-- A step of the store: one call of an operation that changes it.
pub data Step : Terrain → Terrain → Type 0 where
  ensuring :
      {s : Terrain} (key : DatastoreKey) (w : ℤ)
      → pos_part w < 2 ^ 62
      → Step s (ensure_datastore key w s).1
  applying :
      {s : Terrain} (us : List ChunkUpdate) → All (λ u. IsTime u.t) us → Step s (apply us s).1
  committing : {s : Terrain} (up_to : ℤ) → IsTime up_to → Step s (commit up_to s).1
  closing : {s : Terrain} → Step s (close s)

pub data Steps : Terrain → Terrain → Type 0 where
  stay : {s : Terrain} → Steps s s
  then_step : {a b c : Terrain} → Steps a b → Step b c → Steps a c

Step-IsStep : {a b : Terrain} → Step a b → IsStep a b
Step-IsStep (ensuring {s} key w h) = ensure_datastore-IsStep key w s h
Step-IsStep (applying {s} us h) = apply-IsStep us s h
Step-IsStep (committing {s} up_to h) = commit-IsStep up_to s h
Step-IsStep (closing {s}) = close-IsStep s

Steps-IsStep : {a b : Terrain} → Steps a b → IsStep a b
Steps-IsStep (stay {s}) = IsStep-refl s
Steps-IsStep (then_step {a} {b} {c} x y) = IsStep-trans a b c (Steps-IsStep x) (Step-IsStep y)

-- In every store that calls of `EnsureDatastore`, `Apply`, `Commit` and `Close` reach from a new
-- one, with times below 2^62 in absolute value and windows below 2^62, each datastore has a horizon
-- that is none or the start of a window, and in each tile the current image is the replay of the
-- versions, the versions are in time order and effective by the horizon, and no open window starts
-- before the horizon.
pub Steps-IsStore : (s : Terrain) → Steps new_terrain s → IsStore s
unfolding new_terrain
Steps-IsStore s x = (Steps-IsStep x).kept tt

-- The content of a version is the replay of the versions up to it, the newest one included.
content-replay :
    (w : ℕ) (h : ℤ) (v : ℕ) (tl : TerrainTile)
    → IsTile w h tl
    → content v tl ≡ replay (take v tl.versions) new_tile_image
unfolding content
content-replay w h v tl t = elim (Bool-cases (v == length tl.versions)) [
  | inl e ↦
      rw (content, e)
        (t.replayed ∙ ap (λ x. replay x new_tile_image) (sym (whole ((==_iff _ _).0 e))))
  | inr e ↦ rw (content, e)
]
  where
    whole : v ≡ length tl.versions → take v tl.versions ≡ tl.versions
    whole e = rw e (take-length tl.versions)

content_stable :
    (w w' : ℕ) (h h' g : ℤ) (v : ℕ) (tl tl' : TerrainTile)
    → IsTile w h tl
    → IsTile w' h' tl'
    → Grows g tl tl'
    → v ≤ length tl.versions
    → content v tl' ≡ content v tl
content_stable w w' h h' g v tl tl' t t' x le =
    content-replay w' h' v tl' t'
    ∙ ap (λ u. replay u new_tile_image)
        (ap (take v) x.versions_are ∙ take-append_le v tl.versions x.more le)
    ∙ sym (content-replay w h v tl t)

-- The search for a time at or before the horizon stops within the versions that were there.
pub search_after-append :
    (t h : ℤ) (vs more : List CommittedVersion)
    → t ≤ℤ h
    → All (λ v. h <ℤ v.eff) more
    → search_after t (vs ++ more) ≡ search_after t vs
unfolding search_after
search_after-append t h [] [] le a = refl
search_after-append t h [] (v ∷ more) le a = ground (arith, a.0)
search_after-append t h (v ∷ vs) more le a = elim (Bool-cases (ltb_ℤ t v.eff)) [
  | inl s ↦ rw s
  | inr s ↦ rw s (ap suc (search_after-append t h vs more le a))
]

pub done_inj {ℓ} : {A : Type ℓ} (a b : A) → done a ≡ done b → a ≡ b
done_inj a b h = cc

-- What `lookup` has found when it returns a tile.
pub record Found (s : Terrain) (key : DatastoreKey) (tc : TileCoord) (p : TerrainDs × TerrainTile)
    : Type 0 where
  pub opened : s.closed ≡ false
  pub addressed : (not (tc.z ==ℤ pos 0) || not (is_valid tc)) ≡ false
  pub ds_is : lookup key s.ds ≡ some p.0
  pub tile_is : lookup tc p.0.tiles ≡ some p.1

pub find_tile-Found :
    (s : Terrain) (key : DatastoreKey) (tc : TileCoord) (p : TerrainDs × TerrainTile)
    → find_tile s key tc ≡ done p
    → Found s key tc p
unfolding find_tile
find_tile-Found s key tc p h = elim (Bool-cases s.closed) [
  | inl c ↦ cc
  | inr c ↦ elim (Bool-cases (not (tc.z ==ℤ pos 0) || not (is_valid tc))) [
    | inl b ↦ cc
    | inr b ↦ elim (Option-cases (lookup key s.ds)) [
      | inl n ↦ cc
      | inr (d, e) ↦ elim (Option-cases (lookup tc d.tiles)) [
        | inl n ↦ cc
        | inr (tl, f) ↦
            let same : (d, tl) ≡ p = done_inj _ _ (rw (find_tile, c, b, e, f) at h) in
            record {
              opened = c;
              addressed = b;
              ds_is = e ∙ ap (λ x. some x.0) same;
              tile_is = subst (λ x. lookup tc x.0.tiles ≡ some x.1) same f;
            }
      ]
    ]
  ]
]

Found-find_tile :
    (s : Terrain) (key : DatastoreKey) (tc : TileCoord) (p : TerrainDs × TerrainTile)
    → Found s key tc p
    → find_tile s key tc ≡ done p
unfolding find_tile
Found-find_tile s key tc p f = rw (find_tile, f.opened, f.addressed, f.ds_is, f.tile_is)

-- What a later store has of a tile.
pub record StillThere (s' : Terrain) (key : DatastoreKey) (tc : TileCoord) (d : TerrainDs)
    (tl : TerrainTile) : Type 0 where
  pub ds' : TerrainDs
  pub tile' : TerrainTile
  pub found : find_tile s' key tc ≡ done (ds', tile')
  pub forward : d.horizon ≤ℤ ds'.horizon
  pub grows : Grows d.horizon tl tile'
  pub before : IsDs d
  pub tile_before : IsTile before.length d.horizon tl
  pub after : IsDs ds'
  pub tile_after : IsTile after.length ds'.horizon tile'

pub find_tile-StillThere :
    (s s' : Terrain) (key : DatastoreKey) (tc : TileCoord) (p : TerrainDs × TerrainTile)
    → Steps new_terrain s
    → Steps s s'
    → s'.closed ≡ false
    → find_tile s key tc ≡ done p
    → StillThere s' key tc p.0 p.1
find_tile-StillThere s s' key tc p past x open_now h =
    let f = find_tile-Found s key tc p h in
    let i = Steps-IsStore s past in
    let st = Steps-IsStep x in
    let (d', e', g) = st.grown i key p.0 f.ds_is in
    let (tl', q, gr) = g.tiles_grow tc p.1 f.tile_is in
    let b = lookup-Entries (λ _ y. IsDs y) key p.0 s.ds i f.ds_is in
    let a = lookup-Entries (λ _ y. IsDs y) key d' s'.ds (st.kept i) e' in
    record {
      ds' = d';
      tile' = tl';
      found =
          Found-find_tile s' key tc (d', tl')
            (record { opened = open_now; addressed = f.addressed; ds_is = e'; tile_is = q });
      forward = g.forward;
      grows = gr;
      before = b;
      tile_before =
          lookup-Entries (λ _ y. IsTile b.length p.0.horizon y) tc p.1 p.0.tiles b.tiles_are
            f.tile_is;
      after = a;
      tile_after =
          lookup-Entries (λ _ y. IsTile a.length d'.horizon y) tc tl' d'.tiles a.tiles_are q;
    }

pub StillThere-content :
    (s' : Terrain) (key : DatastoreKey) (tc : TileCoord) (d : TerrainDs) (tl : TerrainTile) (v : ℕ)
    → (x : StillThere s' key tc d tl) → v ≤ length tl.versions
    → content v x.tile' ≡ content v tl
StillThere-content s' key tc d tl v x le =
    content_stable x.before.length x.after.length d.horizon x.ds'.horizon d.horizon v tl x.tile'
      x.tile_before x.tile_after x.grows le
