-- ===== src/Memstore/Terrain/Grow.antt =====
-- A datastore only grows: its tiles stay, and the versions of a tile are only appended to, after
-- the horizon.
use time_shade_db.Prelude.{ℕ, ◌^◌, ◌<◌, ◌≡◌, refl, sym, ap, ◌∙◌, subst, arith}
use time_shade_db.Prelude.{
  false, Bool-cases, inl, inr, some, List, [], ◌∷◌, ◌++◌, All, All-append, append-nil, append_assoc,
}
use time_shade_db.Prelude.Int.{ℤ, pos, ◌≤ℤ◌, ◌<ℤ◌, leb_ℤ}
use time_shade_db.Prelude.Maps.{
  Map, Entries, lookup, insert, lookup-Entries, lookup-insert_self, lookup-insert_ne, some_inj,
  int_Eq, nat_Eq,
}
use time_shade_db.Core.Time.{window_start, IsTime}
use time_shade_db.Core.Grid.{TileCoord, chunk_pixel_count}
use time_shade_db.Memstore.Terrain.{
  TerrainTile, TerrainDs, CommittedVersion, ChunkUpdate, tile_Eq, accept, note_time, add_colours,
  or_new, tile_update, update_pixels,
}
use time_shade_db.Memstore.Terrain.Commit.{commit_tile, commit_tiles, commit_ds}
use time_shade_db.Memstore.Terrain.Versions.{IsTile, IsStart}
use time_shade_db.Memstore.Terrain.Closing.{commit_tile-IsTile}
use time_shade_db.Memstore.Terrain.Accept.{IsDs, window_start-IsStart, add_colours-SameTiles}

-- The versions of a tile, with those that an operation appends after the horizon h.
pub record Grows (h : ℤ) (tl tl' : TerrainTile) : Type 0 where
  pub more : List CommittedVersion
  pub versions_are : tl'.versions ≡ tl.versions ++ more
  pub after : All (λ v. h <ℤ v.eff) more

pub Grows-refl : (h : ℤ) (tl tl' : TerrainTile) → tl'.versions ≡ tl.versions → Grows h tl tl'
Grows-refl h tl tl' e = record {
  more = [];
  versions_are = e ∙ sym (append-nil tl.versions);
  after = tt;
}

All-after :
    (h h' : ℤ) (vs : List CommittedVersion)
    → h ≤ℤ h'
    → All (λ v. h' <ℤ v.eff) vs
    → All (λ v. h <ℤ v.eff) vs
All-after h h' [] le a = tt
All-after h h' (v ∷ vs) le a = (omega (arith, a.0), All-after h h' vs le a.1)

Grows-trans : (h h' : ℤ) (a b c : TerrainTile) → h ≤ℤ h' → Grows h a b → Grows h' b c → Grows h a c
Grows-trans h h' a b c le x y = record {
  more = x.more ++ y.more;
  versions_are = y.versions_are ∙ rw x.versions_are (append_assoc a.versions x.more y.more);
  after = All-append (λ v. h <ℤ v.eff) x.more y.more x.after (All-after h h' y.more le y.after);
}

-- A tile of a map stays in it and grows.
abbrev pub TilesGrow : ℤ → Map TileCoord TerrainTile → Map TileCoord TerrainTile → Type 0
TilesGrow h m m' =
    (tc : TileCoord) (tl : TerrainTile)
    → lookup tc m ≡ some tl
    → (tl' : TerrainTile) × (lookup tc m' ≡ some tl') × Grows h tl tl'

pub record DsGrows (d d' : TerrainDs) : Type 0 where
  pub forward : d.horizon ≤ℤ d'.horizon
  pub tiles_grow : TilesGrow d.horizon d.tiles d'.tiles

pub DsGrows-refl : (d : TerrainDs) → DsGrows d d
DsGrows-refl d = record {
  forward = omega arith;
  tiles_grow = λ tc tl e. (tl, e, Grows-refl d.horizon tl tl refl);
}

pub DsGrows-trans : (a b c : TerrainDs) → DsGrows a b → DsGrows b c → DsGrows a c
DsGrows-trans a b c x y = record {
  forward = omega (arith, x.forward, y.forward);
  tiles_grow = λ tc tl e.
      let (tl', e', g) = x.tiles_grow tc tl e in
      let (tl'', e'', g') = y.tiles_grow tc tl' e' in
      (tl'', e'', Grows-trans a.horizon b.horizon tl tl' tl'' x.forward g g');
}

-- The tile that `insert` replaces has the same versions; the other tiles stay.
insert-TilesGrow :
    (h : ℤ) (tc : TileCoord) (new : TerrainTile) (m : Map TileCoord TerrainTile)
    → new.versions ≡ (or_new (lookup tc m)).versions
    → TilesGrow h m (insert tc new m)
insert-TilesGrow h tc new m e k tl f = elim (Bool-cases (tile_Eq.same tc k)) [
  | inl s ↦ same_place (sym ((tile_Eq.same_iff tc k).0 s))
  | inr s ↦ (tl, lookup-insert_ne k tc new m s ∙ f, Grows-refl h tl tl refl)
]
  where
    same_place :
        k ≡ tc → (tl' : TerrainTile) × (lookup k (insert tc new m) ≡ some tl') × Grows h tl tl'
    same_place p =
        let f' : lookup tc m ≡ some tl = subst (λ x. lookup x m ≡ some tl) p f in
        (
          new,
          rw p (lookup-insert_self tc new m),
          Grows-refl h tl new (e ∙ ap (λ o. (or_new o).versions) f'),
        )

pub accept-DsGrows :
    (tc : TileCoord) (block : ℕ) (u : ChunkUpdate) (d : TerrainDs) → DsGrows d (accept tc block u d)
unfolding accept note_time tile_update
accept-DsGrows tc block u d =
    let s = add_colours-SameTiles chunk_pixel_count (update_pixels u) d in
    record {
      forward = rw s.horizons (omega arith);
      tiles_grow = λ k tl e.
          insert-TilesGrow d.horizon tc _ (add_colours chunk_pixel_count (update_pixels u) d).tiles
            refl k tl (ap (lookup k) s.tiles_are ∙ e);
    }

lookup-commit_tiles :
    (w h : ℤ) (tc : TileCoord) (tl : TerrainTile) (m : Map TileCoord TerrainTile)
    → lookup tc m ≡ some tl
    → lookup tc (commit_tiles w h m) ≡ some (commit_tile w h tl)
unfolding lookup commit_tiles
lookup-commit_tiles w h tc tl [] e = cc
lookup-commit_tiles w h tc tl ((k, t) ∷ m) e = elim (Bool-cases (tile_Eq.same k tc)) [
  | inl s ↦ rw s (ap (λ t. some (commit_tile w h t)) (some_inj _ _ (rw s at e)))
  | inr s ↦ rw s (lookup-commit_tiles w h tc tl m (rw s at e))
]

commit_tiles-IsTile :
    (w : ℕ) (h h' : ℤ)
    → 0 < w
    → w < 2 ^ 62
    → IsStart w h'
    → h ≤ℤ h'
    → (m : Map TileCoord TerrainTile) → Entries (λ _ tl. IsTile w h tl) m
    → Entries (λ _ tl. IsTile w h' tl) (commit_tiles (pos w) h' m)
unfolding commit_tiles
commit_tiles-IsTile w h h' p l s le [] e = tt
commit_tiles-IsTile w h h' p l s le ((k, t) ∷ m) e =
    ((commit_tile-IsTile w h h' p l t s le e.0).0, commit_tiles-IsTile w h h' p l s le m e.1)

commit_tiles-TilesGrow :
    (w : ℕ) (h h' : ℤ)
    → 0 < w
    → w < 2 ^ 62
    → IsStart w h'
    → h ≤ℤ h'
    → (m : Map TileCoord TerrainTile) → Entries (λ _ tl. IsTile w h tl) m
    → TilesGrow h m (commit_tiles (pos w) h' m)
commit_tiles-TilesGrow w h h' p l s le m es tc tl e =
    let x =
      (commit_tile-IsTile w h h' p l tl s le
        (lookup-Entries (λ _ t. IsTile w h t) tc tl m es e)).1 in
    (
      commit_tile (pos w) h' tl,
      lookup-commit_tiles (pos w) h' tc tl m e,
      record { more = x.more; versions_are = x.versions_are; after = only x.more x.later },
    )
  where
    only :
        (vs : List CommittedVersion)
        → All (λ v. (h <ℤ v.eff) × (v.eff ≤ℤ h')) vs
        → All (λ v. h <ℤ v.eff) vs
    only [] a = tt
    only (v ∷ vs) a = (a.0.0, only vs a.1)

-- `Commit` keeps the invariant of a datastore, and its tiles only grow.
pub commit_ds_lem :
    (up_to : ℤ) (d : TerrainDs)
    → IsTime up_to
    → IsDs d
    → IsDs (commit_ds up_to d) × DsGrows d (commit_ds up_to d)
unfolding commit_ds
commit_ds_lem up_to d ht v = elim (Bool-cases (leb_ℤ (window_start up_to d.window) d.horizon)) [
  | inl s ↦ rw s (v, DsGrows-refl d)
  | inr s ↦ rw s (
    record {
      length = v.length;
      window_is = v.window_is;
      positive = v.positive;
      length_lt = v.length_lt;
      horizon_is = inr st;
      tiles_are =
          subst (λ x. Entries (λ _ tl. IsTile v.length h tl) (commit_tiles x h d.tiles))
            (sym v.window_is)
            (commit_tiles-IsTile v.length d.horizon h v.positive v.length_lt st (ahead s) d.tiles
              v.tiles_are);
    },
    record {
      forward = ahead s;
      tiles_grow =
          subst (λ x. TilesGrow d.horizon d.tiles (commit_tiles x h d.tiles)) (sym v.window_is)
            (commit_tiles-TilesGrow v.length d.horizon h v.positive v.length_lt st (ahead s) d.tiles
              v.tiles_are);
    },
  )
]
  where
    h : ℤ
    h = window_start up_to d.window

    st : IsStart v.length h
    st =
        subst (λ x. IsStart v.length (window_start up_to x)) (sym v.window_is)
          (window_start-IsStart up_to v.length ht v.positive v.length_lt)

    ahead : leb_ℤ h d.horizon ≡ false → d.horizon ≤ℤ h
    ahead s = ground arith
