-- ===== src/Memstore/Terrain/Accept.antt =====
-- An accepted update: it opens a window at or after the horizon and leaves the versions alone.
use time_shade_db.Prelude.{ℕ, zero, suc, ◌^◌, ◌<◌, ◌≡◌, refl, sym, ap, ◌∙◌, subst, arith}
use time_shade_db.Prelude.{false, inl, inr, ◌⊎◌, Option-cases}
use time_shade_db.Prelude.Int.{ℤ, pos, pos_part, neg_part, ◌+ℤ◌, ◌≤ℤ◌, ltb_ℤ, ==ℤ_iff}
use time_shade_db.Prelude.Int.{int_parts}
use time_shade_db.Prelude.Maps.{
  Map, Entries, insert-Entries, lookup-Entries, lookup, int_Eq, nat_Eq,
}
use time_shade_db.Core.Time.{window_start, window_bounds, floor_div, multiples_apart, IsTime}
use time_shade_db.Core.Grid.{TileCoord, chunk_pixel_count}
use time_shade_db.Core.Image.{ChunkPixels}
use time_shade_db.Memstore.Terrain.{
  TerrainTile, TerrainDs, OpenUpdate, ChunkUpdate, no_horizon, tile_Eq,
}
use time_shade_db.Memstore.Terrain.{
  tile_update, new_tile, or_new, add_colour, add_colours, accept, note_time, update_pixels,
}
use time_shade_db.Memstore.Terrain.Read.{replay}
use time_shade_db.Memstore.Terrain.Versions.{IsStart, IsTile}

pub tile_update-IsTile :
    (w : ℕ) (h ws : ℤ) (block : ℕ) (u : OpenUpdate) (tl : TerrainTile)
    → IsStart w ws
    → h ≤ℤ ws
    → IsTile w h tl
    → IsTile w h (tile_update ws block u tl)
unfolding tile_update
tile_update-IsTile w h ws block u tl s le t = record {
  replayed = t.replayed;
  ascending = t.ascending;
  committed = t.committed;
  opened =
      insert-Entries (λ x _. IsStart w x × (h ≤ℤ x)) ws _ tl.windows
        (λ j e. subst (λ x. IsStart w x × (h ≤ℤ x)) (sym ((==ℤ_iff j ws).0 e)) (s, le)) t.opened;
}

pub new_tile-IsTile : (w : ℕ) (h : ℤ) → IsTile w h new_tile
unfolding new_tile
new_tile-IsTile w h = record {
  replayed = unfold replay in refl;
  ascending = tt;
  committed = tt;
  opened = tt;
}

-- A horizon is none at all, or the start of a window.
abbrev pub IsHorizon : ℕ → ℤ → Type 0
IsHorizon w h = (h ≡ no_horizon) ⊎ IsStart w h

pub window_start-IsStart :
    (t : ℤ) (w : ℕ) → IsTime t → 0 < w → w < 2 ^ 62 → IsStart w (window_start t (pos w))
window_start-IsStart t w h p l =
    let b = window_bounds t w h p l in
    record {
      factor = floor_div t (pos w);
      start_is = b.3;
      low = omega (int_parts, b.0, b.1, ap pos_part b.2, ap neg_part b.2);
      high = omega (int_parts, b.0);
    }

-- An update that is not late belongs to a window that starts at or after the horizon.
horizon-le-window_start :
    (t h : ℤ) (w : ℕ)
    → IsTime t
    → 0 < w
    → w < 2 ^ 62
    → IsHorizon w h
    → h ≤ℤ t
    → h ≤ℤ window_start t (pos w)
horizon-le-window_start t h w ht p l (inl none_yet) le =
    let s = window_start-IsStart t w ht p l in rw none_yet (omega (arith, s.low))
horizon-le-window_start t h w ht p l (inr hs) le =
    let s = window_start-IsStart t w ht p l in
    let b = window_bounds t w ht p l in
    elim (multiples_apart hs.factor s.factor w) [
      | inl q ↦ rw (hs.start_is, s.start_is) q
      | inr q ↦ absurd (beyond (rw (← hs.start_is, ← s.start_is) at q))
    ]
  where
    beyond : window_start t (pos w) +ℤ pos w ≤ℤ h → ⊥
    beyond q =
        let b = window_bounds t w ht p l in omega (int_parts, b.1, ap pos_part b.2, ap neg_part b.2)

-- A datastore of the store.
pub record IsDs (d : TerrainDs) : Type 0 where
  pub length : ℕ
  pub window_is : d.window ≡ pos length
  pub positive : 0 < length
  pub length_lt : length < 2 ^ 62
  pub horizon_is : IsHorizon length d.horizon
  pub tiles_are : Entries (λ _ tl. IsTile length d.horizon tl) d.tiles

-- What the palette loop leaves alone.
pub record SameTiles (d d' : TerrainDs) : Type 0 where
  pub windows : d'.window ≡ d.window
  pub horizons : d'.horizon ≡ d.horizon
  pub tiles_are : d'.tiles ≡ d.tiles

add_colour-SameTiles : (c : ℕ) (d : TerrainDs) → SameTiles d (add_colour c d)
unfolding add_colour
add_colour-SameTiles c d = elim (Option-cases (lookup c d.pal_idx)) [
  | inl e ↦ rw (add_colour, e) (record { windows = refl; horizons = refl; tiles_are = refl })
  | inr (i, e) ↦ rw (add_colour, e) (record { windows = refl; horizons = refl; tiles_are = refl })
]

pub add_colours-SameTiles :
    (n : ℕ) (px : ChunkPixels) (d : TerrainDs) → SameTiles d (add_colours n px d)
unfolding add_colours
add_colours-SameTiles zero px d = record { windows = refl; horizons = refl; tiles_are = refl }
add_colours-SameTiles (suc n) px d =
    let a = add_colours-SameTiles n px d in
    let b = add_colour-SameTiles (px n) (add_colours n px d) in
    record {
      windows = b.windows ∙ a.windows;
      horizons = b.horizons ∙ a.horizons;
      tiles_are = b.tiles_are ∙ a.tiles_are;
    }

IsDs-SameTiles : (d d' : TerrainDs) → SameTiles d d' → IsDs d → IsDs d'
IsDs-SameTiles d d' s v = record {
  length = v.length;
  window_is = s.windows ∙ v.window_is;
  positive = v.positive;
  length_lt = v.length_lt;
  horizon_is = rw s.horizons v.horizon_is;
  tiles_are = rw (s.horizons, s.tiles_are) v.tiles_are;
}

-- A tile of the datastore, or the new one.
or_new-IsTile :
    (w : ℕ) (h : ℤ) (tc : TileCoord) (m : Map TileCoord TerrainTile)
    → Entries (λ _ tl. IsTile w h tl) m
    → IsTile w h (or_new (lookup tc m))
or_new-IsTile w h tc m e = elim (Option-cases (lookup tc m)) [
  | inl q ↦ rw q (new_tile-IsTile w h)
  | inr (tl, q) ↦ rw q (lookup-Entries (λ _ tl. IsTile w h tl) tc tl m e q)
]

-- An update that `Apply` accepts keeps the invariant of its datastore.
pub accept-IsDs :
    (tc : TileCoord) (block : ℕ) (u : ChunkUpdate) (d : TerrainDs)
    → IsTime u.t
    → ltb_ℤ u.t d.horizon ≡ false
    → IsDs d
    → IsDs (accept tc block u d)
unfolding accept note_time
accept-IsDs tc block u d ht late v =
    let px = update_pixels u in
    let d' = add_colours chunk_pixel_count px d in
    let v' = IsDs-SameTiles d d' (add_colours-SameTiles chunk_pixel_count px d) v in
    record {
      length = v'.length;
      window_is = v'.window_is;
      positive = v'.positive;
      length_lt = v'.length_lt;
      horizon_is = v'.horizon_is;
      tiles_are =
          insert-Entries (λ _ tl. IsTile v'.length d'.horizon tl) tc _ d'.tiles
            (λ j e.
              tile_update-IsTile v'.length d'.horizon _ block _ (or_new (lookup tc d'.tiles))
                (subst (λ x. IsStart v'.length (window_start u.t x)) (sym v'.window_is)
                  (window_start-IsStart u.t v'.length ht v'.positive v'.length_lt))
                (subst (λ x. d'.horizon ≤ℤ window_start u.t x) (sym v'.window_is)
                  (horizon-le-window_start u.t d'.horizon v'.length ht v'.positive v'.length_lt
                    v'.horizon_is
                    (le_horizon (add_colours-SameTiles chunk_pixel_count px d).horizons)))
                (or_new-IsTile v'.length d'.horizon tc d'.tiles v'.tiles_are))
            v'.tiles_are;
    }
  where
    le_horizon :
        (add_colours chunk_pixel_count (update_pixels u) d).horizon ≡ d.horizon
        → (add_colours chunk_pixel_count (update_pixels u) d).horizon ≤ℤ u.t
    le_horizon e = rw e (ground arith)
