-- ===== src/Core/Grid/Regions.antt =====
-- The world area of a tile: the square from `Origin` with the side `TileSpan`.
use time_shade_db.Prelude.{
  ℕ, zero, suc, ◌+◌, ◌-◌, ◌*◌, ◌≤◌, ◌<◌, ◌≡◌, refl, sym, ap, subst, ◌∙◌, arith,
}
use time_shade_db.Prelude.{true, false, some}
use time_shade_db.Prelude.Int.{ℤ, pos, pos_part, neg_part, ◌+ℤ◌, ◌-ℤ◌, ◌*ℤ◌, ◌≤ℤ◌, ◌<ℤ◌}
use time_shade_db.Prelude.Int.{int_laws, one_part}
use time_shade_db.Prelude.Int.{ltb_ℤ}
use time_shade_db.Core.Grid.{TileCoord, parent, ancestor, ancestor_loop, is_valid, tile_span}
use time_shade_db.Core.Grid.{origin, grid_origin_tiles, coord_limit, min_z}
use native.Mathlib.Nat.{pow-suc}
use time_shade_db.Core.Grid.Extent.{
  level, level_parts, level-down, level-neg_part, IsLevel-table, span, Fits, Fits-IsI32, half-Fits,
}
use time_shade_db.Core.Grid.Extent.{
  axis-Within, axis_origin, parent_at, IsValid, is_valid→IsValid, IsValid→is_valid,
}
use time_shade_db.Core.Grid.Levels.{coord, half, half_cases}

-- The area of t lies in that of u.
pub record IsWithin (t u : TileCoord) : Type 0 where
  pub left : (origin u).0 ≤ℤ (origin t).0
  pub right : (origin t).0 +ℤ tile_span t.z ≤ℤ (origin u).0 +ℤ tile_span u.z
  pub top : (origin u).1 ≤ℤ (origin t).1
  pub bottom : (origin t).1 +ℤ tile_span t.z ≤ℤ (origin u).1 +ℤ tile_span u.z

pub IsWithin-refl : (t : TileCoord) → IsWithin t t
IsWithin-refl t = omega arith

pub IsWithin-trans : (t u v : TileCoord) → IsWithin t u → IsWithin u v → IsWithin t v
IsWithin-trans t u v h k = omega arith

origin_at :
    (k : ℕ) (x y : ℤ)
    → k < 11
    → Fits k x
    → Fits k y
    → origin (coord (level k) x y)
      ≡ (grid_origin_tiles +ℤ x *ℤ pos (span k), grid_origin_tiles +ℤ y *ℤ pos (span k))
unfolding origin
origin_at k x y h fx fy = rw (axis_origin x k h fx.0 fx.1, axis_origin y k h fy.0 fy.1)

span-suc : (k : ℕ) → span (suc k) ≡ 2 * span k
span-suc k = omega (arith, pow-suc 2 k)

axis_step :
    (k : ℕ) (x : ℤ)
    → k < 10
    → Fits k x
    → (grid_origin_tiles +ℤ half x *ℤ pos (span (suc k)) ≤ℤ grid_origin_tiles +ℤ x *ℤ pos (span k))
      × (grid_origin_tiles +ℤ x *ℤ pos (span k) +ℤ pos (span k)
          ≤ℤ grid_origin_tiles +ℤ half x *ℤ pos (span (suc k)) +ℤ pos (span (suc k)))
axis_step k x h f =
    let w = axis-Within (half x) x (span k) (half_cases x (Fits-IsI32 k x (omega arith) f)) in
    rw (span-suc k) (omega (int_laws, w))

IsWithin-at :
    (k : ℕ) (x y : ℤ)
    → k < 10
    → Fits k x
    → Fits k y
    → IsWithin (coord (level k) x y) (coord (level (suc k)) (half x) (half y))
IsWithin-at k x y h fx fy =
    let ot = origin_at k x y (omega arith) fx fy in
    let op =
      origin_at (suc k) (half x) (half y) (omega arith) (half-Fits k x h fx) (half-Fits k y h fy) in
    let st = (IsLevel-table k (omega arith)).span_is in
    let sp = (IsLevel-table (suc k) (omega arith)).span_is in
    let (xl, xr) = axis_step k x h fx in
    let (yl, yr) = axis_step k y h fy in
    record {
      left = rw (ot, op) xl;
      right = rw (ot, op, st, sp) xr;
      top = rw (ot, op) yl;
      bottom = rw (ot, op, st, sp) yr;
    }

valid_x : (t : TileCoord) (v : IsValid t) → Fits v.depth t.x
valid_x t v =
    subst (λ z. (pos_part t.x ≤ coord_limit z) × (neg_part t.x ≤ coord_limit z)) v.level_is
      (v.x_high, v.x_low)

valid_y : (t : TileCoord) (v : IsValid t) → Fits v.depth t.y
valid_y t v =
    subst (λ z. (pos_part t.y ≤ coord_limit z) × (neg_part t.y ≤ coord_limit z)) v.level_is
      (v.y_high, v.y_low)

valid_coord : (t : TileCoord) (v : IsValid t) → coord (level v.depth) t.x t.y ≡ t
valid_coord t v = λ i. record { z = sym v.level_is i; x = t.x; y = t.y }

coord-IsValid : (k : ℕ) (x y : ℤ) → k < 11 → Fits k x → Fits k y → IsValid (coord (level k) x y)
coord-IsValid k x y h fx fy = record {
  depth = k;
  depth_le = omega arith;
  level_is = refl;
  x_low = fx.1;
  x_high = fx.0;
  y_low = fy.1;
  y_high = fy.0;
}

-- What a coarser tile u, at depth j, is to t.
record IsAbove (t u : TileCoord) (j : ℕ) : Type 0 where
  valid : is_valid u ≡ true
  level_is : u.z ≡ level j
  within : IsWithin t u

parent-IsAbove :
    (k : ℕ) (x y : ℤ)
    → k < 10
    → Fits k x
    → Fits k y
    → IsAbove (coord (level k) x y) (coord (level (suc k)) (half x) (half y)) (suc k)
parent-IsAbove k x y h fx fy = record {
  valid = IsValid→is_valid _ (
      coord-IsValid (suc k) (half x) (half y) (omega arith) (half-Fits k x h fx)
        (half-Fits k y h fy));
  level_is = refl;
  within = IsWithin-at k x y h fx fy;
}

-- The `Parent` of a valid tile above the coarsest level is valid, one level coarser, and covers the
-- area of the tile.
pub parent-IsWithin :
    (t : TileCoord)
    → is_valid t ≡ true
    → min_z <ℤ t.z
    → (is_valid (parent t) ≡ true) × ((parent t).z ≡ t.z -ℤ pos 1) × IsWithin t (parent t)
parent-IsWithin t h below =
    let v = is_valid→IsValid t h in
    let k = v.depth in
    let small : k < 10 =
      omega (arith, ap pos_part v.level_is, ap neg_part v.level_is, level_parts k) in
    let e : parent t ≡ coord (level (suc k)) (half t.x) (half t.y) =
      ap parent (sym (valid_coord t v)) ∙ parent_at k t.x t.y small (valid_x t v) (valid_y t v) in
    let a : IsAbove t (coord (level (suc k)) (half t.x) (half t.y)) (suc k) =
      subst (λ s. IsAbove s (coord (level (suc k)) (half t.x) (half t.y)) (suc k)) (valid_coord t v)
        (parent-IsAbove k t.x t.y small (valid_x t v) (valid_y t v)) in
    rw e (a.valid, rw v.level_is (sym (level-down k)), a.within)

level_reached : (j k : ℕ) → j ≤ k → ltb_ℤ (level j) (level k) ≡ false
level_reached j k h = ground (arith, level_parts j, level_parts k)

level_below : (j k : ℕ) → k < j → ltb_ℤ (level j) (level k) ≡ true
level_below j k h = ground (arith, level_parts j, level_parts k)

IsAbove-refl :
    (k : ℕ) (x y : ℤ)
    → k ≤ 10
    → Fits k x
    → Fits k y
    → IsAbove (coord (level k) x y) (coord (level k) x y) k
IsAbove-refl k x y h fx fy = record {
  valid = IsValid→is_valid _ (coord-IsValid k x y (omega arith) fx fy);
  level_is = refl;
  within = IsWithin-refl _;
}

IsAbove-trans : (t u v : TileCoord) (j k : ℕ) → IsAbove t u j → IsAbove u v k → IsAbove t v k
IsAbove-trans t u v j k h i = record {
  valid = i.valid;
  level_is = i.level_is;
  within = IsWithin-trans t u v h.within i.within;
}

-- The loop makes n rounds, from depth k to depth j = k + n.
ancestor_at :
    (fuel n k j : ℕ) (x y : ℤ)
    → n ≤ fuel
    → k + n ≡ j
    → j ≤ 10
    → Fits k x
    → Fits k y
    → (u : TileCoord) × (ancestor_loop fuel (coord (level k) x y) (level j) ≡ some u)
      × IsAbove (coord (level k) x y) u j
unfolding ancestor_loop
ancestor_at zero zero k j x y hf e hj fx fy =
    let same : k ≡ j = omega arith in
    (
      coord (level k) x y,
      rw (level_reached j k (omega arith)),
      subst (IsAbove (coord (level k) x y) (coord (level k) x y)) same
          (IsAbove-refl k x y (omega arith) fx fy),
    )
ancestor_at zero (suc n) k j x y hf e hj fx fy = absurd (omega arith)
ancestor_at (suc fuel) zero k j x y hf e hj fx fy =
    let same : k ≡ j = omega arith in
    (
      coord (level k) x y,
      rw (level_reached j k (omega arith)),
      subst (IsAbove (coord (level k) x y) (coord (level k) x y)) same
          (IsAbove-refl k x y (omega arith) fx fy),
    )
ancestor_at (suc fuel) (suc n) k j x y hf e hj fx fy =
    let small : k < 10 = omega arith in
    let (u, run, above) =
      ancestor_at fuel n (suc k) j (half x) (half y) (omega arith) (omega arith) hj
        (half-Fits k x small fx) (half-Fits k y small fy) in
    (
      u,
      rw (level_below j k (omega arith), parent_at k x y small fx fy) run,
      IsAbove-trans (coord (level k) x y) _ u (suc k) j (parent-IsAbove k x y small fx fy) above,
    )

-- `Ancestor` of a valid tile, for a level from -10 to the tile's own, ends, with a valid tile of
-- that level that covers the area of the tile.
pub ancestor-IsWithin :
    (t : TileCoord) (z : ℤ)
    → is_valid t ≡ true
    → min_z ≤ℤ z
    → z ≤ℤ t.z
    → (u : TileCoord) × (ancestor t z ≡ some u) × (is_valid u ≡ true) × (u.z ≡ z) × IsWithin t u
unfolding ancestor
ancestor-IsWithin t z h lo hi =
    let v = is_valid→IsValid t h in
    let k = v.depth in
    let j = neg_part z in
    let facts = level_parts k in
    let top : z ≤ℤ pos 0 = omega (arith, ap pos_part v.level_is, ap neg_part v.level_is, facts) in
    let ez : z ≡ level j = level-neg_part z top in
    let (u, run, above) =
      ancestor_at 255 (j - k) k j t.x t.y (omega (arith, one_part z))
        (omega (arith, one_part z, ap pos_part v.level_is, ap neg_part v.level_is, facts))
        (omega (arith, one_part z)) (valid_x t v) (valid_y t v) in
    let run' : ancestor_loop 255 t z ≡ some u =
      ap (λ s. ancestor_loop 255 s z) (sym (valid_coord t v))
      ∙ ap (ancestor_loop 255 (coord (level k) t.x t.y)) ez
      ∙ run in
    (
      u,
      run',
      above.valid,
      above.level_is ∙ sym ez,
      subst (λ s. IsWithin s u) (valid_coord t v) above.within,
    )
