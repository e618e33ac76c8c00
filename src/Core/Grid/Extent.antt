-- ===== src/Core/Grid/Extent.antt =====
-- `Valid`, `Scale`, `TileSpan` and `Origin` level by level, in plain arithmetic.
use time_shade_db.Prelude.{ℕ, zero, suc, ◌+◌, ◌*◌, ◌^◌, ◌≤◌, ◌<◌, ◌≡◌, refl, ap, ◌∙◌, arith}
use time_shade_db.Prelude.{◌⊎◌, inl, inr, true}
use time_shade_db.Prelude.Int.{ℤ, pos, negsuc, pos_part, neg_part, ◌+ℤ◌, ◌-ℤ◌, ◌*ℤ◌, ◌≤ℤ◌}
use time_shade_db.Prelude.Int.{int8, int64, int64_id, IsI32, int_laws, int_parts}
use time_shade_db.Prelude.Int.{*ℤ_pos_parts}
use time_shade_db.Core.Grid.{TileCoord, parent, is_valid, scale, tile_span}
use time_shade_db.Core.Grid.{grid_origin_tiles, coord_limit}
use time_shade_db.Core.Grid.Levels.{coord, parent_eq, half, half_cases}

-- The levels from 0 up, as the number of halvings.
abbrev pub level : ℕ → ℤ
level zero = pos 0
level (suc k) = negsuc k

-- `is_valid` as a statement: the level is one of 0 .. -10, and x and y are within its limit.
pub record IsValid (t : TileCoord) : Type 0 where
  pub depth : ℕ
  pub depth_le : depth ≤ 10
  pub level_is : t.z ≡ level depth
  pub x_low : neg_part t.x ≤ coord_limit t.z
  pub x_high : pos_part t.x ≤ coord_limit t.z
  pub y_low : neg_part t.y ≤ coord_limit t.z
  pub y_high : pos_part t.y ≤ coord_limit t.z

pub level-neg_part : (z : ℤ) → (z ≤ℤ pos 0) → z ≡ level (neg_part z)
level-neg_part (pos n) h = ground arith
level-neg_part (negsuc n) h = refl

pub is_valid→IsValid : (t : TileCoord) → is_valid t ≡ true → IsValid t
unfolding is_valid ◌-ℤ◌
is_valid→IsValid t h = record {
  depth = neg_part t.z;
  depth_le = ground arith;
  level_is = level-neg_part t.z (ground arith);
  x_low = ground arith;
  x_high = ground arith;
  y_low = ground arith;
  y_high = ground arith;
}

pub level_parts : (k : ℕ) → (pos_part (level k) ≡ 0) × (neg_part (level k) ≡ k)
level_parts zero = (refl, refl)
level_parts (suc k) = (refl, refl)

pub IsValid→is_valid : (t : TileCoord) → IsValid t → is_valid t ≡ true
unfolding is_valid ◌-ℤ◌
IsValid→is_valid t h =
    ground (arith, ap pos_part h.level_is, ap neg_part h.level_is, level_parts h.depth)

-- The numbers of the eleven levels: the span of a tile, and how the limits go from one to the next.
abbrev pub span : ℕ → ℕ
span k = 512 * 2 ^ k

pub record IsLevel (k : ℕ) : Type 0 where
  pub span_is : tile_span (level k) ≡ pos (span k)
  pub area_le : coord_limit (level k) * span k ≤ 2 ^ 20
  pub span_le : span k ≤ 2 ^ 19
  pub next_limit : coord_limit (level (suc k)) * 2 ≡ coord_limit (level k)
  pub limit_pos : 1 ≤ coord_limit (level k)

pub IsLevel-table : (k : ℕ) → k < 11 → IsLevel k
unfolding tile_span scale int8 int64 ◌-ℤ◌ ◌*ℤ◌
IsLevel-table (suc (suc (suc (suc (suc (suc (suc (suc (suc (suc (suc k))))))))))) h =
    absurd (omega arith)
IsLevel-table _ h = record {
  span_is = refl;
  area_le = omega arith;
  span_le = omega arith;
  next_limit = refl;
  limit_pos = omega arith;
}

scaled :
    (x : ℤ) (s p m : ℕ)
    → pos_part x ≡ p
    → neg_part x ≡ m
    → (pos_part (x *ℤ pos s) ≡ p * s) × (neg_part (x *ℤ pos s) ≡ m * s)
scaled x s p m e f = rw (← e, ← f) (*ℤ_pos_parts x s)

-- Half the coordinate at twice the span starts no later and ends no sooner.
pub axis-Within :
    (q x : ℤ) (s : ℕ)
    → (x ≡ q *ℤ pos 2) ⊎ (x ≡ q *ℤ pos 2 +ℤ pos 1)
    → (q *ℤ pos (2 * s) ≤ℤ x *ℤ pos s) × (x *ℤ pos s +ℤ pos s ≤ℤ q *ℤ pos (2 * s) +ℤ pos (2 * s))
axis-Within (pos n) x s (inl e) =
    let d = *ℤ_pos_parts (pos n) 2 in
    let v = scaled x s (n * 2) 0 (ap pos_part e ∙ d.0) (ap neg_part e ∙ d.1) in
    omega (int_laws, *ℤ_pos_parts (pos n) (2 * s), v)
axis-Within (pos n) x s (inr e) =
    let d = *ℤ_pos_parts (pos n) 2 in
    let v =
      scaled x s (n * 2 + 1) 0 (omega (int_parts, ap pos_part e, ap neg_part e, d))
        (omega (int_parts, ap pos_part e, ap neg_part e, d)) in
    omega (int_laws, *ℤ_pos_parts (pos n) (2 * s), v)
axis-Within (negsuc n) x s (inl e) =
    let d = *ℤ_pos_parts (negsuc n) 2 in
    let v = scaled x s 0 (suc n * 2) (ap pos_part e ∙ d.0) (ap neg_part e ∙ d.1) in
    omega (int_laws, *ℤ_pos_parts (negsuc n) (2 * s), v)
axis-Within (negsuc n) x s (inr e) =
    let d = *ℤ_pos_parts (negsuc n) 2 in
    let v =
      scaled x s 0 (n * 2 + 1) (omega (int_parts, ap pos_part e, ap neg_part e, d))
        (omega (int_parts, ap pos_part e, ap neg_part e, d)) in
    omega (int_laws, *ℤ_pos_parts (negsuc n) (2 * s), v)

area : (x lim s : ℕ) → x ≤ lim → lim * s ≤ 2 ^ 20 → x * s ≤ 2 ^ 20
area x lim s h k = grind arith

-- One axis of `origin`, without the wraps.
pub axis_origin :
    (x : ℤ) (k : ℕ)
    → k < 11
    → pos_part x ≤ coord_limit (level k)
    → neg_part x ≤ coord_limit (level k)
    → int64 (grid_origin_tiles +ℤ int64 (x *ℤ tile_span (level k)))
      ≡ grid_origin_tiles +ℤ x *ℤ pos (span k)
axis_origin x k h hp hn =
    let lv = IsLevel-table k h in
    let s = span k in
    rw
      (
        lv.span_is,
        int64_id (x *ℤ pos s) (
            omega (
              arith,
              *ℤ_pos_parts x s,
              area (pos_part x) (coord_limit (level k)) s hp lv.area_le,
              area (neg_part x) (coord_limit (level k)) s hn lv.area_le,
            )),
      )
      (int64_id (grid_origin_tiles +ℤ x *ℤ pos s) (
        omega (
          int_parts,
          *ℤ_pos_parts x s,
          area (pos_part x) (coord_limit (level k)) s hp lv.area_le,
          area (neg_part x) (coord_limit (level k)) s hn lv.area_le,
        )))

abbrev pub Fits : ℕ → ℤ → Type 0
Fits k x = (pos_part x ≤ coord_limit (level k)) × (neg_part x ≤ coord_limit (level k))

pub level-down : (k : ℕ) → level k -ℤ pos 1 ≡ level (suc k)
level-down zero = omega int_laws
level-down (suc k) = omega int_laws

pub Fits-IsI32 : (k : ℕ) (x : ℤ) → k < 11 → Fits k x → IsI32 x
Fits-IsI32 k x h f = let lv = IsLevel-table k h in omega (arith, limit_le k)
  where
    limit_le : (j : ℕ) → coord_limit (level j) ≤ 2048
    limit_le zero = omega arith
    limit_le (suc j) = ground arith

pub half-Fits : (k : ℕ) (x : ℤ) → k < 10 → Fits k x → Fits (suc k) (half x)
half-Fits k x h f = omega (
  int_parts,
  ap (λ (v : ℕ). v) (IsLevel-table k (omega arith)).next_limit,
  *ℤ_pos_parts (half x) 2,
  cases (half_cases x (Fits-IsI32 k x (omega arith) f)),
)
  where
    cases :
        (x ≡ half x *ℤ pos 2) ⊎ (x ≡ half x *ℤ pos 2 +ℤ pos 1)
        → (pos_part x + neg_part (half x *ℤ pos 2) ≡ pos_part (half x *ℤ pos 2) + neg_part x)
          ⊎ (pos_part x + neg_part (half x *ℤ pos 2) ≡ pos_part (half x *ℤ pos 2) + neg_part x + 1)
    cases (inl e) = inl (omega (arith, ap pos_part e, ap neg_part e))
    cases (inr e) = inr (omega (int_parts, ap pos_part e, ap neg_part e))

pub parent_at :
    (k : ℕ) (x y : ℤ)
    → k < 10
    → Fits k x
    → Fits k y
    → parent (coord (level k) x y) ≡ coord (level (suc k)) (half x) (half y)
parent_at k x y h fx fy =
    parent_eq (level k) x y (omega (int_parts, level_parts k)) (Fits-IsI32 k x (omega arith) fx)
      (Fits-IsI32 k y (omega arith) fy)
    ∙ rw (level-down k)
