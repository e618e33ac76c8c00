-- ===== src/Core/Grid/Levels.antt =====
-- `Parent`, `Children` and `Ancestor`.
use time_shade_db.Prelude.{ℕ, ◌+◌, ◌^◌, ◌≤◌, ◌<◌, ◌≡◌, refl, ap, ◌∙◌, arith}
use time_shade_db.Prelude.{◌⊎◌, inl, inr, some, List, [], ◌∷◌, All, length}
use time_shade_db.Prelude.Int.{ℤ, pos, negsuc, pos_part, neg_part, ◌+ℤ◌, ◌-ℤ◌, ◌*ℤ◌}
use time_shade_db.Prelude.Int.{
  int8_id, IsI8, int32, int32_id, IsI32, int_laws, int_parts, *ℤ_pos_parts,
}
use native.Mathlib.Decide.{dec_lt}
use time_shade_db.Core.Time.{floor_div, floor_div_bounds, floor_unique}
use time_shade_db.Core.Grid.{TileCoord, parent, children}

pub half : ℤ → ℤ
half x = floor_div x (pos 2)

-- A coordinate is twice its half, or one more; and it is the half of both.
pub half_cases : (x : ℤ) → IsI32 x → (x ≡ half x *ℤ pos 2) ⊎ (x ≡ half x *ℤ pos 2 +ℤ pos 1)
unfolding half
half_cases x h =
    let q = floor_div x (pos 2) in
    let (lo, hi) = floor_div_bounds x 2 (omega arith) (omega arith) in
    elim (dec_lt (pos_part (q *ℤ pos 2) + neg_part x) (pos_part x + neg_part (q *ℤ pos 2))) [
      | yes above ↦ inr (omega int_laws)
      | no exact ↦ inl (omega int_laws)
    ]

pub half-IsI32 : (x : ℤ) → IsI32 x → (pos_part (half x) < 2 ^ 30) × (neg_part (half x) ≤ 2 ^ 30)
unfolding half
half-IsI32 x h =
    let q = floor_div x (pos 2) in
    let (lo, hi) = floor_div_bounds x 2 (omega arith) (omega arith) in
    omega (int_parts, *ℤ_pos_parts q 2, lo, hi)

-- Tile coordinates at which neither a child nor a parent leaves its word.
abbrev pub IsHalf : ℤ → Type 0
IsHalf q = (pos_part q < 2 ^ 30) × (neg_part q ≤ 2 ^ 30)

half-double : (q : ℤ) → IsHalf q → half (q *ℤ pos 2) ≡ q
unfolding half
half-double q h =
    let x = q *ℤ pos 2 in
    let (lo, hi) = floor_div_bounds x 2 (omega (int_parts, *ℤ_pos_parts q 2)) (omega arith) in
    floor_unique x (floor_div x (pos 2)) q 2 lo hi (omega int_laws) (omega int_laws)

half-double_one : (q : ℤ) → IsHalf q → half (q *ℤ pos 2 +ℤ pos 1) ≡ q
unfolding half
half-double_one q h =
    let x = q *ℤ pos 2 +ℤ pos 1 in
    let (lo, hi) = floor_div_bounds x 2 (omega (int_parts, *ℤ_pos_parts q 2)) (omega arith) in
    floor_unique x (floor_div x (pos 2)) q 2 lo hi (omega int_laws) (omega int_laws)

abbrev pub Has : TileCoord → List TileCoord → Type 0
Has t [] = ⊥
Has t (c ∷ cs) = (c ≡ t) ⊎ Has t cs

abbrev pub coord : ℤ → ℤ → ℤ → TileCoord
coord z x y = record { z = z; x = x; y = y }

-- The four tiles of a level with corner (2 x, 2 y), without the wraps.
abbrev pub four : ℤ → ℤ → ℤ → List TileCoord
four z x y =
    let x' = x *ℤ pos 2 in
    let y' = y *ℤ pos 2 in
    coord z x' y'
    ∷ coord z (x' +ℤ pos 1) y'
    ∷ coord z x' (y' +ℤ pos 1)
    ∷ coord z (x' +ℤ pos 1) (y' +ℤ pos 1)
    ∷ []

double_id : (x : ℤ) → IsHalf x → int32 (x *ℤ pos 2) ≡ x *ℤ pos 2
double_id x h = int32_id (x *ℤ pos 2) (omega (int_parts, *ℤ_pos_parts x 2))

double_one_id : (x : ℤ) → IsHalf x → int32 (x *ℤ pos 2 +ℤ pos 1) ≡ x *ℤ pos 2 +ℤ pos 1
double_one_id x h = int32_id (x *ℤ pos 2 +ℤ pos 1) (omega (int_parts, *ℤ_pos_parts x 2))

pub children-four :
    (k : ℕ) (x y : ℤ)
    → k < 128
    → IsHalf x
    → IsHalf y
    → children (coord (negsuc k) x y) ≡ some (four (negsuc k +ℤ pos 1) x y)
unfolding children
children-four k x y hk hx hy =
    rw
      (
        double_id x hx,
        double_id y hy,
        double_one_id x hx,
        double_one_id y hy,
        int8_id (negsuc k +ℤ pos 1) (omega int_parts),
      )
      (ground arith)

pub parent_eq :
    (z x y : ℤ)
    → IsI8 (z -ℤ pos 1)
    → IsI32 x
    → IsI32 y
    → parent (coord z x y) ≡ coord (z -ℤ pos 1) (half x) (half y)
unfolding parent
parent_eq z x y hz hx hy =
    rw
      (
        int8_id (z -ℤ pos 1) hz,
        int32_id (floor_div x (pos 2)) (unfold half in omega (arith, half-IsI32 x hx)),
        int32_id (floor_div y (pos 2)) (unfold half in omega (arith, half-IsI32 y hy)),
      )
      (unfold half in refl)

level_back : (z : ℤ) → z +ℤ pos 1 -ℤ pos 1 ≡ z
level_back z = omega int_laws

level_forth : (z : ℤ) → z -ℤ pos 1 +ℤ pos 1 ≡ z
level_forth z = omega int_laws

parent-coord :
    (k : ℕ) (x y u v : ℤ)
    → k < 128
    → IsI32 u
    → IsI32 v
    → half u ≡ x
    → half v ≡ y
    → parent (coord (negsuc k +ℤ pos 1) u v) ≡ coord (negsuc k) x y
parent-coord k x y u v hk hu hv eu ev =
    parent_eq (negsuc k +ℤ pos 1) u v (omega int_parts) hu hv ∙ rw (level_back (negsuc k), eu, ev)

-- A tile of a level from -128 to -1, with coordinates from -2^30 to 2^30 - 1, has four `Children`,
-- and the `Parent` of each of them is that tile.
pub parent-children :
    (k : ℕ) (x y : ℤ)
    → k < 128
    → IsHalf x
    → IsHalf y
    → (cs : List TileCoord) × (children (coord (negsuc k) x y) ≡ some cs)
      × (length cs ≡ 4)
      × All (λ c. parent c ≡ coord (negsuc k) x y) cs
parent-children k x y hk hx hy = (
  four (negsuc k +ℤ pos 1) x y,
  children-four k x y hk hx hy,
  refl,
  (
    parent-coord k x y _ _ hk (even x hx) (even y hy) (half-double x hx) (half-double y hy),
    (
      parent-coord k x y _ _ hk (odd x hx) (even y hy) (half-double_one x hx) (half-double y hy),
      (
        parent-coord k x y _ _ hk (even x hx) (odd y hy) (half-double x hx) (half-double_one y hy),
        (
          parent-coord k x y _ _ hk (odd x hx) (odd y hy) (half-double_one x hx)
              (half-double_one y hy),
          tt,
        ),
      ),
    ),
  ),
)
  where
    even : (q : ℤ) → IsHalf q → IsI32 (q *ℤ pos 2)
    even q h = omega (int_parts, *ℤ_pos_parts q 2)

    odd : (q : ℤ) → IsHalf q → IsI32 (q *ℤ pos 2 +ℤ pos 1)
    odd q h = omega (int_parts, *ℤ_pos_parts q 2)

Has-four :
    (z x y u v : ℤ)
    → (u ≡ x *ℤ pos 2) ⊎ (u ≡ x *ℤ pos 2 +ℤ pos 1)
    → (v ≡ y *ℤ pos 2) ⊎ (v ≡ y *ℤ pos 2 +ℤ pos 1)
    → Has (coord z u v) (four z x y)
Has-four z x y u v (inl a) (inl b) = inl (rw (a, b))
Has-four z x y u v (inr a) (inl b) = inr (inl (rw (a, b)))
Has-four z x y u v (inl a) (inr b) = inr (inr (inl (rw (a, b))))
Has-four z x y u v (inr a) (inr b) = inr (inr (inr (inl (rw (a, b)))))

-- A tile of a level from -127 to 0, with int32 coordinates, is among the `Children` of its
-- `Parent`.
pub children-parent :
    (k : ℕ) (x y : ℤ)
    → k < 128
    → IsI32 x
    → IsI32 y
    → let t = coord (negsuc k +ℤ pos 1) x y in
      (cs : List TileCoord) × (children (parent t) ≡ some cs) × Has t cs
children-parent k x y hk hx hy = (
  four (negsuc k +ℤ pos 1) (half x) (half y),
  ap children (parent-coord k (half x) (half y) x y hk hx hy refl refl)
      ∙ children-four k (half x) (half y) hk (half-IsI32 x hx) (half-IsI32 y hy),
  Has-four (negsuc k +ℤ pos 1) (half x) (half y) x y (half_cases x hx) (half_cases y hy),
)
