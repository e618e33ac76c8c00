-- ===== src/Core/Time.antt =====
-- internal/core/time.go: the floor division and the time windows. A TimeMs is an int64 of
-- milliseconds; formatting and the conversions to time.Time are not modelled.
-- `FloorDiv` is for b > 0; at b = 0 Go's division panics, and no theorem covers it.
mod Tests
use time_shade_db.Prelude.{ℕ, suc, ◌+◌, ◌*◌, ◌/◌, ◌%◌, ◌^◌, ◌≤◌, ◌<◌, ◌≡◌, refl, ap, arith}
use time_shade_db.Prelude.{
  Bool, true, false, not, ◌&&◌, if◌then◌else◌, Bool-cases, inl, inr, ◌∙◌, ◌≢◌, ◌⊎◌,
}
use time_shade_db.Prelude.Int.{ℤ, pos, negsuc, pos_part, neg_part, ◌+ℤ◌, ◌-ℤ◌, ◌*ℤ◌, ◌≤ℤ◌, ◌<ℤ◌}
use time_shade_db.Prelude.Int.{
  ◌==ℤ◌, quot, rem, is_neg, int64, int64_id, IsI64, int_laws, int_parts,
}
use time_shade_db.Prelude.Int.{*ℤ_pos_parts, sub_ℕ}
use time_shade_db.Prelude.{xor}
use native.Mathlib.Decide.{dec_le}

abbrev pub second : ℤ
second = pos 1000

abbrev pub minute : ℤ
minute = pos 60000

-- `DefaultTerrainWindow`
abbrev pub default_terrain_window : ℤ
default_terrain_window = minute

unfoldable pub floor_div : ℤ → ℤ → ℤ
floor_div a b =
    let q = int64 (quot a b) in
    if not (rem a b ==ℤ pos 0) && xor (is_neg a) (is_neg b) then int64 (q -ℤ pos 1) else q

unfoldable pub window_start : ℤ → ℤ → ℤ
window_start t w = int64 (floor_div t w *ℤ w)

unfoldable pub window_end : ℤ → ℤ → ℤ
window_end t w = int64 (window_start t w +ℤ w)

div-le : (n b : ℕ) → n / b ≤ n
div-le n b = omega arith

pub floor_div-pos : (n b : ℕ) → 0 < b → n < 2 ^ 63 → floor_div (pos n) (pos b) ≡ pos (n / b)
unfolding floor_div xor
floor_div-pos n b h k = elim (Bool-cases (rem (pos n) (pos b) ==ℤ pos 0)) [
  | inl e ↦ rw e (int64_id (pos (n / b)) (omega (arith, div-le n b)))
  | inr e ↦ rw e (int64_id (pos (n / b)) (omega (arith, div-le n b)))
]

div-suc_exact : (n b : ℕ) → 0 < b → suc n % b ≡ 0 → suc n / b ≡ suc (n / b)
div-suc_exact n b h e = grind arith

div-suc_inexact : (n b : ℕ) → 0 < b → suc n % b ≢ 0 → suc n / b ≡ n / b
div-suc_inexact n b h e = grind arith

quot-IsI64 : (n b : ℕ) → n < 2 ^ 63 → IsI64 (quot (negsuc n) (pos b))
quot-IsI64 n b k = ground (arith, div-le (suc n) b)

pub floor_div-negsuc :
    (n b : ℕ) → 0 < b → n < 2 ^ 63 → floor_div (negsuc n) (pos b) ≡ negsuc (n / b)
unfolding floor_div xor
floor_div-negsuc n b h k = elim (Bool-cases (rem (negsuc n) (pos b) ==ℤ pos 0)) [
  | inl e ↦
      rw e (
        int64_id (quot (negsuc n) (pos b)) (quot-IsI64 n b k) ∙ ground (arith, div-suc_exact n b h))
  | inr e ↦ rw e (
      ap (λ q. int64 (q -ℤ pos 1)) (int64_id (quot (negsuc n) (pos b)) (quot-IsI64 n b k))
      ∙ unfold ◌-ℤ◌ in ground (arith, div-suc_inexact n b h, div-le n b, int64_id (negsuc (n / b))))
]

-- For an int64 a and b > 0, `FloorDiv` is the floor: its product with b is at most a, and more than
-- a - b.
pub floor_div_bounds :
    (a : ℤ) (b : ℕ)
    → IsI64 a
    → 0 < b
    → (floor_div a (pos b) *ℤ pos b ≤ℤ a) × (a <ℤ floor_div a (pos b) *ℤ pos b +ℤ pos b)
floor_div_bounds (pos n) b h k =
    rw (floor_div-pos n b k (omega arith)) (omega (int_laws, *ℤ_pos_parts (pos (n / b)) b))
floor_div_bounds (negsuc n) b h k =
    rw (floor_div-negsuc n b k (omega arith)) (omega (int_laws, *ℤ_pos_parts (negsuc (n / b)) b))

-- Times and lengths for which no window bound leaves an int64.
abbrev pub IsTime : ℤ → Type 0
IsTime t = (pos_part t < 2 ^ 62) × (neg_part t < 2 ^ 62)

product_le : (n w : ℕ) → 0 < w → n / w * w ≤ n
product_le n w h = omega (arith, div-le n w)

pub window_start-eq :
    (t : ℤ) (w : ℕ)
    → IsTime t
    → 0 < w
    → w < 2 ^ 62
    → window_start t (pos w) ≡ floor_div t (pos w) *ℤ pos w
unfolding window_start
window_start-eq (pos n) w h k l =
    rw (floor_div-pos n w k (omega arith))
      (int64_id _ (omega (int_laws, *ℤ_pos_parts (pos (n / w)) w, product_le n w k)))
window_start-eq (negsuc n) w h k l =
    rw (floor_div-negsuc n w k (omega arith))
      (int64_id _ (omega (int_laws, *ℤ_pos_parts (negsuc (n / w)) w, product_le n w k)))

IsTime-IsI64 : (t : ℤ) → IsTime t → IsI64 t
IsTime-IsI64 t h = omega arith

-- For a time below 2^62 in absolute value and a window length from 1 to 2^62 - 1: the time lies
-- from `WindowStart` on and before `WindowEnd`, which is one length after the start, and the start
-- is the floor quotient times the length.
pub window_bounds :
    (t : ℤ) (w : ℕ)
    → IsTime t
    → 0 < w
    → w < 2 ^ 62
    → (window_start t (pos w) ≤ℤ t)
      × (t <ℤ window_end t (pos w))
      × (window_end t (pos w) ≡ window_start t (pos w) +ℤ pos w)
      × (window_start t (pos w) ≡ floor_div t (pos w) *ℤ pos w)
unfolding window_end
window_bounds t w h k l =
    let e = window_start-eq t w h k l in
    let (lo, hi) = floor_div_bounds t w (IsTime-IsI64 t h) k in
    rw (e, int64_id (floor_div t (pos w) *ℤ pos w +ℤ pos w) (omega int_parts)) (lo, hi, refl, refl)

multiple_unique : (p q w : ℕ) → p * w < q * w + w → q * w < p * w + w → p ≡ q
multiple_unique p q w h k = grind arith

-- Two multiples of w that both lie in (t - w, t] are one.
pub floor_unique :
    (t p q : ℤ) (w : ℕ)
    → p *ℤ pos w ≤ℤ t
    → t <ℤ p *ℤ pos w +ℤ pos w
    → q *ℤ pos w ≤ℤ t
    → t <ℤ q *ℤ pos w +ℤ pos w
    → p ≡ q
floor_unique t (pos p) (pos q) w a b c d = ap pos (
    multiple_unique p q w (omega (int_laws, *ℤ_pos_parts (pos p) w, *ℤ_pos_parts (pos q) w))
      (omega (int_laws, *ℤ_pos_parts (pos p) w, *ℤ_pos_parts (pos q) w)))
floor_unique t (negsuc p) (negsuc q) w a b c d = ap negsuc (
    multiple_unique p q w (omega (int_laws, *ℤ_pos_parts (negsuc p) w, *ℤ_pos_parts (negsuc q) w))
      (omega (int_laws, *ℤ_pos_parts (negsuc p) w, *ℤ_pos_parts (negsuc q) w)))
floor_unique t (pos p) (negsuc q) w a b c d =
    absurd (omega (int_laws, *ℤ_pos_parts (pos p) w, *ℤ_pos_parts (negsuc q) w))
floor_unique t (negsuc p) (pos q) w a b c d =
    absurd (omega (int_laws, *ℤ_pos_parts (negsuc p) w, *ℤ_pos_parts (pos q) w))

-- For a time below 2^62 in absolute value and a window length from 1 to 2^62 - 1: a time in [q w, q
-- w + w) has the `WindowStart` q w, so windows neither overlap nor leave a gap.
pub window_start_unique :
    (t q : ℤ) (w : ℕ)
    → IsTime t
    → 0 < w
    → w < 2 ^ 62
    → q *ℤ pos w ≤ℤ t
    → t <ℤ q *ℤ pos w +ℤ pos w
    → window_start t (pos w) ≡ q *ℤ pos w
window_start_unique t q w h k l lo hi =
    let (lo', hi') = floor_div_bounds t w (IsTime-IsI64 t h) k in
    window_start-eq t w h k l
    ∙ ap (λ p. p *ℤ pos w) (floor_unique t (floor_div t (pos w)) q w lo' hi' lo hi)

nat_apart : (p q w : ℕ) → (p * w ≤ q * w) ⊎ (q * w + w ≤ p * w)
nat_apart p q w = elim (dec_le p q) [ yes h ↦ inl (grind arith) | no h ↦ inr (grind arith) ]

-- Two multiples of w are in order, or at least w apart.
pub multiples_apart :
    (p q : ℤ) (w : ℕ) → (p *ℤ pos w ≤ℤ q *ℤ pos w) ⊎ (q *ℤ pos w +ℤ pos w ≤ℤ p *ℤ pos w)
multiples_apart (pos p) (pos q) w = elim (nat_apart p q w) [
  | inl h ↦ inl (omega (int_laws, *ℤ_pos_parts (pos p) w, *ℤ_pos_parts (pos q) w))
  | inr h ↦ inr (omega (int_laws, *ℤ_pos_parts (pos p) w, *ℤ_pos_parts (pos q) w))
]
multiples_apart (negsuc p) (negsuc q) w = elim (nat_apart q p w) [
  | inl h ↦ inl (omega (int_laws, *ℤ_pos_parts (negsuc p) w, *ℤ_pos_parts (negsuc q) w))
  | inr h ↦ inr (omega (int_laws, *ℤ_pos_parts (negsuc p) w, *ℤ_pos_parts (negsuc q) w))
]
multiples_apart (negsuc p) (pos q) w =
    inl (omega (int_laws, *ℤ_pos_parts (negsuc p) w, *ℤ_pos_parts (pos q) w))
multiples_apart (pos p) (negsuc q) w =
    inr (omega (int_laws, *ℤ_pos_parts (pos p) w, *ℤ_pos_parts (negsuc q) w))
