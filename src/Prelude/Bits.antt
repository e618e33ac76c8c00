-- ===== src/Prelude/Bits.antt =====
-- `&` and `|` split at any bit: the high and the low parts of both operands meet on their own.
-- From this follow masks of ones as remainders and the or of disjoint fields as a sum.
use Prim.Native.Nat.{ℕ, zero, suc, ◌+◌, ◌*◌, ◌/◌, ◌%◌, ◌^◌, ◌≤◌, ◌<◌, min, max}
use Prim.Native.Nat.{bit_and, bit_or, digits, bit_and-bitwise, bit_or-bitwise}
use mathlib.Core.Path.{◌≡◌, refl, sym, ap, ◌∙◌}
use native.Mathlib.Omega.{arith}
use native.Mathlib.Nat.{pow-suc}

module _ (z : ℕ → ℕ) (f : ℕ → ℕ → ℕ) where
  -- The digits do not depend on the fuel, once there is enough of it.
  digits-more : (n m a b : ℕ) → a ≤ n → a ≤ m → digits z f n a b ≡ digits z f m a b
  digits-more zero zero a b p q = refl
  digits-more zero (suc m) zero b p q = refl
  digits-more zero (suc m) (suc a) b p q = absurd (omega arith)
  digits-more (suc n) zero zero b p q = refl
  digits-more (suc n) zero (suc a) b p q = absurd (omega arith)
  digits-more (suc n) (suc m) zero b p q = refl
  digits-more (suc n) (suc m) (suc a) b p q =
      ap (λ d. d * 2 + f (suc a % 2) (b % 2))
        (digits-more n m (suc a / 2) (b / 2) (omega arith) (omega arith))

  digits-fuel : (n a b : ℕ) → a ≤ n → digits z f n a b ≡ digits z f a a b
  digits-fuel n a b h = digits-more n a a b h (omega arith)

pub bit_and_step : (a b : ℕ) → bit_and a b ≡ bit_and (a / 2) (b / 2) * 2 + min (a % 2) (b % 2)
bit_and_step zero y = omega (arith, bit_and-bitwise 0 y, bit_and-bitwise 0 (y / 2))
bit_and_step (suc a) b =
    bit_and-bitwise (suc a) b
    ∙ ap (λ d. d * 2 + min (suc a % 2) (b % 2))
        (digits-fuel (λ y. 0) min a (suc a / 2) (b / 2) (omega arith)
          ∙ sym (bit_and-bitwise (suc a / 2) (b / 2)))

pub bit_or_step : (a b : ℕ) → bit_or a b ≡ bit_or (a / 2) (b / 2) * 2 + max (a % 2) (b % 2)
bit_or_step zero y = omega (arith, bit_or-bitwise 0 y, bit_or-bitwise 0 (y / 2))
bit_or_step (suc a) b =
    bit_or-bitwise (suc a) b
    ∙ ap (λ d. d * 2 + max (suc a % 2) (b % 2))
        (digits-fuel (λ y. y) max a (suc a / 2) (b / 2) (omega arith)
          ∙ sym (bit_or-bitwise (suc a / 2) (b / 2)))

double_pow : (q k : ℕ) → q * 2 ^ suc k ≡ q * 2 ^ k * 2
double_pow q k = omega (arith, ap (λ (t : ℕ). q * t) (pow-suc 2 k))

pub bit_and_split :
    (k p q a b : ℕ)
    → a < 2 ^ k
    → b < 2 ^ k
    → bit_and (p * 2 ^ k + a) (q * 2 ^ k + b) ≡ bit_and p q * 2 ^ k + bit_and a b
bit_and_split zero p q a b h i = ground (arith)
bit_and_split (suc k) p q a b h i = ground (
  arith,
  bit_and_step (p * 2 ^ suc k + a) (q * 2 ^ suc k + b),
  bit_and_step a b,
  double_pow p k,
  double_pow q k,
  double_pow (bit_and p q) k,
  pow-suc 2 k,
  bit_and_split k p q (a / 2) (b / 2) (omega (arith, pow-suc 2 k)) (omega (arith, pow-suc 2 k)),
)

pub bit_or_split :
    (k p q a b : ℕ)
    → a < 2 ^ k
    → b < 2 ^ k
    → bit_or (p * 2 ^ k + a) (q * 2 ^ k + b) ≡ bit_or p q * 2 ^ k + bit_or a b
bit_or_split zero p q a b h i = ground (arith)
bit_or_split (suc k) p q a b h i = ground (
  arith,
  bit_or_step (p * 2 ^ suc k + a) (q * 2 ^ suc k + b),
  bit_or_step a b,
  double_pow p k,
  double_pow q k,
  double_pow (bit_or p q) k,
  pow-suc 2 k,
  bit_or_split k p q (a / 2) (b / 2) (omega (arith, pow-suc 2 k)) (omega (arith, pow-suc 2 k)),
)

zero_and : (b : ℕ) → bit_and 0 b ≡ 0
zero_and b = bit_and-bitwise 0 b

pub zero_or : (b : ℕ) → bit_or 0 b ≡ b
zero_or b = bit_or-bitwise 0 b

pub or_zero_fuel : (n a : ℕ) → a ≤ n → bit_or a 0 ≡ a
or_zero_fuel n zero h = refl
or_zero_fuel zero (suc a) h = absurd (omega arith)
or_zero_fuel (suc n) (suc a) h =
    omega (arith, bit_or_step (suc a) 0, or_zero_fuel n (suc a / 2) (omega arith))

pub or_zero : (a : ℕ) → bit_or a 0 ≡ a
or_zero a = or_zero_fuel a a (omega arith)

and_zero_fuel : (n a : ℕ) → a ≤ n → bit_and a 0 ≡ 0
and_zero_fuel n zero h = refl
and_zero_fuel zero (suc a) h = absurd (omega arith)
and_zero_fuel (suc n) (suc a) h =
    omega (arith, bit_and_step (suc a) 0, and_zero_fuel n (suc a / 2) (omega arith))

pub and_zero : (a : ℕ) → bit_and a 0 ≡ 0
and_zero a = and_zero_fuel a a (omega arith)

pub two_pow_pos : (k : ℕ) → 0 < 2 ^ k
two_pow_pos zero = omega arith
two_pow_pos (suc k) = omega (arith, pow-suc 2 k, two_pow_pos k)

-- Fields that do not overlap: their or is their sum.
pub or_fields : (k p b : ℕ) → b < 2 ^ k → bit_or (p * 2 ^ k) b ≡ p * 2 ^ k + b
or_fields k p b h = ground (arith, bit_or_split k p 0 0 b (omega arith) h, or_zero p, zero_or b)

pub or_fields_low : (k p b : ℕ) → b < 2 ^ k → bit_or b (p * 2 ^ k) ≡ p * 2 ^ k + b
or_fields_low k p b h = ground (arith, bit_or_split k 0 p b 0 h (omega arith), zero_or p, or_zero b)

-- Masks of ones are remainders.
pub and_1 : (a : ℕ) → bit_and a 1 ≡ a % 2
and_1 a = omega (arith, bit_and_step a 1, and_zero (a / 2))

and_3 : (a : ℕ) → bit_and a 3 ≡ a % 4
and_3 a = omega (arith, bit_and_step a 3, and_1 (a / 2))

and_7 : (a : ℕ) → bit_and a 7 ≡ a % 8
and_7 a = omega (arith, bit_and_step a 7, and_3 (a / 2))

pub and_15 : (a : ℕ) → bit_and a 15 ≡ a % 16
and_15 a = omega (arith, bit_and_step a 15, and_7 (a / 2))

pub and_31 : (a : ℕ) → bit_and a 31 ≡ a % 32
and_31 a = omega (arith, bit_and_step a 31, and_15 (a / 2))

pub and_63 : (a : ℕ) → bit_and a 63 ≡ a % 64
and_63 a = omega (arith, bit_and_step a 63, and_31 (a / 2))
