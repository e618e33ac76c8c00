-- ===== src/Prelude/Int.antt =====
-- Signed integers over the native numbers, with Go's division: `/` rounds towards zero and `%`
-- has the sign of its first operand. A signed word is the integer that it stands for, and
-- `int32` and `int64` are the conversions, which wrap.
use Prim.Native.Nat.{ℕ, suc, ◌+◌, ◌-◌, ◌*◌, ◌/◌, ◌%◌, ◌^◌, ◌≤◌, ◌<◌}
use mathlib.Core.Path.{◌≡◌, refl}
use mathlib.Core.Logic.{◌↔◌, ◌⊎◌, inl, inr}
use mathlib.Core.Bool.{Bool, true, false}
use native.Mathlib.Omega.{arith}
use time_shade_db.Prelude.Tests.{ltb, leb, ◌==◌, if◌then◌else◌}

-- `negsuc n` is -(n + 1).
pub data ℤ : Type 0 where
  pos : ℕ → ℤ
  negsuc : ℕ → ℤ

abbrev pub pos_part : ℤ → ℕ
pos_part (pos n) = n
pos_part (negsuc n) = 0

abbrev pub neg_part : ℤ → ℕ
neg_part (pos n) = 0
neg_part (negsuc n) = suc n

-- a - b, as an integer.
abbrev pub sub_ℕ : ℕ → ℕ → ℤ
sub_ℕ a b = if leb b a then pos (a - b) else negsuc (b - a - 1)

infixl 65 ◌+ℤ◌ ◌-ℤ◌
infixl 70 ◌*ℤ◌
infix 50 ◌≤ℤ◌ ◌<ℤ◌ ◌==ℤ◌
unfoldable pub ◌+ℤ◌ : ℤ → ℤ → ℤ
a +ℤ b = sub_ℕ (pos_part a + pos_part b) (neg_part a + neg_part b)

unfoldable pub ◌-ℤ◌ : ℤ → ℤ → ℤ
a -ℤ b = sub_ℕ (pos_part a + neg_part b) (neg_part a + pos_part b)

unfoldable pub ◌*ℤ◌ : ℤ → ℤ → ℤ
a *ℤ b =
    sub_ℕ (pos_part a * pos_part b + neg_part a * neg_part b)
      (pos_part a * neg_part b + neg_part a * pos_part b)

abbrev pub ◌≤ℤ◌ : ℤ → ℤ → Type 0
a ≤ℤ b = pos_part a + neg_part b ≤ pos_part b + neg_part a

abbrev pub ◌<ℤ◌ : ℤ → ℤ → Type 0
a <ℤ b = pos_part a + neg_part b < pos_part b + neg_part a

abbrev pub ltb_ℤ : ℤ → ℤ → Bool
ltb_ℤ a b = ltb (pos_part a + neg_part b) (pos_part b + neg_part a)

abbrev pub leb_ℤ : ℤ → ℤ → Bool
leb_ℤ a b = leb (pos_part a + neg_part b) (pos_part b + neg_part a)

abbrev pub ◌==ℤ◌ : ℤ → ℤ → Bool
a ==ℤ b = (pos_part a + neg_part b) == (pos_part b + neg_part a)

abbrev pub magnitude : ℤ → ℕ
magnitude (pos n) = n
magnitude (negsuc n) = suc n

abbrev pub is_neg : ℤ → Bool
is_neg (pos n) = false
is_neg (negsuc n) = true

-- Go's `a / b` and `a % b`.
abbrev pub quot : ℤ → ℤ → ℤ
quot a b = elim (is_neg a) [
  | true ↦ elim (is_neg b) [
    | true ↦ pos (magnitude a / magnitude b)
    | false ↦ sub_ℕ 0 (magnitude a / magnitude b)
  ]
  | false ↦ elim (is_neg b) [
    | true ↦ sub_ℕ 0 (magnitude a / magnitude b)
    | false ↦ pos (magnitude a / magnitude b)
  ]
]

abbrev pub rem : ℤ → ℤ → ℤ
rem a b = elim (is_neg a) [
  | true ↦ sub_ℕ 0 (magnitude a % magnitude b)
  | false ↦ pos (magnitude a % magnitude b)
]

pub +ℤ_parts :
    (a b : ℤ)
    → pos_part (a +ℤ b) + neg_part a + neg_part b ≡ neg_part (a +ℤ b) + pos_part a + pos_part b
unfolding ◌+ℤ◌
+ℤ_parts a b = ground arith

pub -ℤ_parts :
    (a b : ℤ)
    → pos_part (a -ℤ b) + neg_part a + pos_part b ≡ neg_part (a -ℤ b) + pos_part a + neg_part b
unfolding ◌-ℤ◌
-ℤ_parts a b = ground arith

pub *ℤ_pos_parts :
    (a : ℤ) (n : ℕ)
    → (pos_part (a *ℤ pos n) ≡ pos_part a * n) × (neg_part (a *ℤ pos n) ≡ neg_part a * n)
unfolding ◌*ℤ◌
*ℤ_pos_parts (pos k) n = ground arith
*ℤ_pos_parts (negsuc k) n = ground arith

pub eq_of_parts : (a b : ℤ) → pos_part a + neg_part b ≡ pos_part b + neg_part a → a ≡ b
eq_of_parts a b h = ground arith

pub ruleset int_laws = (arith, +ℤ_parts, -ℤ_parts, eq_of_parts)

pub ==ℤ_iff : (a b : ℤ) → ((a ==ℤ b) ≡ true) ↔ (a ≡ b)
==ℤ_iff a b = ground arith

-- The bit pattern of an integer in w bits, and the signed value of a pattern below 2 ^ w.
abbrev pub bits32 : ℤ → ℕ
bits32 (pos n) = n % 2 ^ 32
bits32 (negsuc n) = 2 ^ 32 - 1 - n % 2 ^ 32

abbrev pub signed32 : ℕ → ℤ
signed32 p = if ltb p (2 ^ 31) then pos p else negsuc (2 ^ 32 - 1 - p)

abbrev pub bits64 : ℤ → ℕ
bits64 (pos n) = n % 2 ^ 64
bits64 (negsuc n) = 2 ^ 64 - 1 - n % 2 ^ 64

abbrev pub signed64 : ℕ → ℤ
signed64 p = if ltb p (2 ^ 63) then pos p else negsuc (2 ^ 64 - 1 - p)

unfoldable pub int32 : ℤ → ℤ
int32 z = signed32 (bits32 z)

unfoldable pub int64 : ℤ → ℤ
int64 z = signed64 (bits64 z)

abbrev pub IsI32 : ℤ → Type 0
IsI32 z = (pos_part z < 2 ^ 31) × (neg_part z ≤ 2 ^ 31)

abbrev pub IsI64 : ℤ → Type 0
IsI64 z = (pos_part z < 2 ^ 63) × (neg_part z ≤ 2 ^ 63)

pub int32_id : (z : ℤ) → IsI32 z → int32 z ≡ z
unfolding int32
int32_id (pos n) h = ground arith
int32_id (negsuc n) h = ground arith

pub int64_id : (z : ℤ) → IsI64 z → int64 z ≡ z
unfolding int64
int64_id (pos n) h = ground arith
int64_id (negsuc n) h = ground arith

pub int32-IsI32 : (z : ℤ) → IsI32 (int32 z)
unfolding int32
int32-IsI32 (pos n) = ground arith
int32-IsI32 (negsuc n) = ground arith

pub signed32-bits32 : (z : ℤ) → IsI32 z → signed32 (bits32 z) ≡ z
signed32-bits32 (pos n) h = ground arith
signed32-bits32 (negsuc n) h = ground arith

pub signed64-bits64 : (z : ℤ) → IsI64 z → signed64 (bits64 z) ≡ z
signed64-bits64 (pos n) h = ground arith
signed64-bits64 (negsuc n) h = ground arith

pub one_part : (a : ℤ) → (pos_part a ≡ 0) ⊎ (neg_part a ≡ 0)
one_part (pos n) = inr refl
one_part (negsuc n) = inl refl

pub ruleset int_parts = (int_laws, one_part)

-- int8 and uint8, and how the conversions meet the sums that they wrap.
abbrev pub bits8 : ℤ → ℕ
bits8 (pos n) = n % 2 ^ 8
bits8 (negsuc n) = 2 ^ 8 - 1 - n % 2 ^ 8

unfoldable pub int8 : ℤ → ℤ
int8 z = if ltb (bits8 z) (2 ^ 7) then pos (bits8 z) else negsuc (2 ^ 8 - 1 - bits8 z)

abbrev pub IsI8 : ℤ → Type 0
IsI8 z = (pos_part z < 2 ^ 7) × (neg_part z ≤ 2 ^ 7)

pub int8_id : (z : ℤ) → IsI8 z → int8 z ≡ z
unfolding int8
int8_id (pos n) h = ground arith
int8_id (negsuc n) h = ground arith

pub int32-int32_add : (a b : ℤ) → int32 (int32 a +ℤ b) ≡ int32 (a +ℤ b)
unfolding int32 ◌+ℤ◌
int32-int32_add (pos a) (pos b) = ground arith
int32-int32_add (pos a) (negsuc b) = ground arith
int32-int32_add (negsuc a) (pos b) = ground arith
int32-int32_add (negsuc a) (negsuc b) = ground arith
