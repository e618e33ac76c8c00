-- ===== src/Terrain/Codec/Bitmap.antt =====
-- The positions of a chunk as a bitmap of 128 bytes.
use time_shade_db.Prelude.{
  ℕ, zero, suc, ◌+◌, ◌-◌, ◌*◌, ◌^◌, ◌≤◌, ◌<◌, ◌≡◌, refl, sym, ap, ◌∙◌, arith, ltb, ◌==◌, ◌&&◌, inl,
  inr, Bool-cases, subst, min, bit_and, bit_or,
}
use time_shade_db.Prelude.{
  Bool, true, false, List, [], ◌∷◌, ◌++◌, length, replicate, append_assoc, append-nil, map,
}
use time_shade_db.Prelude.Bits.{two_pow_pos, or_fields_low}
use native.Mathlib.Nat.{pow-suc}
use time_shade_db.Core.Keys.{same_bytes}
use time_shade_db.Core.Keys.Escape.{same_bytes→eq}
use time_shade_db.Core.Image.{all_below}
use time_shade_db.Terrain.Codec.{
  set_bit, set_bits, byte_positions, bitmap_positions, trailing_zeros,
}

-- Positions of a chunk that rise, from one on.
abbrev pub IsRising : ℕ → List ℕ → Type 0
IsRising next [] = Unit {0}
IsRising next (p ∷ ps) = (next ≤ p) × (p < 1024) × IsRising (suc p) ps

-- No bit from number p on is set.
abbrev pub IsBelow : ℕ → List ℕ → Type 0
IsBelow p [] = Unit {0}
IsBelow p (b ∷ bs) = (b < 2 ^ min p 8) × IsBelow (p - 8) bs

and_true : (a b : Bool) → (a && b) ≡ true → (a ≡ true) × (b ≡ true)
and_true true b h = (refl, h)
and_true false b h = absurd (ground arith)

ltb_lem : (i n : ℕ) → ltb i n ≡ false → n ≤ i
ltb_lem i n h = ground arith

all_below-lt : (n : ℕ) (f : ℕ → Bool) → all_below n f ≡ true → (i : ℕ) → i < n → f i ≡ true
unfolding all_below
all_below-lt zero f h i lt = absurd (omega arith)
all_below-lt (suc n) f h i lt = elim (Bool-cases (ltb i n)) [
  | inl c ↦ all_below-lt n f (and_true (all_below n f) (f n) h).0 i (ground arith)
  | inr c ↦
      subst (λ j. f j ≡ true) (omega (arith, ltb_lem i n c, lt))
        (and_true (all_below n f) (f n) h).1
]

zero_plus : (n : ℕ) → n ≡ 0 + n
zero_plus n = omega arith

-- The bits of byte i are those of byte 0, moved.
byte_positions-map :
    (fuel i b : ℕ) → byte_positions fuel i b ≡ map (λ p. i * 8 + p) (byte_positions fuel 0 b)
unfolding byte_positions
byte_positions-map zero i b = refl
byte_positions-map (suc fuel) i b = elim (Bool-cases (b == 0)) [
  | inl c ↦ rw (c) refl
  | inr c ↦ rw (c) (λ j.
      (i * 8 + zero_plus (trailing_zeros 8 b) j) ∷ byte_positions-map fuel i (bit_and b (b - 1)) j)
]

map_snoc : (f : ℕ → ℕ) (xs : List ℕ) (x : ℕ) → map f (xs ++ (x ∷ [])) ≡ map f xs ++ (f x ∷ [])
map_snoc f [] x = refl
map_snoc f (y ∷ xs) x = ap (λ t. f y ∷ t) (map_snoc f xs x)

min_left : (p : ℕ) → p < 8 → min p 8 ≡ p
min_left p h = omega arith

-- All bytes whose bits are below k, with bit k set.
places_checked :
    all_below 8 (λ k.
      all_below (2 ^ k) (λ b.
        same_bytes (byte_positions 8 0 (bit_or b (2 ^ k))) (byte_positions 8 0 b ++ (k ∷ []))))
    ≡ true
unfolding all_below byte_positions trailing_zeros same_bytes
places_checked = refl

-- Setting a bit above all that are set adds its position at the end.
byte_positions-bit_or :
    (i k b : ℕ)
    → k < 8
    → b < 2 ^ k
    → byte_positions 8 i (bit_or b (2 ^ k)) ≡ byte_positions 8 i b ++ ((i * 8 + k) ∷ [])
byte_positions-bit_or i k b h lt =
    byte_positions-map 8 i (bit_or b (2 ^ k))
    ∙ ap (map (λ p. i * 8 + p))
        (same_bytes→eq _ _ (all_below-lt (2 ^ k) _ (all_below-lt 8 _ places_checked k h) b lt))
    ∙ map_snoc (λ p. i * 8 + p) (byte_positions 8 0 b) k
    ∙ ap (λ t. t ++ ((i * 8 + k) ∷ [])) (sym (byte_positions-map 8 i b))

bitmap_zero : (i : ℕ) (bm : List ℕ) → IsBelow 0 bm → bitmap_positions i bm ≡ []
unfolding bitmap_positions byte_positions
bitmap_zero i [] h = refl
bitmap_zero i (zero ∷ bs) (h, hs) = bitmap_zero (suc i) bs hs
bitmap_zero i (suc b ∷ bs) (h, hs) = absurd (omega arith)

bitmap_positions-set_bit :
    (i p : ℕ) (bm : List ℕ)
    → IsBelow p bm
    → p < 8 * length bm
    → bitmap_positions i (set_bit p bm) ≡ bitmap_positions i bm ++ ((i * 8 + p) ∷ [])
unfolding bitmap_positions set_bit
bitmap_positions-set_bit i p [] h lt = absurd (omega arith)
bitmap_positions-set_bit i p (b ∷ bs) (h, hs) lt = elim (Bool-cases (ltb p 8)) [
  | inl c ↦
      let small : p < 8 = ground arith in
      let low : b < 2 ^ p = subst (λ n. b < 2 ^ n) (min_left p small) h in
      let zeros : IsBelow 0 bs = subst (λ n. IsBelow n bs) (omega arith) hs in
      rw (set_bit, c, byte_positions-bit_or i p b small low, bitmap_zero (suc i) bs zeros)
        (append-nil _ ∙ ap (λ t. t ++ ((i * 8 + p) ∷ [])) (sym (append-nil (byte_positions 8 i b))))
  | inr c ↦
      let place : suc i * 8 + (p - 8) ≡ i * 8 + p = ground arith in
      rw (set_bit, c)
        (ap (λ t. byte_positions 8 i b ++ t)
            (bitmap_positions-set_bit (suc i) (p - 8) bs hs (ground arith)
              ∙ ap (λ n. bitmap_positions (suc i) bs ++ (n ∷ [])) place)
          ∙ sym (
              append_assoc (byte_positions 8 i b) (bitmap_positions (suc i) bs) ((i * 8 + p) ∷ [])))
]

pow_le : (a k c : ℕ) → c ≡ k + a → 2 ^ a ≤ 2 ^ c
pow_le a zero c e = omega (arith, ap (λ n. 2 ^ n) (zero_sum a c e))
  where
    zero_sum : (a c : ℕ) → c ≡ 0 + a → c ≡ a
    zero_sum a c e = omega arith
pow_le a (suc k) c e =
    omega (arith, ap (λ n. 2 ^ n) (next_sum a k c e), pow-suc 2 (k + a), pow_le a k (k + a) refl)
  where
    next_sum : (a k c : ℕ) → c ≡ suc k + a → c ≡ suc (k + a)
    next_sum a k c e = omega arith

IsBelow-mono : (p q : ℕ) (bm : List ℕ) → p ≤ q → IsBelow p bm → IsBelow q bm
IsBelow-mono p q [] le h = tt
IsBelow-mono p q (b ∷ bs) le (h, hs) = (
  omega (arith, h, pow_le (min p 8) (min q 8 - min p 8) (min q 8) (omega arith)),
  IsBelow-mono (p - 8) (q - 8) bs (omega arith) hs,
)

added : (b p q : ℕ) → p < 8 → p < q → b < 2 ^ min p 8 → bit_or b (2 ^ p) < 2 ^ min q 8
added b p q small lt h =
    let low : b < 2 ^ p = subst (λ n. b < 2 ^ n) (min_left p small) h in
    let one : 1 * 2 ^ p ≡ 2 ^ p = omega arith in
    let sum : bit_or b (2 ^ p) ≡ 1 * 2 ^ p + b =
      subst (λ n. bit_or b n ≡ 1 * 2 ^ p + b) one (or_fields_low p 1 b low) in
    omega (arith, sum, low, pow-suc 2 p, pow_le (suc p) (min q 8 - suc p) (min q 8) (omega arith))

set_bit-IsBelow : (p q : ℕ) (bm : List ℕ) → p < q → IsBelow p bm → IsBelow q (set_bit p bm)
unfolding set_bit
set_bit-IsBelow p q [] lt h = tt
set_bit-IsBelow p q (b ∷ bs) lt (h, hs) = elim (Bool-cases (ltb p 8)) [
  | inl c ↦
      rw (set_bit, c)
        (added b p q (ground arith) lt h, IsBelow-mono (p - 8) (q - 8) bs (omega arith) hs)
  | inr c ↦
      rw (set_bit, c)
        (
          omega (arith, h, pow_le (min p 8) (min q 8 - min p 8) (min q 8) (ground arith)),
          set_bit-IsBelow (p - 8) (q - 8) bs (ground arith) hs,
        )
]

length-set_bit : (p : ℕ) (bm : List ℕ) → length (set_bit p bm) ≡ length bm
unfolding set_bit
length-set_bit p [] = refl
length-set_bit p (b ∷ bs) = elim (Bool-cases (ltb p 8)) [
  | inl c ↦ rw (set_bit, c) refl
  | inr c ↦ rw (set_bit, c) (ap suc (length-set_bit (p - 8) bs))
]

zeros-IsBelow : (n p : ℕ) → IsBelow p (replicate n 0)
zeros-IsBelow zero p = tt
zeros-IsBelow (suc n) p = (two_pow_pos (min p 8), zeros-IsBelow n (p - 8))

pub length-set_bits : (ps bm : List ℕ) → length (set_bits ps bm) ≡ length bm
unfolding set_bits
length-set_bits [] bm = refl
length-set_bits (p ∷ ps) bm = length-set_bits ps (set_bit p bm) ∙ length-set_bit p bm

set_bits-positions :
    (ps : List ℕ) (next : ℕ) (bm : List ℕ)
    → IsRising next ps
    → IsBelow next bm
    → length bm ≡ 128
    → bitmap_positions 0 (set_bits ps bm) ≡ bitmap_positions 0 bm ++ ps
unfolding set_bits
set_bits-positions [] next bm h below len = sym (append-nil (bitmap_positions 0 bm))
set_bits-positions (p ∷ ps) next bm (lo, hi, h) below len =
    set_bits-positions ps (suc p) (set_bit p bm) h (set_bit-IsBelow p (suc p) bm (omega arith) at_p)
      (length-set_bit p bm ∙ len)
    ∙ ap (λ t. t ++ ps)
        (bitmap_positions-set_bit 0 p bm at_p (omega arith)
          ∙ ap (λ n. bitmap_positions 0 bm ++ (n ∷ [])) (omega arith))
    ∙ append_assoc (bitmap_positions 0 bm) (p ∷ []) ps
  where
    at_p : IsBelow p bm
    at_p = IsBelow-mono next p bm lo below

-- The positions in the bitmap of rising positions are these.
pub bitmap_positions-set_bits :
    (ps : List ℕ) → IsRising 0 ps → bitmap_positions 0 (set_bits ps (replicate 128 0)) ≡ ps
bitmap_positions-set_bits ps h =
    set_bits-positions ps 0 (replicate 128 0) h (zeros-IsBelow 128 0) refl
    ∙ ap (λ t. t ++ ps) (bitmap_zero 0 (replicate 128 0) (zeros-IsBelow 128 0))
