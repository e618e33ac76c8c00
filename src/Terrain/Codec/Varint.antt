-- ===== src/Terrain/Codec/Varint.antt =====
-- The varints of encoding/binary are read back.
use time_shade_db.Prelude.{
  ℕ, zero, suc, ◌+◌, ◌*◌, ◌/◌, ◌%◌, ◌^◌, ◌≤◌, ◌<◌, ◌≡◌, refl, ap, subst, ◌==◌, ◌∙◌, arith, leb,
  lt→ltb, le→ltb_false, le→leb, lt→leb_false, inl, inr, Bool-cases,
}
use time_shade_db.Prelude.{false, some, List, [], ◌∷◌, ◌++◌}
use native.Mathlib.Numerals.{towards_suc}
use time_shade_db.Terrain.Codec.{put_uvarint, uvarint, uvarint_groups, uvarint_from}

last_group : (fuel x : ℕ) → x < 128 → uvarint_groups (suc fuel) x ≡ x ∷ []
unfolding uvarint_groups
last_group fuel x h = rw (uvarint_groups, lt→leb_false 128 x h) refl

more_groups :
    (fuel x : ℕ)
    → 128 ≤ x
    → uvarint_groups (suc fuel) x ≡ (128 + x % 128) ∷ uvarint_groups fuel (x / 128)
unfolding uvarint_groups
more_groups fuel x h = rw (uvarint_groups, le→leb 128 x h) refl

not_eq : (a b : ℕ) → a < b → (a == b) ≡ false
not_eq a b h = ground arith

-- A byte below 128 ends a value, before the tenth one and at it.
last_byte :
    (i x acc : ℕ) (r : List ℕ)
    → i < 9
    → x < 128
    → uvarint_from i acc (x ∷ r) ≡ some (acc + x * 2 ^ (7 * i), r)
unfolding uvarint_from
last_byte i x acc r n h =
    rw (uvarint_from, not_eq i 10 (omega arith), lt→ltb x 128 h, not_eq i 9 n) refl

tenth_byte :
    (x acc : ℕ) (r : List ℕ) → x < 2 → uvarint_from 9 acc (x ∷ r) ≡ some (acc + x * 2 ^ 63, r)
unfolding uvarint_from
tenth_byte x acc r h =
    rw (uvarint_from, lt→ltb x 128 (omega arith), le→ltb_false 1 x (omega arith)) refl

-- Another byte goes on.
more_bytes :
    (i b acc : ℕ) (r : List ℕ)
    → i < 10
    → uvarint_from i acc ((128 + b) ∷ r)
      ≡ uvarint_from (suc i) (acc + (128 + b) % 128 * 2 ^ (7 * i)) r
unfolding uvarint_from
more_bytes i b acc r h =
    rw (uvarint_from, not_eq i 10 h, le→ltb_false (128 + b) 128 (omega arith)) refl

next_power : (i : ℕ) → 2 ^ (7 * suc i) ≡ 128 * 2 ^ (7 * i)
next_power i = ap (λ k. 2 ^ k) (omega arith) ∙ power (7 * i)
  where
    power : (s : ℕ) → 2 ^ (s + 7) ≡ 128 * 2 ^ s
    power s = simp towards_suc (omega arith)

groups_add : (x p acc : ℕ) → acc + (128 + x % 128) % 128 * p + x / 128 * (128 * p) ≡ acc + x * p
groups_add x p acc = omega (arith, ap (λ (t : ℕ). t * p) whole, ap (λ (t : ℕ). t * p) low)
  where
    whole : 128 * (x / 128) + x % 128 ≡ x
    whole = omega arith

    low : (128 + x % 128) % 128 ≡ x % 128
    low = omega arith

rest_bound : (x p : ℕ) → x * p < 2 ^ 64 → x / 128 * (128 * p) < 2 ^ 64
rest_bound x p h = omega (arith, ap (λ (t : ℕ). t * p) whole)
  where
    whole : 128 * (x / 128) + x % 128 ≡ x
    whole = omega arith

uvarint_from-groups :
    (fuel i x acc : ℕ) (r : List ℕ)
    → fuel + i ≡ 9
    → x * 2 ^ (7 * i) < 2 ^ 64
    → uvarint_from i acc (uvarint_groups fuel x ++ r) ≡ some (acc + x * 2 ^ (7 * i), r)
unfolding uvarint_groups
uvarint_from-groups zero i x acc r n h =
    subst
      (λ k.
        x * 2 ^ (7 * k) < 2 ^ 64
        → uvarint_from k acc (uvarint_groups zero x ++ r) ≡ some (acc + x * 2 ^ (7 * k), r))
      nine tenth h
  where
    nine : 9 ≡ i
    nine = omega arith

    tenth :
        x * 2 ^ 63 < 2 ^ 64
        → uvarint_from 9 acc (uvarint_groups zero x ++ r) ≡ some (acc + x * 2 ^ 63, r)
    tenth k =
        tenth_byte (x % 256) acc r (omega arith)
        ∙ ap (λ t. some (acc + t * 2 ^ 63, r)) (omega arith)
uvarint_from-groups (suc fuel) i x acc r n h = elim (Bool-cases (leb 128 x)) [
  | inl c ↦
      rw
        (
          more_groups fuel x (ground arith),
          more_bytes i (x % 128) acc (uvarint_groups fuel (x / 128) ++ r) (omega arith),
        )
        (uvarint_from-groups fuel (suc i) (x / 128) (acc + (128 + x % 128) % 128 * 2 ^ (7 * i)) r
            (omega arith) (rw (next_power i) (rest_bound x (2 ^ (7 * i)) h))
          ∙ ap (λ t. some (t, r)) (rw (next_power i) (groups_add x (2 ^ (7 * i)) acc)))
  | inr c ↦ rw (last_group fuel x (ground arith)) (last_byte i x acc r (omega arith) (ground arith))
]

-- A uint64 is read back.
pub uvarint-put_uvarint :
    (x : ℕ) (r : List ℕ) → x < 2 ^ 64 → uvarint (put_uvarint x ++ r) ≡ some (x, r)
uvarint-put_uvarint x r h =
    uvarint_from-groups 9 0 x 0 r refl (omega arith) ∙ ap (λ n. some (n, r)) (omega arith)

-- There is at least one.
pub put_uvarint_nonempty : (x : ℕ) → (b : ℕ) × ((bs : List ℕ) × (put_uvarint x ≡ b ∷ bs))
put_uvarint_nonempty x = elim (Bool-cases (leb 128 x)) [
  | inl c ↦ (_, (_, more_groups 8 x (ground arith)))
  | inr c ↦ (_, (_, last_group 8 x (ground arith)))
]
