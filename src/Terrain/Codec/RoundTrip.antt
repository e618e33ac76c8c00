-- ===== src/Terrain/Codec/RoundTrip.antt =====
-- `walkDelta` visits the changes that `encodeDelta` wrote.
use time_shade_db.Prelude.{
  ℕ, zero, suc, ◌+◌, ◌-◌, ◌*◌, ◌%◌, ◌^◌, ◌≤◌, ◌<◌, ◌≡◌, refl, sym, ap, ◌∙◌, arith, leb, ◌==◌,
  if◌then◌else◌, le→ltb_false, lt→leb_false, ==_iff, inl, inr, ◌⊎◌, Bool-cases,
}
use time_shade_db.Prelude.{
  Bool, true, false, none, some, List, [], ◌∷◌, ◌++◌, length, length-append, take, drop, replicate,
  append_assoc, take-append_self, drop-append_self, map,
}
use time_shade_db.Terrain.Codec.{
  ChunkChange, Visit, put_uvarint, put_gaps, read_gaps, set_bits, put_positions, read_positions,
  put_indices, put_change, read_change, encode_delta, walk_from, walk_delta,
}
use time_shade_db.Terrain.Codec.Bitmap.{IsRising, bitmap_positions-set_bits, length-set_bits}
use time_shade_db.Terrain.Codec.Varint.{uvarint-put_uvarint, put_uvarint_nonempty}

read_gaps-put_gaps :
    (ps : List ℕ) (next : ℕ) (r : List ℕ)
    → IsRising next ps
    → read_gaps (length ps) next (put_gaps next ps ++ r) ≡ some (ps, r)
unfolding read_gaps put_gaps
read_gaps-put_gaps [] next r h = refl
read_gaps-put_gaps (p ∷ ps) next r (lo, hi, h) =
    rw
      (
        gap_is,
        append_assoc (put_uvarint (p - next)) (put_gaps (suc p) ps) r,
        read_gaps,
        uvarint-put_uvarint (p - next) (put_gaps (suc p) ps ++ r) (omega arith),
        back,
        read_gaps-put_gaps ps (suc p) r h,
        lt→leb_false 1024 (p - next) (omega arith),
        lt→leb_false 1024 p hi,
      )
      (λ i. some (back i ∷ ps, r))
  where
    gap_is : (p + 2 ^ 64 - next) % 2 ^ 64 ≡ p - next
    gap_is = omega arith

    back : next + (p - next) ≡ p
    back = omega arith

pub length-put_indices :
    (wide : Bool) (vs : List ℕ) → length (put_indices wide vs) ≡ length vs * (if wide then 2 else 1)
unfolding put_indices
length-put_indices true [] = refl
length-put_indices false [] = refl
length-put_indices true (v ∷ vs) = omega (arith, length-put_indices true vs)
length-put_indices false (v ∷ vs) = omega (arith, length-put_indices false vs)

-- The changes of all pixels of a chunk, or of fewer at positions that rise.
pub record IsChange (c : ChunkChange) : Type 0 where
  pub block_is : c.block < 256
  pub some_is : 0 < length c.idx
  pub pos_is :
      ((c.pos ≡ none) × (length c.idx ≡ 1024))
      ⊎ ((ps : List ℕ) × ((c.pos ≡ some ps)
            × (IsRising 0 ps × ((length ps ≡ length c.idx) × (length c.idx < 1024)))))

-- The changes stand in the order of their blocks.
abbrev pub IsSorted : ℕ → List ChunkChange → Type 0
IsSorted next [] = Unit {0}
IsSorted next (c ∷ cs) = (next ≤ c.block) × IsChange c × IsSorted (suc c.block) cs

-- What the visitor receives for a change.
abbrev pub visit_of : Bool → ChunkChange → Visit
visit_of wide c = record {
  block = c.block;
  count = length c.idx;
  pos = c.pos;
  raw = put_indices wide c.idx;
}

read_gaps_or_bitmap :
    (n : ℕ) (ps r : List ℕ)
    → IsRising 0 ps
    → length ps ≡ n
    → n < 1024
    → read_positions n (put_positions n (some ps) ++ r) ≡ some (some ps, r)
unfolding read_positions
read_gaps_or_bitmap n ps r rise len le = elim (Bool-cases (leb n 128)) [
  | inl c ↦ rw (read_positions, c, not_full, sym len, read_gaps-put_gaps ps 0 r rise) refl
  | inr c ↦
      rw
        (
          read_positions,
          c,
          not_full,
          front.0,
          front.1,
          bitmap_positions-set_bits ps rise,
          len,
          (==_iff n n).1 refl,
          le→ltb_false (length (bm ++ r)) 128 (omega (arith, length-append bm r, bm_length)),
        )
        refl
]
  where
    not_full : (n == 1024) ≡ false
    not_full = ground arith

    bm : List ℕ
    bm = set_bits ps (replicate 128 0)

    bm_length : length bm ≡ 128
    bm_length = length-set_bits ps (replicate 128 0)

    front : (take 128 (bm ++ r) ≡ bm) × (drop 128 (bm ++ r) ≡ r)
    front = (
      ap (λ k. take k (bm ++ r)) (sym bm_length) ∙ take-append_self bm r,
      ap (λ k. drop k (bm ++ r)) (sym bm_length) ∙ drop-append_self bm r,
    )

read_positions-put_positions :
    (c : ChunkChange) (r : List ℕ)
    → IsChange c
    → read_positions (length c.idx) (put_positions (length c.idx) c.pos ++ r) ≡ some (c.pos, r)
unfolding read_positions
read_positions-put_positions c r v = elim v.pos_is [
  | inl (e, n) ↦ rw (read_positions, e, n) refl
  | inr (ps, (e, (rise, (len, le)))) ↦ rw (e) (read_gaps_or_bitmap (length c.idx) ps r rise len le)
]

width_split :
    (wide : Bool) (vs : List ℕ) (r : List ℕ)
    → (take (length vs * (if wide then 2 else 1)) (put_indices wide vs ++ r) ≡ put_indices wide vs)
      × (drop (length vs * (if wide then 2 else 1)) (put_indices wide vs ++ r) ≡ r)
width_split wide vs r =
    rw (sym (length-put_indices wide vs))
      (take-append_self (put_indices wide vs) r, drop-append_self (put_indices wide vs) r)

-- One round reads back one change.
read_change-put_change :
    (wide : Bool) (next : ℕ) (c : ChunkChange) (r : List ℕ)
    → next ≤ c.block
    → IsChange c
    → read_change (if wide then 2 else 1) next (put_change wide c ++ r) ≡ some (visit_of wide c, r)
unfolding read_change
read_change-put_change wide next c r lo v =
    rw
      (
        split,
        read_change,
        uvarint-put_uvarint c.block after_block (omega (arith, v.block_is)),
        le→ltb_false 255 c.block (omega (arith, v.block_is)),
        le→ltb_false c.block next lo,
        uvarint-put_uvarint (length c.idx) after_count (omega (arith, count_le)),
        le→ltb_false (length c.idx) 1 v.some_is,
        le→ltb_false 1024 (length c.idx) count_le,
        read_positions-put_positions c after_pos v,
        le→ltb_false (length after_pos) (length c.idx * (if wide then 2 else 1)) enough,
        (width_split wide c.idx r).0,
        (width_split wide c.idx r).1,
      )
      refl
  where
    after_pos : List ℕ
    after_pos = put_indices wide c.idx ++ r

    after_count : List ℕ
    after_count = put_positions (length c.idx) c.pos ++ after_pos

    after_block : List ℕ
    after_block = put_uvarint (length c.idx) ++ after_count

    split : put_change wide c ++ r ≡ put_uvarint c.block ++ after_block
    split =
        append_assoc (put_uvarint c.block)
          (put_uvarint (length c.idx)
            ++ (put_positions (length c.idx) c.pos ++ put_indices wide c.idx))
          r
        ∙ ap (λ t. put_uvarint c.block ++ t)
            (append_assoc (put_uvarint (length c.idx))
                (put_positions (length c.idx) c.pos ++ put_indices wide c.idx) r
              ∙ ap (λ t. put_uvarint (length c.idx) ++ t)
                  (append_assoc (put_positions (length c.idx) c.pos) (put_indices wide c.idx) r))

    count_le : length c.idx ≤ 1024
    count_le = elim v.pos_is [
      | inl e ↦ omega (arith, e.1)
      | inr (ps, (e, (rise, (len, le)))) ↦ omega (arith, le)
    ]

    enough : length c.idx * (if wide then 2 else 1) ≤ length after_pos
    enough = omega (arith, length-append (put_indices wide c.idx) r, length-put_indices wide c.idx)

-- A change takes at least one byte.
change_nonempty :
    (wide : Bool) (c : ChunkChange) (r : List ℕ) → length r < length (put_change wide c ++ r)
change_nonempty wide c r =
    let (b, (bs, e)) = put_uvarint_nonempty c.block in
    let after =
      put_uvarint (length c.idx)
      ++ (put_positions (length c.idx) c.pos ++ put_indices wide c.idx) in
    omega (
      arith,
      ap length e,
      length-append (put_uvarint c.block) after,
      length-append (put_change wide c) r,
    )

module _ {S : Type 0} (visit : Visit → S → Bool × S) where
  -- The visits one after the other, up to the first error.
  unfoldable pub visit_all : List Visit → S → Bool × S
  visit_all [] s = (true, s)
  visit_all (v ∷ vs) s =
      let (ok, s') = visit v s in let rest = visit_all vs s' in if ok then rest else (false, s')

  walk_step :
      (fuel width next c : ℕ) (bs p : List ℕ) (s : S) (v : Visit) (rest : List ℕ) (out : Bool × S)
      → p ≡ c ∷ bs
      → read_change width next p ≡ some (v, rest)
      → walk_from visit fuel width (suc v.block) rest (visit v s).1 ≡ out
      → walk_from visit (suc fuel) width next p s
        ≡ (if (visit v s).0 then out else (false, (visit v s).1))
  unfolding walk_from
  walk_step fuel width next c bs p s v rest out d e f = rw (d) (rw (walk_from, rw (d) at e, f) refl)

  walk_from-encode_delta :
      (wide : Bool) (cs : List ChunkChange) (fuel next : ℕ) (s : S)
      → IsSorted next cs
      → length (encode_delta wide cs) ≤ fuel
      → walk_from visit fuel (if wide then 2 else 1) next (encode_delta wide cs) s
        ≡ visit_all (map (visit_of wide) cs) s
  unfolding walk_from encode_delta visit_all
  walk_from-encode_delta wide [] fuel next s h k = refl
  walk_from-encode_delta wide (c ∷ cs) zero next s (lo, v, h) k =
      absurd (omega (arith, change_nonempty wide c (encode_delta wide cs)))
  walk_from-encode_delta wide (c ∷ cs) (suc fuel) next s (lo, v, h) k =
      let (b, (bs, e)) = put_uvarint_nonempty c.block in
      walk_step fuel (if wide then 2 else 1) next b _ (put_change wide c ++ encode_delta wide cs) s
        (visit_of wide c) (encode_delta wide cs) _
        (ap
          (λ t.
            (t
              ++ (put_uvarint (length c.idx)
                  ++ (put_positions (length c.idx) c.pos ++ put_indices wide c.idx)))
            ++ encode_delta wide cs)
          e)
        (read_change-put_change wide next c (encode_delta wide cs) lo v)
        (walk_from-encode_delta wide cs fuel (suc c.block) (visit (visit_of wide c) s).1 h
          (omega (arith, change_nonempty wide c (encode_delta wide cs))))

  -- For changes of blocks below 256 in rising order, each of all 1024 pixels of a chunk or of 1 to
  -- 1023 pixels at rising positions: `walkDelta` of the bytes that `encodeDelta` wrote visits exactly
  -- these changes, in order, up to the first error of the visitor.
  pub walk_delta-encode_delta :
      (wide : Bool) (cs : List ChunkChange) (s : S)
      → IsSorted 0 cs
      → walk_delta visit wide (encode_delta wide cs) s ≡ visit_all (map (visit_of wide) cs) s
  walk_delta-encode_delta wide cs s h =
      walk_from-encode_delta wide cs (length (encode_delta wide cs)) 0 s h (omega arith)
