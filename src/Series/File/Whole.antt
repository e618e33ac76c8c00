-- ===== src/Series/File/Whole.antt =====
-- The records of a .blk file that stand whole in the first bytes of it.
use time_shade_db.Prelude.{
  ℕ, zero, suc, ◌+◌, ◌-◌, ◌≤◌, ◌<◌, ◌≡◌, refl, sym, ap, ◌∙◌, arith, leb, if◌then◌else◌, inl, inr,
  Bool-cases,
}
use time_shade_db.Prelude.{
  Option, none, some, List, [], ◌∷◌, ◌++◌, All, length, length-append, take, drop, take-append_le,
  take-append_past, append_assoc, get_elem?,
}
use mathlib.Core.Option.{none-ne-some}
use time_shade_db.Prelude.Int.{ℤ}
use time_shade_db.Prelude.Words.{IsU32}
use time_shade_db.Memstore.Series.{LogRecord, t_end}
use time_shade_db.Series.Format.{Entry, entry_t_end, entry_end}
use time_shade_db.Series.File.Records.{record_bytes}
use time_shade_db.Series.File.{last_t}
use time_shade_db.Series.File.Recover.{end_of}
use time_shade_db.Series.File.Layout.{
  IsStorable, IsOrdered, length-record_bytes, entry_at, blk_bytes, entries_at,
}
use time_shade_db.Series.File.Scan.{IsTail}

-- The records from the front whose bytes are among the first k.
unfoldable pub whole_records : ℕ → List LogRecord → List LogRecord
whole_records k [] = []
whole_records k (r ∷ rs) =
    let rest = whole_records (k - (32 + length r.payload)) rs in
    if leb (32 + length r.payload) k then r ∷ rest else []

whole_records_zero : (rs : List LogRecord) → whole_records 0 rs ≡ []
unfolding whole_records
whole_records_zero [] = refl
whole_records_zero (r ∷ rs) = ground arith

pub whole_records-IsStorable :
    (k : ℕ) (rs : List LogRecord) → All IsStorable rs → All IsStorable (whole_records k rs)
unfolding whole_records
whole_records-IsStorable k [] s = tt
whole_records-IsStorable k (r ∷ rs) (s, ss) = elim (Bool-cases (leb (32 + length r.payload) k)) [
  | inl e ↦ rw (e) (s, whole_records-IsStorable (k - (32 + length r.payload)) rs ss)
  | inr e ↦ rw (e) tt
]

pub whole_records-IsOrdered :
    (k : ℕ) (last : Option ℤ) (rs : List LogRecord)
    → IsOrdered last rs
    → IsOrdered last (whole_records k rs)
unfolding whole_records
whole_records-IsOrdered k last [] o = tt
whole_records-IsOrdered k last (r ∷ rs) (o, os) =
    elim (Bool-cases (leb (32 + length r.payload) k)) [
      | inl e ↦
          rw (e)
            (o, whole_records-IsOrdered (k - (32 + length r.payload)) (some (t_end r.meta)) rs os)
      | inr e ↦ rw (e) tt
    ]

-- They are the first records.
pub take-whole_records :
    (n k : ℕ) (rs : List LogRecord)
    → n ≤ length (whole_records k rs)
    → take n rs ≡ take n (whole_records k rs)
unfolding whole_records
take-whole_records zero k rs h = refl
take-whole_records (suc n) k [] h = refl
take-whole_records (suc n) k (r ∷ rs) h = elim (Bool-cases (leb (32 + length r.payload) k)) [
  | inl e ↦ rw (e) (
      ap (λ t. r ∷ t)
        (take-whole_records n (k - (32 + length r.payload)) rs (omega (arith, rw (e) at h))))
  | inr e ↦ absurd (omega (arith, rw (e) at h))
]

module _ (crc : List ℕ → ℕ) (crc32 : (b : List ℕ) → IsU32 (crc b)) where
  -- The first bytes of a file are the records that are whole in them and a torn one, if any.
  pub record IsTornAt (k : ℕ) (rs : List LogRecord) : Type 0 where
    pub tail : List ℕ
    pub tail_is : IsTail crc crc32 tail
    pub bytes_are :
        take k (blk_bytes crc crc32 rs) ≡ blk_bytes crc crc32 (whole_records k rs) ++ tail

  pub take-blk_bytes : (k : ℕ) (rs : List LogRecord) → All IsStorable rs → IsTornAt k rs
  unfolding whole_records blk_bytes
  take-blk_bytes zero [] s = record { tail = []; tail_is = inl refl; bytes_are = refl }
  take-blk_bytes (suc k) [] s = record { tail = []; tail_is = inl refl; bytes_are = refl }
  take-blk_bytes k (r ∷ rs) (s, ss) = elim (Bool-cases (leb (32 + length r.payload) k)) [
    | inl e ↦
        let below = take-blk_bytes (k - (32 + length r.payload)) rs ss in
        record {
          tail = below.tail;
          tail_is = below.tail_is;
          bytes_are = rw (e) (
              take-append_past k (k - (32 + length r.payload)) (record_bytes crc r)
                (blk_bytes crc crc32 rs) (ground (arith, length-record_bytes crc crc32 r))
              ∙ ap (λ t. record_bytes crc r ++ t) below.bytes_are
              ∙ sym (
                  append_assoc (record_bytes crc r)
                    (blk_bytes crc crc32 (whole_records (k - (32 + length r.payload)) rs))
                    below.tail));
        }
    | inr e ↦ record {
      tail = take k (record_bytes crc r);
      tail_is = inr (record {
        next = r;
        storable = s;
        cut = k;
        short = ground (arith, length-record_bytes crc crc32 r);
        tail_is = refl;
      });
      bytes_are = rw (e) (
          take-append_le k (record_bytes crc r) (blk_bytes crc crc32 rs)
            (ground (arith, length-record_bytes crc crc32 r)));
    }
  ]

  abbrev option_end : Option Entry → ℕ
  option_end none = 0
  option_end (some e) = entry_end e

  -- The entry of a record that is not whole ends beyond them.
  pub entries_at-beyond :
      (k off i : ℕ) (rs : List LogRecord) (e : Entry)
      → length (whole_records k rs) ≤ i
      → get_elem? (entries_at crc crc32 off rs) i ≡ some e
      → off + k < entry_end e
  unfolding whole_records entries_at
  entries_at-beyond k off i [] e h q = absurd (none-ne-some e q)
  entries_at-beyond k off zero (r ∷ rs) e h q = elim (Bool-cases (leb (32 + length r.payload) k)) [
    | inl c ↦ absurd (omega (arith, rw (c) at h))
    | inr c ↦ let ends : off + 32 + length r.payload ≡ entry_end e = ap option_end q in ground arith
  ]
  entries_at-beyond k off (suc i) (r ∷ rs) e h q =
      elim (Bool-cases (leb (32 + length r.payload) k)) [
        | inl c ↦
            let below =
              entries_at-beyond (k - (32 + length r.payload)) (off + 32 + length r.payload) i rs e
                (omega (arith, rw (c) at h)) q in
            ground arith
        | inr c ↦
            let below =
              entries_at-beyond 0 (off + 32 + length r.payload) i rs e
                (rw (whole_records_zero rs) (omega arith)) q in
            ground arith
      ]

  pub take-entries_at :
      (n off : ℕ) (rs : List LogRecord)
      → take n (entries_at crc crc32 off rs) ≡ entries_at crc crc32 off (take n rs)
  unfolding entries_at
  take-entries_at zero off rs = refl
  take-entries_at (suc n) off [] = refl
  take-entries_at (suc n) off (r ∷ rs) =
      ap (λ t. entry_at crc crc32 off 0 r ∷ t) (take-entries_at n (off + 32 + length r.payload) rs)

  pub end_of-entries_at :
      (off : ℕ) (r : LogRecord) (rs : List LogRecord)
      → end_of (entries_at crc crc32 off (r ∷ rs)) ≡ off + length (blk_bytes crc crc32 (r ∷ rs))
  unfolding entries_at blk_bytes
  end_of-entries_at off r [] =
      omega (arith, length-append (record_bytes crc r) [], length-record_bytes crc crc32 r)
  end_of-entries_at off r (q ∷ rs) = omega (
    arith,
    end_of-entries_at (off + 32 + length r.payload) q rs,
    length-append (record_bytes crc r) (blk_bytes crc crc32 (q ∷ rs)),
    length-record_bytes crc crc32 r,
  )

  pub IsOrdered-drop :
      (n off : ℕ) (rs : List LogRecord)
      → IsOrdered none rs
      → IsOrdered (last_t (entries_at crc crc32 off (take n rs))) (drop n rs)
  unfolding entries_at entry_t_end t_end
  IsOrdered-drop zero off rs o = o
  IsOrdered-drop (suc n) off [] o = tt
  IsOrdered-drop (suc zero) off (r ∷ rs) (o, os) = os
  IsOrdered-drop (suc (suc n)) off (r ∷ []) (o, os) = tt
  IsOrdered-drop (suc (suc n)) off (r ∷ q ∷ rs) (o, (p, os)) =
      IsOrdered-drop (suc n) (off + 32 + length r.payload) (q ∷ rs) (refl, os)
