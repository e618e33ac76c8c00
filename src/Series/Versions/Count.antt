-- ===== src/Series/Versions/Count.antt =====
-- Which record a version stands for.
use time_shade_db.Prelude.{
  ℕ, suc, ◌+◌, ◌^◌, ◌≤◌, ◌<◌, ◌≡◌, refl, sym, ap, ◌∙◌, arith, ltb, ◌==◌, if◌then◌else◌, lt→ltb,
  le→ltb_false, inl, inr, Bool-cases,
}
use time_shade_db.Prelude.{Bool, true, false, none, some, List, [], ◌∷◌, length, take, get_elem?}
use time_shade_db.Prelude.Words.{IsU32}
use time_shade_db.Memstore.Series.{LogRecord, record_delta}
use time_shade_db.Series.Format.{Entry}
use time_shade_db.Series.File.{LogFile, set_deltas, count_delta}
use time_shade_db.Series.File.Layout.{entries_at}
use time_shade_db.Series.File.Invariant.{IsFile, length-entries}
use time_shade_db.Series.Versions.{search_deltas, version_seq}

-- The number of delta records.
unfoldable pub delta_count : List LogRecord → ℕ
delta_count [] = 0
delta_count (r ∷ rs) =
    let rest = delta_count rs in if r.meta.kind == record_delta then suc rest else rest

unfoldable pub is_delta_at : ℕ → List LogRecord → Bool
is_delta_at i rs = elim (get_elem? rs i) [ none ↦ false | some r ↦ r.meta.kind == record_delta ]

-- Entry i stands for version v: it is a delta record, behind v - 1 others, where n stand before
-- the list.
pub record IsVersion (v n i : ℕ) (rs : List LogRecord) : Type 0 where
  pub is_delta : is_delta_at i rs ≡ true
  pub count : n + delta_count (take i rs) + 1 ≡ v
  pub within : i < length rs

IsVersion-here :
    (v n : ℕ) (r : LogRecord) (rs : List LogRecord)
    → (r.meta.kind == record_delta) ≡ true
    → n + 1 ≡ v
    → IsVersion v n 0 (r ∷ rs)
unfolding is_delta_at delta_count
IsVersion-here v n r rs d e = record { is_delta = d; count = omega arith; within = omega arith }

IsVersion-next_delta :
    (v n i : ℕ) (r : LogRecord) (rs : List LogRecord)
    → (r.meta.kind == record_delta) ≡ true
    → IsVersion v (suc n) i rs
    → IsVersion v n (suc i) (r ∷ rs)
unfolding is_delta_at delta_count
IsVersion-next_delta v n i r rs d w = record {
  is_delta = w.is_delta;
  count = rw (d) (omega (arith, w.count));
  within = omega (arith, w.within);
}

IsVersion-next_other :
    (v n i : ℕ) (r : LogRecord) (rs : List LogRecord)
    → (r.meta.kind == record_delta) ≡ false
    → IsVersion v n i rs
    → IsVersion v n (suc i) (r ∷ rs)
unfolding is_delta_at delta_count
IsVersion-next_other v n i r rs d w = record {
  is_delta = w.is_delta;
  count = rw (d) (omega (arith, w.count));
  within = omega (arith, w.within);
}

version_seq_found :
    (v i : ℕ) (es : List Entry)
    → search_deltas v es ≡ i
    → 1 ≤ v
    → i < length es
    → version_seq v es ≡ some i
unfolding version_seq
version_seq_found v i es e h k = rw (version_seq, e) (ground arith)

version_seq_past :
    (v : ℕ) (es : List Entry) → search_deltas v es ≡ length es → version_seq v es ≡ none
unfolding version_seq
version_seq_past v es e = rw (version_seq, e) (ground arith)

module _ (crc : List ℕ → ℕ) (crc32 : (b : List ℕ) → IsU32 (crc b)) where
  abbrev entries_from : ℕ → ℕ → List LogRecord → List Entry
  entries_from n off rs = set_deltas n (entries_at crc crc32 off rs)

  search_step :
      (v n n' off : ℕ) (r : LogRecord) (rs : List LogRecord)
      → count_delta r.meta.kind n ≡ n'
      → search_deltas v (entries_from n off (r ∷ rs)) ≡ (
          if ltb n' v
          then suc (search_deltas v (entries_from n' (off + 32 + length r.payload) rs))
          else 0)
  unfolding search_deltas set_deltas entries_at
  search_step v n n' off r rs e = rw (search_deltas, set_deltas, e) refl

  search_next :
      (v n n' off : ℕ) (r : LogRecord) (rs : List LogRecord)
      → count_delta r.meta.kind n ≡ n'
      → n' < v
      → search_deltas v (entries_from n off (r ∷ rs))
        ≡ suc (search_deltas v (entries_from n' (off + 32 + length r.payload) rs))
  search_next v n n' off r rs e h =
      search_step v n n' off r rs e
      ∙ ap
          (λ b.
            if b
            then suc (search_deltas v (entries_from n' (off + 32 + length r.payload) rs))
            else 0)
          (lt→ltb n' v h)

  search_stop :
      (v n n' off : ℕ) (r : LogRecord) (rs : List LogRecord)
      → count_delta r.meta.kind n ≡ n'
      → v ≤ n'
      → search_deltas v (entries_from n off (r ∷ rs)) ≡ 0
  search_stop v n n' off r rs e h =
      search_step v n n' off r rs e
      ∙ ap
          (λ b.
            if b
            then suc (search_deltas v (entries_from n' (off + 32 + length r.payload) rs))
            else 0)
          (le→ltb_false n' v h)

  -- The counts after a record.
  count_delta-true :
      (n : ℕ) (r : LogRecord)
      → (r.meta.kind == record_delta) ≡ true
      → suc n < 2 ^ 32
      → count_delta r.meta.kind n ≡ suc n
  unfolding count_delta
  count_delta-true n r d h = rw (count_delta, d) (omega arith)

  count_delta-false :
      (n : ℕ) (r : LogRecord)
      → (r.meta.kind == record_delta) ≡ false
      → count_delta r.meta.kind n ≡ n
  unfolding count_delta
  count_delta-false n r d = rw (count_delta, d) refl

  -- The search finds the version.
  search_deltas-IsVersion :
      (v n off : ℕ) (rs : List LogRecord)
      → n < v
      → v ≤ n + delta_count rs
      → n + delta_count rs < 2 ^ 32
      → IsVersion v n (search_deltas v (entries_from n off rs)) rs
  unfolding delta_count
  search_deltas-IsVersion v n off [] h k l = absurd (omega arith)
  search_deltas-IsVersion v n off (r ∷ rs) h k l = elim (Bool-cases (r.meta.kind == record_delta)) [
    | inl d ↦
        let k' : v ≤ suc n + delta_count rs = omega (arith, rw (d) at k) in
        let l' : suc n + delta_count rs < 2 ^ 32 = omega (arith, rw (d) at l) in
        let counted = count_delta-true n r d (omega arith) in
        elim (Bool-cases (ltb (suc n) v)) [
          | inl c ↦ rw (search_next v n (suc n) off r rs counted (ground arith)) (
              IsVersion-next_delta v n _ r rs d (
                search_deltas-IsVersion v (suc n) (off + 32 + length r.payload) rs (ground arith) k'
                  l'))
          | inr c ↦
              rw (search_stop v n (suc n) off r rs counted (ground arith))
                (IsVersion-here v n r rs d (ground arith))
        ]
    | inr d ↦ rw (search_next v n n off r rs (count_delta-false n r d) h) (
        IsVersion-next_other v n _ r rs d (
          search_deltas-IsVersion v n (off + 32 + length r.payload) rs h
            (omega (arith, rw (d) at k)) (omega (arith, rw (d) at l))))
  ]

  search_beyond :
      (v n off : ℕ) (rs : List LogRecord)
      → n + delta_count rs < v
      → n + delta_count rs < 2 ^ 32
      → search_deltas v (entries_from n off rs) ≡ length rs
  unfolding search_deltas set_deltas entries_at delta_count
  search_beyond v n off [] h l = refl
  search_beyond v n off (r ∷ rs) h l = elim (Bool-cases (r.meta.kind == record_delta)) [
    | inl d ↦
        let h' : suc n + delta_count rs < v = omega (arith, rw (d) at h) in
        let l' : suc n + delta_count rs < 2 ^ 32 = omega (arith, rw (d) at l) in
        search_next v n (suc n) off r rs (count_delta-true n r d (omega arith)) (omega arith)
        ∙ ap suc (search_beyond v (suc n) (off + 32 + length r.payload) rs h' l')
    | inr d ↦
        let h' : n + delta_count rs < v = omega (arith, rw (d) at h) in
        let l' : n + delta_count rs < 2 ^ 32 = omega (arith, rw (d) at l) in
        search_next v n n off r rs (count_delta-false n r d) (omega arith)
        ∙ ap suc (search_beyond v n (off + 32 + length r.payload) rs h' l')
  ]

  -- For an open file with fewer than 2^32 delta records and a version from 1 to their number:
  -- `VersionSeq` finds the delta record behind v - 1 others.
  pub version_seq-IsVersion :
      (f : LogFile) (recs : List LogRecord) (v : ℕ)
      → IsFile crc crc32 f recs
      → delta_count recs < 2 ^ 32
      → 1 ≤ v
      → v ≤ delta_count recs
      → (i : ℕ) × ((version_seq v f.entries ≡ some i) × IsVersion v 0 i recs)
  unfolding version_seq
  version_seq-IsVersion f recs v w l h k =
      let found = search_deltas-IsVersion v 0 0 recs h (omega arith) (omega arith) in
      (
        search_deltas v (entries_from 0 0 recs),
        (
          version_seq_found v _ f.entries (ap (search_deltas v) w.entries_are) h
              (omega (arith, length-entries crc crc32 f recs w, found.within)),
          found,
        ),
      )

  -- There is no record for other versions.
  pub version_seq-none :
      (f : LogFile) (recs : List LogRecord) (v : ℕ)
      → IsFile crc crc32 f recs
      → delta_count recs < 2 ^ 32
      → delta_count recs < v
      → version_seq v f.entries ≡ none
  unfolding version_seq
  version_seq-none f recs v w l h =
      let beyond : search_deltas v f.entries ≡ length f.entries =
        ap (search_deltas v) w.entries_are
        ∙ search_beyond v 0 0 recs (omega arith) (omega arith)
        ∙ sym (length-entries crc crc32 f recs w) in
      version_seq_past v f.entries beyond
