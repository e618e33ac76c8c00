-- ===== src/Series/File/Intact.antt =====
-- `recover` of two files that are whole.
use time_shade_db.Prelude.{
  ℕ, suc, ◌+◌, ◌*◌, ◌/◌, ◌^◌, ◌-◌, ◌≤◌, ◌≡◌, refl, sym, ap, ◌∙◌, arith, le→leb, inl, inr, ◌⊎◌,
  subst, ==_iff,
}
use time_shade_db.Prelude.{
  true, false, none, some, List, [], ◌∷◌, ◌++◌, All, length, length-append, take-length, take_all,
  drop_all, append-nil, get_elem?, get_elem?-append_last,
}
use time_shade_db.Prelude.Int.{ℤ, pos}
use time_shade_db.Prelude.Words.{IsU32}
use time_shade_db.Memstore.Series.{LogRecord, t_end}
use time_shade_db.Series.Format.{Entry, entry_end, entry_t_end}
use time_shade_db.Series.File.{
  RecoveryReport, is_linked, linked_count, set_deltas, index_bytes, parse_entries, last_t,
}
use time_shade_db.Series.File.Records.{record_bytes}
use time_shade_db.Series.File.Recover.{
  check_record, drop_bad, recover, finish_recovery, scan, end_of,
}
use time_shade_db.Series.File.Layout.{
  IsStorable, IsOrdered, blk_bytes, blk_bytes-append, entries_at, entries_at-append, entry_at,
  length-entries_at, length-index_bytes, check_record-entry_at, length-record_bytes,
}
use time_shade_db.Series.File.Index.{parse_entries-take}
use time_shade_db.Series.File.Invariant.{entries_at-IsStored}
use time_shade_db.Series.File.Recovery.{scan_rest}

-- A list is empty or has a last element.
snoc-cases {ℓ} :
    {A : Type ℓ} (xs : List A) → (xs ≡ []) ⊎ ((ys : List A) × ((y : A) × (xs ≡ ys ++ (y ∷ []))))
snoc-cases [] = inl refl
snoc-cases (x ∷ xs) = inr (elim (snoc-cases xs) [
  | inl e ↦ ([], (x, ap (λ t. x ∷ t) e))
  | inr (ys, (y, e)) ↦ (x ∷ ys, (y, ap (λ t. x ∷ t) e))
])

All-last {ℓ} : {A : Type ℓ} (P : A → Type 0) (ys : List A) (y : A) → All P (ys ++ (y ∷ [])) → P y
All-last P [] y h = h.0
All-last P (x ∷ ys) y h = All-last P ys y h.1

-- What `recover` reports of files without a fault.
abbrev pub no_repair : RecoveryReport
no_repair = record { dropped_index = 0; rebuilt_index = 0; truncated_bytes = 0 }

module _ (crc : List ℕ → ℕ) (crc32 : (b : List ℕ) → IsU32 (crc b)) where
  -- The contiguity loop keeps every index record, when no effective time is negative.
  linked_count-entries_at :
      (off : ℕ) (t : ℤ) (rs : List LogRecord)
      → All IsStorable rs
      → IsOrdered (some t) rs
      → linked_count off t (entries_at crc crc32 off rs) ≡ length rs
  unfolding linked_count entries_at is_linked entry_t_end t_end
  linked_count-entries_at off t [] s o = refl
  linked_count-entries_at off t (r ∷ rs) (s, ss) (o, os) =
      let rest = linked_count-entries_at (off + 32 + length r.payload) (t_end r.meta) rs ss os in
      rw (linked_count, is_linked, (==_iff off off).1 refl, s.kind_is, o) (ap suc rest)

  -- The loop stops at an index record that points at a valid record.
  drop_bad_stops :
      (blk : List ℕ) (es : List Entry) (n : ℕ) (e : Entry)
      → get_elem? es n ≡ some e
      → entry_end e ≤ length blk
      → check_record crc blk e ≡ true
      → drop_bad crc blk es (suc n) ≡ suc n
  unfolding drop_bad
  drop_bad_stops blk es n e q h c = rw (drop_bad, q, le→leb (entry_end e) (length blk) h, c) refl

  -- The last record of a file, as it stands in the two files.
  drop_bad-snoc :
      (ys : List LogRecord) (r : LogRecord)
      → IsStorable r
      → drop_bad crc
          (blk_bytes crc crc32 (ys ++ (r ∷ [])))
          (entries_at crc crc32 0 (ys ++ (r ∷ [])))
          (length (ys ++ (r ∷ [])))
        ≡ length (ys ++ (r ∷ []))
  unfolding blk_bytes entries_at
  drop_bad-snoc ys r s = rw (count) (
      drop_bad_stops (blk_bytes crc crc32 (ys ++ (r ∷ [])))
        (entries_at crc crc32 0 (ys ++ (r ∷ []))) (length ys)
        (entry_at crc crc32 (0 + length (blk_bytes crc crc32 ys)) 0 r) last within sound)
    where
      count : length (ys ++ (r ∷ [])) ≡ suc (length ys)
      count = omega (arith, length-append ys (r ∷ []))

      bytes :
          blk_bytes crc crc32 (ys ++ (r ∷ []))
          ≡ blk_bytes crc crc32 ys ++ (record_bytes crc r ++ [])
      bytes = blk_bytes-append crc crc32 ys (r ∷ [])

      last :
          get_elem? (entries_at crc crc32 0 (ys ++ (r ∷ []))) (length ys)
          ≡ some (entry_at crc crc32 (0 + length (blk_bytes crc crc32 ys)) 0 r)
      last =
          ap (λ es. get_elem? es (length ys)) (entries_at-append crc crc32 0 ys (r ∷ []))
          ∙ ap
              (λ n.
                get_elem?
                  (entries_at crc crc32 0 ys
                    ++ (entry_at crc crc32 (0 + length (blk_bytes crc crc32 ys)) 0 r ∷ []))
                  n)
              (sym (length-entries_at crc crc32 0 ys))
          ∙ get_elem?-append_last (entries_at crc crc32 0 ys) _

      within :
          0 + length (blk_bytes crc crc32 ys) + 32 + length r.payload
          ≤ length (blk_bytes crc crc32 (ys ++ (r ∷ [])))
      within = omega (
        arith,
        ap length bytes,
        length-append (blk_bytes crc crc32 ys) (record_bytes crc r ++ []),
        ap length (append-nil (record_bytes crc r)),
        length-record_bytes crc crc32 r,
      )

      sound :
          check_record crc
            (blk_bytes crc crc32 (ys ++ (r ∷ [])))
            (entry_at crc crc32 (0 + length (blk_bytes crc crc32 ys)) 0 r)
          ≡ true
      sound =
          rw (bytes)
            (check_record-entry_at crc crc32 (blk_bytes crc crc32 ys) [] _ 0 r (omega arith) s)

  -- No index record of a whole file is dropped.
  drop_bad-whole :
      (rs : List LogRecord)
      → All IsStorable rs
      → drop_bad crc (blk_bytes crc crc32 rs) (entries_at crc crc32 0 rs) (length rs) ≡ length rs
  unfolding drop_bad
  drop_bad-whole rs s = elim (snoc-cases rs) [
    | inl e ↦ rw (e) refl
    | inr (ys, (r, e)) ↦
        rw (e) (drop_bad-snoc ys r (All-last IsStorable ys r (subst (All IsStorable) e s)))
  ]

  -- The scan finds nothing behind the indexed records.
  scan-nothing :
      (rs : List LogRecord)
      → All IsStorable rs
      → IsOrdered none rs
      → (let kept = entries_at crc crc32 0 rs in
          scan crc
            (length (blk_bytes crc crc32 rs))
            (blk_bytes crc crc32 rs)
            (last_t kept)
            (end_of kept))
        ≡ ([], length (blk_bytes crc crc32 rs))
  unfolding entries_at
  scan-nothing rs s o =
      rw
        (append-nil (blk_bytes crc crc32 rs), take-length rs, drop_all (length rs) rs (omega arith))
        at (scan_rest crc crc32 (length rs) rs [] s o (inl refl))

  -- The end of `recover`, when there is nothing to repair.
  finish_recovery-whole :
      (blk raw : List ℕ) (es : List Entry) (n : ℕ)
      → length es ≡ n
      → length raw ≡ n * 24
      → finish_recovery blk raw n es [] (length blk) ≡ (
        record {
          opened = true;
          blk = blk;
          idx = raw;
          entries = set_deltas 0 es;
          size = length blk;
          written = n;
          dirty = false;
        },
        no_repair,
      )
  unfolding finish_recovery
  finish_recovery-whole blk raw es n e h =
      let count : length raw / 24 - n ≡ 0 = omega arith in
      let cut : length blk - length blk ≡ 0 = omega arith in
      rw
        (
          finish_recovery,
          (==_iff (length blk) (length blk)).1 refl,
          count,
          cut,
          take-length blk,
          take_all (n * 24) raw (omega arith),
          append-nil es,
        )
        refl

  -- `recover` of files that are whole finds nothing to repair.
  pub recover-whole :
      (rs : List LogRecord)
      → All IsStorable rs
      → IsOrdered none rs
      → IsOrdered (some (pos 0)) rs
      → length (blk_bytes crc crc32 rs) ≤ 2 ^ 48
      → recover crc (blk_bytes crc crc32 rs) (index_bytes (entries_at crc crc32 0 rs)) ≡ (
        record {
          opened = true;
          blk = blk_bytes crc crc32 rs;
          idx = index_bytes (entries_at crc crc32 0 rs);
          entries = set_deltas 0 (entries_at crc crc32 0 rs);
          size = length (blk_bytes crc crc32 rs);
          written = length rs;
          dirty = false;
        },
        no_repair,
      )
  unfolding recover
  recover-whole rs s o positive fits =
      rw
        (
          recover,
          count,
          parsed,
          kept,
          take_all (length rs) (entries_at crc crc32 0 rs)
              (omega (arith, length-entries_at crc crc32 0 rs)),
          scan-nothing rs s o,
        )
        (finish_recovery-whole _ _ (entries_at crc crc32 0 rs) (length rs)
          (length-entries_at crc crc32 0 rs)
          (omega (
            arith,
            length-index_bytes (entries_at crc crc32 0 rs),
            length-entries_at crc crc32 0 rs,
          )))
    where
      count : length (index_bytes (entries_at crc crc32 0 rs)) / 24 ≡ length rs
      count =
          omega (
            arith,
            length-index_bytes (entries_at crc crc32 0 rs),
            length-entries_at crc crc32 0 rs,
          )

      parsed :
          parse_entries (length rs) (index_bytes (entries_at crc crc32 0 rs))
          ≡ entries_at crc crc32 0 rs
      parsed =
          ap (parse_entries (length rs))
            (sym (take-length (index_bytes (entries_at crc crc32 0 rs))))
          ∙ parse_entries-take (length rs) _ (entries_at crc crc32 0 rs)
              (entries_at-IsStored crc crc32 0 rs (omega (arith, fits)) s)
              (omega (
                arith,
                length-index_bytes (entries_at crc crc32 0 rs),
                length-entries_at crc crc32 0 rs,
              ))
              (omega (arith, length-entries_at crc crc32 0 rs))
          ∙ take_all (length rs) (entries_at crc crc32 0 rs)
              (omega (arith, length-entries_at crc crc32 0 rs))

      kept :
          drop_bad crc
            (blk_bytes crc crc32 rs)
            (entries_at crc crc32 0 rs)
            (linked_count 0 (pos 0) (entries_at crc crc32 0 rs))
          ≡ length rs
      kept =
          ap (drop_bad crc (blk_bytes crc crc32 rs) (entries_at crc crc32 0 rs))
            (linked_count-entries_at 0 (pos 0) rs s positive)
          ∙ drop_bad-whole rs s
