-- ===== src/Series/File/Recovery.antt =====
-- `recover` after a crash that left only the first bytes of each of the two files.
use time_shade_db.Prelude.{
  ℕ, ◌*◌, ◌/◌, ◌^◌, ◌≤◌, ◌≡◌, refl, sym, ap, ◌∙◌, subst, arith, if◌then◌else◌,
}
use time_shade_db.Prelude.{
  Bool, true, false, none, List, [], ◌∷◌, ◌++◌, All, length, length-append, length-drop,
  length-take, take, drop, take-append_self, take-take, take_and_drop, append_assoc, get_elem?-take,
  All-take, All-drop,
}
use time_shade_db.Prelude.Int.{pos}
use time_shade_db.Prelude.Words.{IsU32}
use time_shade_db.Memstore.Series.{LogRecord}
use time_shade_db.Series.Format.{Entry}
use time_shade_db.Series.File.{
  LogFile, set_deltas, index_bytes, write_index, parse_entries, linked_count, last_t,
}
use time_shade_db.Series.File.Records.{record_bytes}
use time_shade_db.Series.File.Recover.{
  drop_bad, scan, recovered_file, finish_recovery, recover, end_of,
}
use time_shade_db.Series.File.Layout.{
  IsStorable, IsOrdered, length-record_bytes, blk_bytes, blk_bytes-append, entries_at,
  entries_at-append, length-index_bytes,
}
use time_shade_db.Series.File.Scan.{IsTail, scan-records}
use time_shade_db.Series.File.Whole.{
  whole_records, whole_records-IsStorable, whole_records-IsOrdered, take-whole_records, IsTornAt,
  take-blk_bytes, entries_at-beyond, take-entries_at, end_of-entries_at, IsOrdered-drop,
}
use time_shade_db.Series.File.Index.{
  IsStored, parse_entries-take, linked_count_le, drop_bad_le, drop_bad_within,
}
use time_shade_db.Series.File.Invariant.{
  IsFile, take-index_bytes, entries_at-IsStored, write_index-IsFile,
}

-- How many index records are whole in the front of an index file.
whole_index_le :
    (w j : ℕ) (es : List Entry)
    → (let raw = take j (index_bytes (take w es)) in
        (length raw / 24 * 24 ≤ j) × (length raw / 24 ≤ length (take w es)))
whole_index_le w j es =
    let len = length-take j (index_bytes (take w es)) in
    let all = length-index_bytes (take w es) in (omega arith, omega arith)

-- They are read back.
parse_entries-front :
    (w j : ℕ) (es : List Entry) (raw : List ℕ)
    → raw ≡ take j (index_bytes (take w es))
    → All IsStored es
    → parse_entries (length raw / 24) raw ≡ take (length raw / 24) es
parse_entries-front w j es raw e s =
    let n0 = length (take j (index_bytes (take w es))) / 24 in
    let le = whole_index_le w j es in
    rw (e) (
      parse_entries-take n0 j (take w es) (All-take IsStored w es s) le.0 le.1
      ∙ take-take n0 w es (omega (arith, le.1, length-take w es)))

-- What stays in the index file when n of them are kept.
take-front :
    (n w j : ℕ) (es : List Entry) (raw : List ℕ)
    → raw ≡ take j (index_bytes (take w es))
    → n ≤ length raw / 24
    → take (n * 24) raw ≡ index_bytes (take n es)
take-front n w j es raw e h =
    let h' : n ≤ length (take j (index_bytes (take w es))) / 24 =
      subst (λ r. n ≤ length r / 24) e h in
    let le = whole_index_le w j es in
    rw (e) (
      take-take (n * 24) j (index_bytes (take w es)) (omega (arith, le.0))
      ∙ take-index_bytes n (take w es) (omega (arith, le.1))
      ∙ ap index_bytes (take-take n w es (omega (arith, le.1, length-take w es))))

module _ (crc : List ℕ → ℕ) (crc32 : (b : List ℕ) → IsU32 (crc b)) where
  count_le : (rs : List LogRecord) → length rs ≤ length (blk_bytes crc crc32 rs)
  unfolding blk_bytes
  count_le [] = omega arith
  count_le (r ∷ rs) = omega (
    arith,
    count_le rs,
    length-append (record_bytes crc r) (blk_bytes crc crc32 rs),
    length-record_bytes crc crc32 r,
  )

  end_of-front :
      (rs : List LogRecord) → end_of (entries_at crc crc32 0 rs) ≡ length (blk_bytes crc crc32 rs)
  unfolding entries_at blk_bytes
  end_of-front [] = refl
  end_of-front (r ∷ rs) = omega (arith, end_of-entries_at crc crc32 0 r rs)

  -- The scan from the end of the first n records finds the others.
  pub scan_rest :
      (n : ℕ) (xs : List LogRecord) (tail : List ℕ)
      → All IsStorable xs
      → IsOrdered none xs
      → IsTail crc crc32 tail
      → (let kept = entries_at crc crc32 0 (take n xs) in
          let blk = blk_bytes crc crc32 xs ++ tail in
          scan crc (length blk) blk (last_t kept) (end_of kept))
        ≡ (
          entries_at crc crc32 (length (blk_bytes crc crc32 (take n xs))) (drop n xs),
          length (blk_bytes crc crc32 xs),
        )
  scan_rest n xs tail s o t = rw (end_of-front (take n xs)) (
      scan-records crc crc32 (drop n xs) (length (blk_bytes crc crc32 xs ++ tail))
        (blk_bytes crc crc32 (take n xs)) tail (blk_bytes crc crc32 xs ++ tail)
        (last_t (entries_at crc crc32 0 (take n xs))) (length (blk_bytes crc crc32 (take n xs)))
        (ap (λ b. b ++ tail) whole
          ∙ append_assoc (blk_bytes crc crc32 (take n xs)) (blk_bytes crc crc32 (drop n xs)) tail)
        refl (All-drop IsStorable n xs s) (IsOrdered-drop crc crc32 n 0 xs o) t
        (omega (arith, count_le xs, length-drop n xs, length-append (blk_bytes crc crc32 xs) tail))
      ∙ ap (λ m. (entries_at crc crc32 (length (blk_bytes crc crc32 (take n xs))) (drop n xs), m))
          (sym (
            ap length whole
            ∙ length-append (blk_bytes crc crc32 (take n xs)) (blk_bytes crc crc32 (drop n xs)))))
    where
      whole :
          blk_bytes crc crc32 xs
          ≡ blk_bytes crc crc32 (take n xs) ++ blk_bytes crc crc32 (drop n xs)
      whole =
          ap (blk_bytes crc crc32) (sym (take_and_drop n xs))
          ∙ blk_bytes-append crc crc32 (take n xs) (drop n xs)

  -- The entries of the first n records and of the others, one behind the other.
  entries_whole :
      (n : ℕ) (xs : List LogRecord)
      → entries_at crc crc32 0 (take n xs)
          ++ entries_at crc crc32 (length (blk_bytes crc crc32 (take n xs))) (drop n xs)
        ≡ entries_at crc crc32 0 xs
  entries_whole n xs =
      ap (λ o. entries_at crc crc32 0 (take n xs) ++ entries_at crc crc32 o (drop n xs))
        (omega arith)
      ∙ sym (entries_at-append crc crc32 0 (take n xs) (drop n xs))
      ∙ ap (entries_at crc crc32 0) (take_and_drop n xs)

  if-IsFile :
      (c : Bool) (f g : LogFile) (xs : List LogRecord)
      → IsFile crc crc32 f xs
      → IsFile crc crc32 g xs
      → IsFile crc crc32 (if c then f else g) xs
  if-IsFile true f g xs a b = a
  if-IsFile false f g xs a b = b

  finish_recovery-IsFile :
      (n : ℕ) (xs : List LogRecord) (tail raw : List ℕ)
      → n ≤ length xs
      → take (n * 24) raw ≡ index_bytes (entries_at crc crc32 0 (take n xs))
      → All IsStorable xs
      → IsOrdered none xs
      → length (blk_bytes crc crc32 xs) ≤ 2 ^ 48
      → IsFile crc crc32
          (finish_recovery
            (blk_bytes crc crc32 xs ++ tail)
            raw
            n
            (entries_at crc crc32 0 (take n xs))
            (entries_at crc crc32 (length (blk_bytes crc crc32 (take n xs))) (drop n xs))
            (length (blk_bytes crc crc32 xs))).0
          xs
  unfolding finish_recovery
  finish_recovery-IsFile n xs tail raw c e s o fits =
      if-IsFile _ _ (write_index _) xs opened (write_index-IsFile crc crc32 _ xs opened)
    where
      opened :
          IsFile crc crc32
            (recovered_file
              (blk_bytes crc crc32 xs ++ tail)
              raw
              n
              (entries_at crc crc32 0 (take n xs))
              (entries_at crc crc32 (length (blk_bytes crc crc32 (take n xs))) (drop n xs))
              (length (blk_bytes crc crc32 xs)))
            xs
      opened = record {
        open_is = refl;
        blk_is = take-append_self (blk_bytes crc crc32 xs) tail;
        size_is = refl;
        entries_are = ap (set_deltas 0) (entries_whole n xs);
        written_is = c;
        idx_is = e;
        storable = s;
        ordered = o;
        fits = fits;
      }

  -- What `recover` makes of files that hold the records xs and a torn one, where the index
  -- describes the first n of them.
  recover_from :
      (n : ℕ) (xs : List LogRecord) (tail raw : List ℕ) (parsed : List Entry)
      → parse_entries (length raw / 24) raw ≡ parsed
      → drop_bad crc (blk_bytes crc crc32 xs ++ tail) parsed (linked_count 0 (pos 0) parsed) ≡ n
      → n ≤ length xs
      → take n parsed ≡ entries_at crc crc32 0 (take n xs)
      → take (n * 24) raw ≡ index_bytes (entries_at crc crc32 0 (take n xs))
      → All IsStorable xs
      → IsOrdered none xs
      → length (blk_bytes crc crc32 xs) ≤ 2 ^ 48
      → IsTail crc crc32 tail
      → IsFile crc crc32 (recover crc (blk_bytes crc crc32 xs ++ tail) raw).0 xs
  unfolding recover
  recover_from n xs tail raw parsed a b c d e s o fits t =
      rw (recover, a, b, d, scan_rest n xs tail s o t)
        (finish_recovery-IsFile n xs tail raw c e s o fits)

  -- For a checksum with values below 2^32 and an open file that holds some records in .blk, with
  -- the index records of the first of them in .idx: `recover` on any first bytes of .blk and any
  -- first bytes of .idx gives an open file that holds exactly those of the records that are whole
  -- in what is left of .blk, with their entries in order, its size and its index file in step with
  -- them.
  pub recover-IsFile :
      (f : LogFile) (recs : List LogRecord) (k j : ℕ)
      → IsFile crc crc32 f recs
      → IsFile crc crc32 (recover crc (take k f.blk) (take j f.idx)).0 (whole_records k recs)
  recover-IsFile f recs k j v =
      rw (v.blk_is, torn.bytes_are)
        (recover_from n xs torn.tail raw (take n0 es) parse refl n_le_xs kept idx
          (whole_records-IsStorable k recs v.storable)
          (whole_records-IsOrdered k none recs v.ordered) fits torn.tail_is)
    where
      torn : IsTornAt crc crc32 k recs
      torn = take-blk_bytes crc crc32 k recs v.storable

      xs : List LogRecord
      xs = whole_records k recs

      es : List Entry
      es = entries_at crc crc32 0 recs

      raw : List ℕ
      raw = take j f.idx

      n0 : ℕ
      n0 = length raw / 24

      blk : List ℕ
      blk = blk_bytes crc crc32 xs ++ torn.tail

      n : ℕ
      n = drop_bad crc blk (take n0 es) (linked_count 0 (pos 0) (take n0 es))

      raw_is : raw ≡ take j (index_bytes (take f.written es))
      raw_is =
          ap (take j) (v.idx_is ∙ ap index_bytes (sym (take-entries_at crc crc32 f.written 0 recs)))

      parse : parse_entries (length raw / 24) raw ≡ take n0 es
      parse =
          parse_entries-front f.written j es raw raw_is
            (entries_at-IsStored crc crc32 0 recs (omega (arith, v.fits)) v.storable)

      n_le_n0 : n ≤ n0
      n_le_n0 = omega (
        arith,
        drop_bad_le crc blk (take n0 es) (linked_count 0 (pos 0) (take n0 es)),
        linked_count_le 0 (pos 0) (take n0 es),
        length-take n0 es,
      )

      blk_le : length blk ≤ k
      blk_le = omega (arith, ap length torn.bytes_are, length-take k (blk_bytes crc crc32 recs))

      n_le_xs : n ≤ length xs
      n_le_xs =
          drop_bad_within crc blk (take n0 es) (length xs) (linked_count 0 (pos 0) (take n0 es))
            (λ i e h q. omega (
              arith,
              blk_le,
              entries_at-beyond crc crc32 k 0 i recs e h (get_elem?-take n0 es i e q),
            ))

      first_n : take n es ≡ entries_at crc crc32 0 (take n xs)
      first_n =
          take-entries_at crc crc32 n 0 recs
          ∙ ap (entries_at crc crc32 0) (take-whole_records n k recs n_le_xs)

      kept : take n (take n0 es) ≡ entries_at crc crc32 0 (take n xs)
      kept = take-take n n0 es n_le_n0 ∙ first_n

      idx : take (n * 24) raw ≡ index_bytes (entries_at crc crc32 0 (take n xs))
      idx = take-front n f.written j es raw raw_is n_le_n0 ∙ ap index_bytes first_n

      fits : length (blk_bytes crc crc32 xs) ≤ 2 ^ 48
      fits = omega (
        arith,
        v.fits,
        ap length torn.bytes_are,
        length-append (blk_bytes crc crc32 xs) torn.tail,
        length-take k (blk_bytes crc crc32 recs),
      )
