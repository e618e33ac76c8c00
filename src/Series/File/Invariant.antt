-- ===== src/Series/File/Invariant.antt =====
-- The invariant of an open series file.
use time_shade_db.Prelude.{
  ℕ, zero, suc, ◌+◌, ◌*◌, ◌^◌, ◌≤◌, ◌≡◌, refl, sym, ap, ◌∙◌, arith, inl, inr, Bool-cases, ◌==◌,
}
use time_shade_db.Prelude.{
  true, none, List, [], ◌∷◌, ◌++◌, All, length, length-append, length-drop, length-take, take, drop,
  take-append_past, take_all, drop_all, take_and_drop, append-nil,
}
use time_shade_db.Prelude.Words.{IsU32}
use time_shade_db.Memstore.Series.{LogRecord}
use time_shade_db.Series.Format.{Entry, put_index}
use time_shade_db.Series.Format.RoundTrip.{length-put_index}
use time_shade_db.Series.File.{LogFile, set_deltas, count_delta, index_bytes, write_at, write_index}
use time_shade_db.Series.File.Records.{record_bytes}
use time_shade_db.Series.File.Layout.{
  IsStorable, IsOrdered, length-record_bytes, blk_bytes, entries_at, length-entries_at,
  length-set_deltas, index_bytes-append, length-index_bytes,
}
use time_shade_db.Series.File.Whole.{take-entries_at}
use time_shade_db.Series.File.Index.{IsStored}

index_bytes-drop :
    (w n : ℕ) (es : List Entry) → index_bytes (drop w (set_deltas n es)) ≡ index_bytes (drop w es)
unfolding index_bytes set_deltas put_index
index_bytes-drop zero n [] = refl
index_bytes-drop zero n (e ∷ es) =
    ap (λ t. put_index e ++ t) (index_bytes-drop 0 (count_delta e.kind n) es)
index_bytes-drop (suc w) n [] = refl
index_bytes-drop (suc w) n (e ∷ es) = index_bytes-drop w (count_delta e.kind n) es

pub take-index_bytes :
    (n : ℕ) (es : List Entry)
    → n ≤ length es
    → take (n * 24) (index_bytes es) ≡ index_bytes (take n es)
unfolding index_bytes
take-index_bytes zero es h = refl
take-index_bytes (suc n) [] h = absurd (omega arith)
take-index_bytes (suc n) (e ∷ es) h =
    take-append_past (suc n * 24) (n * 24) (put_index e) (index_bytes es)
      (omega (arith, length-put_index e))
    ∙ ap (λ t. put_index e ++ t) (take-index_bytes n es (omega arith))

-- Writing the index records that were not written yet completes those that were.
write_at-index_bytes :
    (w : ℕ) (es : List Entry)
    → w ≤ length es
    → write_at (w * 24) (index_bytes (drop w (set_deltas 0 es))) (index_bytes (take w es))
      ≡ index_bytes es
unfolding write_at
write_at-index_bytes w es h =
    let written = length-index_bytes (take w es) in
    let count = length-take w es in
    rw
      (
        write_at,
        take_all (w * 24) (index_bytes (take w es)) (omega arith),
        drop_all (w * 24 + length (index_bytes (drop w (set_deltas 0 es))))
            (index_bytes (take w es)) (omega arith),
        append-nil (index_bytes (drop w (set_deltas 0 es))),
        index_bytes-drop w 0 es,
      )
      (sym (index_bytes-append (take w es) (drop w es)) ∙ ap index_bytes (take_and_drop w es))

module _ (crc : List ℕ → ℕ) (crc32 : (b : List ℕ) → IsU32 (crc b)) where
  -- The file holds these records, and the index file the first of their index records.
  pub record IsFile (f : LogFile) (recs : List LogRecord) : Type 0 where
    pub open_is : f.opened ≡ true
    pub blk_is : f.blk ≡ blk_bytes crc crc32 recs
    pub size_is : f.size ≡ length (blk_bytes crc crc32 recs)
    pub entries_are : f.entries ≡ set_deltas 0 (entries_at crc crc32 0 recs)
    pub written_is : f.written ≤ length recs
    pub idx_is : f.idx ≡ index_bytes (entries_at crc crc32 0 (take f.written recs))
    pub storable : All IsStorable recs
    pub ordered : IsOrdered none recs
    pub fits : length (blk_bytes crc crc32 recs) ≤ 2 ^ 48

  pub entries_at-IsStored :
      (off : ℕ) (rs : List LogRecord)
      → off + length (blk_bytes crc crc32 rs) ≤ 2 ^ 48
      → All IsStorable rs
      → All IsStored (entries_at crc crc32 off rs)
  unfolding entries_at blk_bytes
  entries_at-IsStored off [] h s = tt
  entries_at-IsStored off (r ∷ rs) h (s, ss) =
      let len = length-append (record_bytes crc r) (blk_bytes crc crc32 rs) in
      let front = length-record_bytes crc crc32 r in
      (
        (
          record {
            t_start_is = s.t_start_is;
            t_len_is = s.t_len_is;
            plen_is = s.payload_is;
            off_is = omega arith;
          },
          refl,
        ),
        entries_at-IsStored (off + 32 + length r.payload) rs (omega arith) ss,
      )

  pub length-entries :
      (f : LogFile) (recs : List LogRecord) → IsFile f recs → length f.entries ≡ length recs
  length-entries f recs v =
      ap length v.entries_are
      ∙ length-set_deltas 0 (entries_at crc crc32 0 recs)
      ∙ length-entries_at crc crc32 0 recs

  all_written :
      (f : LogFile) (recs : List LogRecord)
      → IsFile f recs
      → f.written + length (drop f.written f.entries) ≡ length recs
  all_written f recs v =
      omega (arith, length-drop f.written f.entries, length-entries f recs v, v.written_is)

  -- `writeIndex` completes the index file.
  pub write_index-IsFile :
      (f : LogFile) (recs : List LogRecord) → IsFile f recs → IsFile (write_index f) recs
  unfolding write_index
  write_index-IsFile f recs v = elim (Bool-cases (length (drop f.written f.entries) == 0)) [
    | inl e ↦ rw (write_index, e) v
    | inr e ↦
        rw (write_index, e)
          (record {
            open_is = v.open_is;
            blk_is = v.blk_is;
            size_is = v.size_is;
            entries_are = v.entries_are;
            written_is = omega (arith, all_written f recs v);
            idx_is =
                rw
                  (
                    v.idx_is,
                    all_written f recs v,
                    take_all (length recs) recs (omega arith),
                    v.entries_are,
                  )
                  (ap
                      (λ t.
                        write_at (f.written * 24)
                          (index_bytes
                            (drop f.written (set_deltas 0 (entries_at crc crc32 0 recs))))
                          (index_bytes t))
                      (sym (take-entries_at crc crc32 f.written 0 recs))
                    ∙ write_at-index_bytes f.written (entries_at crc crc32 0 recs)
                        (omega (arith, v.written_is, length-entries_at crc crc32 0 recs)));
            storable = v.storable;
            ordered = v.ordered;
            fits = v.fits;
          })
  ]

  -- No index record is left to write.
  pub write_index-written :
      (f : LogFile) (recs : List LogRecord) → IsFile f recs → (write_index f).written ≡ length recs
  unfolding write_index
  write_index-written f recs v = elim (Bool-cases (length (drop f.written f.entries) == 0)) [
    | inl e ↦
        let zero_left : length (drop f.written f.entries) ≡ 0 = ground arith in
        rw (write_index, e) (omega (arith, all_written f recs v, zero_left))
    | inr e ↦ rw (write_index, e) (all_written f recs v)
  ]
