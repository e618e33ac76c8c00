-- ===== src/Series/File/Refines.antt =====
-- A series file that is appended to does what the reference series of the memory store does.
use time_shade_db.Prelude.{
  ℕ, ◌+◌, ◌^◌, ◌≤◌, ◌≡◌, refl, sym, ap, ◌∙◌, arith, le→ltb_false, inl, inr, Bool-cases,
}
use time_shade_db.Prelude.{
  true, false, Option, none, some, List, [], ◌∷◌, ◌++◌, All-append, length, length-append,
  take-append_le, append-nil, subst,
}
use time_shade_db.Prelude.Int.{ℤ, IsI64}
use time_shade_db.Prelude.Words.{IsU32}
use time_shade_db.Memstore.Series.{
  LogRecord, Series, Reply, t_end, stored, is_early, append_record, reply, refused, unknown_kind,
  out_of_order,
}
use time_shade_db.Memstore.Series.Append.{IsSeries, append_record-IsSeries}
use time_shade_db.Series.Format.{Entry, entry_end, entry_t_end, valid_kind, max_payload}
use time_shade_db.Series.File.{
  LogFile, set_deltas, count_delta, index_bytes, write_at, is_before, last_t,
}
use time_shade_db.Series.File.Records.{record_bytes, append_to_file, new_entry, last_deltas}
use time_shade_db.Series.File.Writing.{write_at-length}
use time_shade_db.Series.File.Layout.{
  IsStorable, IsOrdered, length-record_bytes, blk_bytes, blk_bytes-append, entries_at,
  entries_at-append, entry_at,
}
use time_shade_db.Series.File.Invariant.{IsFile, length-entries}
use time_shade_db.Series.File.Deltas.{
  deltas_after, set_deltas-append, last_deltas-set_deltas, is_before-last,
}

module _ (crc : List ℕ → ℕ) (crc32 : (b : List ℕ) → IsU32 (crc b)) where
  -- The file and the reference series hold the same records.
  pub record Refines (f : LogFile) (s : Series) : Type 0 where
    pub file_is : IsFile crc crc32 f s.recs
    pub series_is : IsSeries s
    pub open_is : s.closed ≡ false

  -- What `append` can store: a payload of at most MaxPayload bytes, with offsets below 2^48.
  pub record IsFitting (r : LogRecord) (f : LogFile) : Type 0 where
    pub t_start_is : IsI64 r.meta.t_start
    pub t_len_is : IsU32 r.meta.t_len
    pub payload_is : length r.payload ≤ max_payload
    pub room : f.size + 32 + length r.payload ≤ 2 ^ 48

  IsOrdered-append_cons :
      (last : Option ℤ) (q : LogRecord) (rs : List LogRecord) (r : LogRecord)
      → IsOrdered last (q ∷ rs)
      → is_early r (q ∷ rs) ≡ false
      → IsOrdered last (q ∷ rs ++ (r ∷ []))
  unfolding is_early
  IsOrdered-append_cons last q [] r (o, os) e = (o, (e, tt))
  IsOrdered-append_cons last q (p ∷ rs) r (o, os) e =
      (o, IsOrdered-append_cons (some (t_end q.meta)) p rs r os e)

  IsOrdered-append :
      (rs : List LogRecord) (r : LogRecord)
      → IsOrdered none rs
      → is_early r rs ≡ false
      → IsOrdered none (rs ++ (r ∷ []))
  IsOrdered-append [] r o e = (refl, tt)
  IsOrdered-append (q ∷ rs) r o e = IsOrdered-append_cons none q rs r o e

  -- The order is tested against the same time.
  pub order_is :
      (r : LogRecord) (f : LogFile) (recs : List LogRecord)
      → IsFile crc crc32 f recs
      → is_before (entry_t_end (new_entry crc r f)) (last_t f.entries) ≡ is_early r recs
  unfolding is_early new_entry entry_t_end t_end
  order_is r f recs v = rw (v.entries_are) (is_before-last crc crc32 (t_end r.meta) 0 0 recs)

  entries_added :
      (r : LogRecord) (f : LogFile) (recs : List LogRecord)
      → IsFile crc crc32 f recs
      → f.entries ++ (new_entry crc r f ∷ [])
        ≡ set_deltas 0 (entries_at crc crc32 0 (recs ++ (stored r recs ∷ [])))
  unfolding new_entry set_deltas entries_at
  entries_added r f recs v =
      (λ i.
        v.entries_are i
        ++ (record (entry_at crc crc32 (off_is i) 0 r) {
          deltas = count_delta r.meta.kind (deltas_is i);
        }
            ∷ []))
      ∙ sym
          (set_deltas-append 0 es (entry_at crc crc32 (0 + length (blk_bytes crc crc32 recs)) 0 r))
      ∙ ap (set_deltas 0) (sym (entries_at-append crc crc32 0 recs (stored r recs ∷ [])))
    where
      es : List Entry
      es = entries_at crc crc32 0 recs

      off_is : f.size ≡ 0 + length (blk_bytes crc crc32 recs)
      off_is = omega (arith, v.size_is)

      deltas_is : last_deltas f.entries ≡ deltas_after 0 es
      deltas_is = ap (last_deltas) v.entries_are ∙ last_deltas-set_deltas es

  bytes_added :
      (r : LogRecord) (recs : List LogRecord)
      → blk_bytes crc crc32 (recs ++ (stored r recs ∷ []))
        ≡ blk_bytes crc crc32 recs ++ record_bytes crc r
  unfolding blk_bytes
  bytes_added r recs =
      blk_bytes-append crc crc32 recs (stored r recs ∷ [])
      ∙ ap (λ t. blk_bytes crc crc32 recs ++ t) (append-nil (record_bytes crc r))

  length_added :
      (r : LogRecord) (recs : List LogRecord)
      → length (blk_bytes crc crc32 (recs ++ (stored r recs ∷ [])))
        ≡ length (blk_bytes crc crc32 recs) + (32 + length r.payload)
  length_added r recs =
      ap length (bytes_added r recs)
      ∙ length-append (blk_bytes crc crc32 recs) (record_bytes crc r)
      ∙ ap (λ n. length (blk_bytes crc crc32 recs) + n) (length-record_bytes crc crc32 r)

  -- Bytes are written at the end of a file.
  pub appended-IsFile :
      (r : LogRecord) (f : LogFile) (recs : List LogRecord)
      → IsFile crc crc32 f recs
      → IsFitting r f
      → valid_kind r.meta.kind ≡ true
      → is_early r recs ≡ false
      → IsFile crc crc32
          (record f {
            blk = write_at f.size (record_bytes crc r) f.blk;
            entries = f.entries ++ (new_entry crc r f ∷ []);
            size = entry_end (new_entry crc r f);
            dirty = true;
          })
          (recs ++ (stored r recs ∷ []))
  unfolding new_entry is_early t_end
  appended-IsFile r f recs v w k e = record {
    open_is = v.open_is;
    blk_is =
        write_at-length f.size (record_bytes crc r) f.blk (v.size_is ∙ ap length (sym v.blk_is))
        ∙ ap (λ b. b ++ record_bytes crc r) v.blk_is
        ∙ sym (bytes_added r recs);
    size_is = omega (arith, v.size_is, length_added r recs);
    entries_are = entries_added r f recs v;
    written_is = omega (arith, v.written_is, length-append recs (stored r recs ∷ []));
    idx_is =
        v.idx_is
        ∙ ap (λ t. index_bytes (entries_at crc crc32 0 t))
            (sym (take-append_le f.written recs (stored r recs ∷ []) v.written_is));
    storable = All-append IsStorable recs (stored r recs ∷ []) v.storable (
      record {
        kind_is = k;
        t_start_is = w.t_start_is;
        t_len_is = w.t_len_is;
        payload_is = w.payload_is;
      },
      tt,
    );
    ordered = IsOrdered-append recs (stored r recs) v.ordered e;
    fits = omega (arith, v.size_is, length_added r recs, w.room);
  }

  joined :
      (r : LogRecord) (f : LogFile) (s : Series) (x : Reply ℕ × LogFile) (y : Reply ℕ × Series)
      → append_to_file crc none r f ≡ x
      → append_record r s ≡ y
      → x.0 ≡ y.0
      → Refines x.1 y.1
      → ((append_to_file crc none r f).0 ≡ (append_record r s).0)
        × Refines (append_to_file crc none r f).1 (append_record r s).1
  joined r f s x y a b c d = rw (a, b) (c, d)

  -- For a checksum with values below 2^32 and a file and a reference series that hold the same
  -- records: `append`, when its write succeeds, of a record with an int64 start, a uint32 length, at
  -- most MaxPayload bytes of payload and an end below 2^48 gives the number or the error that `Append` of the reference
  -- series gives, and the two hold the same records afterwards.
  pub append_to_file-Refines :
      (r : LogRecord) (f : LogFile) (s : Series)
      → Refines f s
      → IsFitting r f
      → ((append_to_file crc none r f).0 ≡ (append_record r s).0)
        × Refines (append_to_file crc none r f).1 (append_record r s).1
  unfolding append_to_file append_record valid_kind
  append_to_file-Refines r f s v w =
      let short = le→ltb_false max_payload (length r.payload) w.payload_is in
      let opened = v.file_is.open_is in
      let closed = v.open_is in
      elim (Bool-cases (valid_kind r.meta.kind)) [
        | inl k ↦ elim (Bool-cases (is_early r s.recs)) [
          | inl e ↦
              let late = order_is r f s.recs v.file_is ∙ e in
              joined r f s (refused out_of_order, f) (refused out_of_order, s)
                (simp (append_to_file, k, short, opened, late) refl)
                (simp (append_record, closed, k, e) refl) refl v
          | inr e ↦
              let late = order_is r f s.recs v.file_is ∙ e in
              let y : Reply ℕ × Series =
                (reply (length s.recs), record s { recs = s.recs ++ (stored r s.recs ∷ []) }) in
              let ref : append_record r s ≡ y = simp (append_record, closed, k, e) refl in
              joined r f s _ y (simp (append_to_file, k, short, opened, late) refl) ref
                (ap reply (length-entries crc crc32 f s.recs v.file_is))
                (record {
                  file_is = appended-IsFile r f s.recs v.file_is w k e;
                  series_is =
                      subst (λ z. IsSeries z.1) ref (append_record-IsSeries r s v.series_is);
                  open_is = closed;
                })
        ]
        | inr k ↦
            joined r f s (refused unknown_kind, f) (refused unknown_kind, s)
              (simp (append_to_file, k) refl) (simp (append_record, closed, k) refl) refl v
      ]
