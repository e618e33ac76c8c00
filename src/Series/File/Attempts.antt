-- ===== src/Series/File/Attempts.antt =====
-- All that `append` can do: the record is stored, or there is an error and the file is as before.
use time_shade_db.Prelude.{
  ℕ, ◌+◌, ◌^◌, ◌≤◌, ◌<◌, ◌≡◌, refl, sym, ap, ◌∙◌, arith, le→ltb_false, ltb, inl, inr, ◌⊎◌,
  Bool-cases,
}
use time_shade_db.Prelude.{
  true, false, Option, none, some, List, [], ◌∷◌, ◌++◌, length, take, take-append_self, subst,
}
use time_shade_db.Prelude.Int.{IsI64}
use time_shade_db.Prelude.Words.{IsU32}
use time_shade_db.Memstore.Series.{
  LogRecord, Reply, stored, is_early, reply, refused, closed_error, unknown_kind, too_large,
  out_of_order, write_failed,
}
use time_shade_db.Series.Format.{entry_end, valid_kind, max_payload}
use time_shade_db.Series.File.{LogFile, write_at}
use time_shade_db.Series.File.Records.{record_bytes, append_to_file, new_entry}
use time_shade_db.Series.File.Writing.{write_at-length}
use time_shade_db.Series.File.Invariant.{IsFile, length-entries}
use time_shade_db.Series.File.Refines.{IsFitting, order_is, appended-IsFile}

module _ (crc : List ℕ → ℕ) (crc32 : (b : List ℕ) → IsU32 (crc b)) where
  -- What an attempt to append a record ends with, by the fault of the write, the record, the file and
  -- the records in it.
  pub data Attempt (fault : Option ℕ) (r : LogRecord) (f : LogFile) (recs : List LogRecord)
      : Reply ℕ × LogFile → Type 0 where
    bad_kind : valid_kind r.meta.kind ≡ false → Attempt fault r f recs (refused unknown_kind, f)
    long :
        valid_kind r.meta.kind ≡ true
        → max_payload < length r.payload
        → Attempt fault r f recs (refused too_large, f)
    closed :
        valid_kind r.meta.kind ≡ true
        → length r.payload ≤ max_payload
        → f.opened ≡ false
        → Attempt fault r f recs (refused closed_error, f)
    too_early :
        valid_kind r.meta.kind ≡ true
        → length r.payload ≤ max_payload
        → f.opened ≡ true
        → is_early r recs ≡ true
        → Attempt fault r f recs (refused out_of_order, f)
    cut_off :
        (k : ℕ)
        → valid_kind r.meta.kind ≡ true
        → length r.payload ≤ max_payload
        → f.opened ≡ true
        → is_early r recs ≡ false
        → fault ≡ some k
        → Attempt fault r f recs (refused write_failed, f)
    added :
        (f' : LogFile)
        → valid_kind r.meta.kind ≡ true
        → length r.payload ≤ max_payload
        → f.opened ≡ true
        → is_early r recs ≡ false
        → fault ≡ none
        → IsFile crc crc32 f' (recs ++ (stored r recs ∷ []))
        → Attempt fault r f recs (reply (length recs), f')

  -- A write at the end that is cut again leaves a file as it was.
  take-write_at :
      (bytes file : List ℕ) (off : ℕ)
      → off ≡ length file
      → take off (write_at off bytes file) ≡ file
  take-write_at bytes file off e =
      ap (take off) (write_at-length off bytes file e)
      ∙ ap (λ n. take n (file ++ bytes)) e
      ∙ take-append_self file bytes

  failed :
      (f : LogFile) (recs : List LogRecord) (bytes : List ℕ)
      → IsFile crc crc32 f recs
      → record f { blk = take f.size (write_at f.size bytes f.blk) } ≡ f
  failed f recs bytes v = λ i. record f {
    blk = take-write_at bytes f.blk f.size (v.size_is ∙ ap length (sym v.blk_is)) i;
  }

  -- The write and its fault.
  written-Attempt :
      (fault : Option ℕ) (r : LogRecord) (f : LogFile) (recs : List LogRecord)
      → IsFile crc crc32 f recs
      → IsFitting crc crc32 r f
      → valid_kind r.meta.kind ≡ true
      → is_early r recs ≡ false
      → Attempt fault r f recs (append_to_file crc fault r f)
  unfolding append_to_file new_entry
  written-Attempt (some k) r f recs v w kind e =
      let late = order_is crc crc32 r f recs v ∙ e in
      let short = le→ltb_false max_payload (length r.payload) w.payload_is in
      let g : LogFile = record f {
        blk = take f.size (write_at f.size (take k (record_bytes crc r)) f.blk);
      } in
      let done : append_to_file crc (some k) r f ≡ (refused write_failed, g) =
        simp (append_to_file, kind, short, v.open_is, late) refl in
      let as_before : ◌≡◌ {A = Reply ℕ × LogFile} (refused write_failed, g)
          (refused write_failed, f) =
        ap (λ h. (refused write_failed, h)) (failed f recs (take k (record_bytes crc r)) v) in
      subst (Attempt (some k) r f recs) (sym (done ∙ as_before))
        (cut_off k kind w.payload_is v.open_is e refl)
  written-Attempt none r f recs v w kind e =
      let late = order_is crc crc32 r f recs v ∙ e in
      let short = le→ltb_false max_payload (length r.payload) w.payload_is in
      let g : LogFile = record f {
        blk = write_at f.size (record_bytes crc r) f.blk;
        entries = f.entries ++ (new_entry crc r f ∷ []);
        size = entry_end (new_entry crc r f);
        dirty = true;
      } in
      let done : append_to_file crc none r f ≡ (reply (length f.entries), g) =
        simp (append_to_file, kind, short, v.open_is, late) refl in
      let number : ◌≡◌ {A = Reply ℕ × LogFile} (reply (length f.entries), g)
          (reply (length recs), g) =
        ap (λ n. (reply n, g)) (length-entries crc crc32 f recs v) in
      subst (Attempt none r f recs) (sym (done ∙ number))
        (added g kind w.payload_is v.open_is e refl (appended-IsFile crc crc32 r f recs v w kind e))

  open-Attempt :
      (fault : Option ℕ) (r : LogRecord) (f : LogFile) (recs : List LogRecord)
      → IsFile crc crc32 f recs
      → IsFitting crc crc32 r f
      → valid_kind r.meta.kind ≡ true
      → Attempt fault r f recs (append_to_file crc fault r f)
  unfolding append_to_file
  open-Attempt fault r f recs v w k = elim (Bool-cases (is_early r recs)) [
    | inl e ↦
        let late = order_is crc crc32 r f recs v ∙ e in
        let short = le→ltb_false max_payload (length r.payload) w.payload_is in
        let done : append_to_file crc fault r f ≡ (refused out_of_order, f) =
          simp (append_to_file, k, short, v.open_is, late) refl in
        subst (Attempt fault r f recs) (sym done) (too_early k w.payload_is v.open_is e)
    | inr e ↦ written-Attempt fault r f recs v w k e
  ]

  -- For a checksum with values below 2^32, a file that is closed or holds some records, a record with
  -- an int64 start, a uint32 length and an end below 2^48, and any fault of the write: `append`
  -- returns the number of the records and adds this one exactly when its kind is known, its payload
  -- has at most MaxPayload bytes, the file is open, its effective time is not before the last and the
  -- write succeeds. Else it returns the error of the first of these that fails, in this order, and
  -- the file is as before, also when some bytes of the record had been written.
  pub append_to_file-Attempt :
      (fault : Option ℕ) (r : LogRecord) (f : LogFile) (recs : List LogRecord)
      → (f.opened ≡ false) ⊎ IsFile crc crc32 f recs
      → IsI64 r.meta.t_start
      → IsU32 r.meta.t_len
      → f.size + 32 + length r.payload ≤ 2 ^ 48
      → Attempt fault r f recs (append_to_file crc fault r f)
  unfolding append_to_file
  append_to_file-Attempt fault r f recs v a b c = elim (Bool-cases (valid_kind r.meta.kind)) [
    | inr k ↦
        let done : append_to_file crc fault r f ≡ (refused unknown_kind, f) =
          simp (append_to_file, k) refl in
        subst (Attempt fault r f recs) (sym done) (bad_kind k)
    | inl k ↦ elim (Bool-cases (ltb max_payload (length r.payload))) [
      | inl l ↦
          let done : append_to_file crc fault r f ≡ (refused too_large, f) =
            simp (append_to_file, k, l) refl in
          subst (Attempt fault r f recs) (sym done) (long k (ground arith))
      | inr l ↦
          let short : length r.payload ≤ max_payload = ground arith in
          elim v [
            | inl o ↦
                let done : append_to_file crc fault r f ≡ (refused closed_error, f) =
                  simp (append_to_file, k, l, o) refl in
                subst (Attempt fault r f recs) (sym done) (closed k short o)
            | inr w ↦
                open-Attempt fault r f recs w
                  (record { t_start_is = a; t_len_is = b; payload_is = short; room = c }) k
          ]
    ]
  ]
