-- ===== src/Series/File/Reading.antt =====
-- What is read from a series file is what the reference series of the memory store gives.
use time_shade_db.Prelude.{
  ℕ, zero, suc, ◌+◌, ◌-◌, ◌≤◌, ◌<◌, ◌≡◌, refl, sym, ap, ◌∙◌, arith, ltb, le→ltb_false, lt→leb_false,
  le→leb, inl, inr, Bool-cases, ==_iff,
}
use time_shade_db.Prelude.{
  true, none, some, List, [], ◌∷◌, ◌++◌, All, length, length-append, length-take, length-drop, take,
  drop, get_elem?, append_assoc, take_and_drop, drop-append_past, take-append_self,
  drop-append_self, subst, All-take, All-drop,
}
use time_shade_db.Prelude.Words.{IsU32}
use time_shade_db.Memstore.Series.{LogRecord, Series, reply, refused, no_version, read_record}
use time_shade_db.Memstore.Series.Append.{IsLog}
use time_shade_db.Series.Format.{Entry, entry_meta, parse_header, matches, put_header}
use time_shade_db.Series.File.{LogFile, set_deltas, count_delta, read_at}
use time_shade_db.Series.File.Records.{
  record_bytes, header_of, read_entries, read_range, first_off, file_read,
}
use time_shade_db.Series.File.Recover.{end_of}
use time_shade_db.Series.File.Layout.{
  IsStorable, length-record_bytes, parse_header-record_bytes, matches-entry_at, read_at-append,
  blk_bytes, blk_bytes-append, entries_at, entry_at,
}
use time_shade_db.Series.File.Invariant.{IsFile, length-entries}
use time_shade_db.Series.File.Whole.{take-entries_at, end_of-entries_at}
use time_shade_db.Series.File.Deltas.{
  deltas_after, take-set_deltas, drop-set_deltas, drop-entries_at, end_of-set_deltas,
  first_off-set_deltas,
}
use time_shade_db.Series.File.Refines.{Refines}

-- The records from number n on are numbered in order, with the lengths of their payloads.
abbrev pub IsNumbered : ℕ → List LogRecord → Type 0
IsNumbered n [] = Unit {0}
IsNumbered n (r ∷ rs) = ((r.meta.seq ≡ n) × (r.meta.len ≡ length r.payload)) × IsNumbered (suc n) rs

pub IsLog-IsNumbered : (n : ℕ) (rs : List LogRecord) → IsLog n rs → IsNumbered n rs
IsLog-IsNumbered n [] l = tt
IsLog-IsNumbered n (r ∷ []) l = (l, tt)
IsLog-IsNumbered n (r ∷ q ∷ rs) l = (l.0, IsLog-IsNumbered (suc n) (q ∷ rs) l.2)

IsNumbered-take : (k n : ℕ) (rs : List LogRecord) → IsNumbered n rs → IsNumbered n (take k rs)
IsNumbered-take zero n rs h = tt
IsNumbered-take (suc k) n [] h = tt
IsNumbered-take (suc k) n (r ∷ rs) (h, hs) = (h, IsNumbered-take k (suc n) rs hs)

IsNumbered-drop : (k n : ℕ) (rs : List LogRecord) → IsNumbered n rs → IsNumbered (n + k) (drop k rs)
IsNumbered-drop zero n rs h = subst (λ m. IsNumbered m rs) (omega arith) h
IsNumbered-drop (suc k) n [] h = tt
IsNumbered-drop (suc k) n (r ∷ rs) (h, hs) =
    subst (λ m. IsNumbered m (drop k rs)) (omega arith) (IsNumbered-drop k (suc n) rs hs)

one_run :
    (rs : List LogRecord) (i : ℕ)
    → i < length rs
    → (r : LogRecord) × ((get_elem? rs i ≡ some r) × (take 1 (drop i rs) ≡ r ∷ []))
one_run [] i h = absurd (omega arith)
one_run (r ∷ rs) zero h = (r, (refl, refl))
one_run (r ∷ rs) (suc i) h = one_run rs i (omega arith)

get_elem?_beyond : (rs : List LogRecord) (i : ℕ) → length rs ≤ i → get_elem? rs i ≡ none
get_elem?_beyond [] i h = refl
get_elem?_beyond (r ∷ rs) zero h = absurd (omega arith)
get_elem?_beyond (r ∷ rs) (suc i) h = get_elem?_beyond rs i (omega arith)

module _ (crc : List ℕ → ℕ) (crc32 : (b : List ℕ) → IsU32 (crc b)) where
  -- One round of the loop of `readRange`.
  read_step :
      (base i : ℕ) (buf : List ℕ) (e : Entry) (es : List Entry) (r : LogRecord)
      (rs : List LogRecord)
      → parse_header crc (drop (e.off - base) buf) ≡ some (header_of crc r)
      → matches e (header_of crc r) ≡ true
      → take e.plen (drop (e.off - base + 32) buf) ≡ r.payload
      → entry_meta i e ≡ r.meta
      → read_entries crc base buf (suc i) es ≡ reply rs
      → read_entries crc base buf i (e ∷ es) ≡ reply (r ∷ rs)
  unfolding read_entries
  read_step base i buf e es r rs a b c d rest =
      rw (read_entries, a, b, c, rest, (==_iff (crc r.payload) (crc r.payload)).1 refl)
        (λ j. reply (record { meta = d j; payload = c j } ∷ rs))

  -- The loop of `readRange` reads back the records whose bytes it has.
  read_entries-records :
      (rs : List LogRecord) (before : List ℕ) (base off i n : ℕ)
      → off ≡ base + length before
      → All IsStorable rs
      → IsNumbered i rs
      → read_entries crc base
          (before ++ blk_bytes crc crc32 rs)
          i
          (set_deltas n (entries_at crc crc32 off rs))
        ≡ reply rs
  unfolding read_entries set_deltas entries_at blk_bytes entry_meta put_header
  read_entries-records [] before base off i n e s m = refl
  read_entries-records (r ∷ rs) before base off i n e (s, ss) (m, ms) =
      read_step base i buf _ _ r rs
        (rw (offset, front) (parse_header-record_bytes crc crc32 r rest s))
        (matches-entry_at crc crc32 off n' r)
        (rw
          (
            offset,
            drop-append_past (length before + 32) 32 before (record_bytes crc r ++ rest) refl,
          )
          (take-append_self r.payload rest))
        meta_is
        (ap
            (λ b.
              read_entries crc base b (suc i)
                (set_deltas n' (entries_at crc crc32 (off + 32 + length r.payload) rs)))
            (sym (append_assoc before (record_bytes crc r) rest))
          ∙ read_entries-records rs (before ++ record_bytes crc r) base
              (off + 32 + length r.payload) (suc i) n'
              (omega
                (arith, length-append before (record_bytes crc r), length-record_bytes crc crc32 r))
              ss ms)
    where
      n' : ℕ
      n' = count_delta r.meta.kind n

      rest : List ℕ
      rest = blk_bytes crc crc32 rs

      buf : List ℕ
      buf = before ++ (record_bytes crc r ++ rest)

      offset : off - base ≡ length before
      offset = omega arith

      front : drop (length before) buf ≡ record_bytes crc r ++ rest
      front = drop-append_self before (record_bytes crc r ++ rest)

      meta_is : entry_meta i (record (entry_at crc crc32 off 0 r) { deltas = n' }) ≡ r.meta
      meta_is = λ j. record r.meta { seq = sym m.0 j; len = sym m.1 j }

  -- The bytes of some records of a file.
  read_at-run :
      (f : LogFile) (recs : List LogRecord) (first m : ℕ)
      → IsFile crc crc32 f recs
      → (let run = take m (drop first recs) in
          read_at
            (length (blk_bytes crc crc32 (take first recs)))
            (length (blk_bytes crc crc32 run))
            f.blk
          ≡ some (blk_bytes crc crc32 run))
  read_at-run f recs first m v =
      rw (v.blk_is, whole)
        (read_at-append (blk_bytes crc crc32 (take first recs))
          (blk_bytes crc crc32 (take m (drop first recs)))
          (blk_bytes crc crc32 (drop m (drop first recs))) _ _ refl refl)
    where
      whole :
          blk_bytes crc crc32 recs
          ≡ blk_bytes crc crc32 (take first recs)
            ++ (blk_bytes crc crc32 (take m (drop first recs))
                ++ blk_bytes crc crc32 (drop m (drop first recs)))
      whole =
          ap (blk_bytes crc crc32) (sym (take_and_drop first recs))
          ∙ blk_bytes-append crc crc32 (take first recs) (drop first recs)
          ∙ ap (λ t. blk_bytes crc crc32 (take first recs) ++ t)
              (ap (blk_bytes crc crc32) (sym (take_and_drop m (drop first recs)))
                ∙ blk_bytes-append crc crc32 (take m (drop first recs)) (drop m (drop first recs)))

  -- The entries of some records of a file.
  entries_run :
      (f : LogFile) (recs : List LogRecord) (first m : ℕ)
      → IsFile crc crc32 f recs
      → take m (drop first f.entries)
        ≡ set_deltas (deltas_after 0 (take first (entries_at crc crc32 0 recs))) (
            entries_at crc crc32
              (length (blk_bytes crc crc32 (take first recs)))
              (take m (drop first recs)))
  entries_run f recs first m v =
      ap (λ t. take m (drop first t)) v.entries_are
      ∙ ap (take m) (drop-set_deltas first 0 es)
      ∙ take-set_deltas m d (drop first es)
      ∙ ap (λ t. set_deltas d (take m t)) (drop-entries_at crc crc32 first 0 recs)
      ∙ ap (set_deltas d) (take-entries_at crc crc32 m (0 + off) (drop first recs))
      ∙ ap (λ o. set_deltas d (entries_at crc crc32 o (take m (drop first recs)))) (omega arith)
    where
      es : List Entry
      es = entries_at crc crc32 0 recs

      d : ℕ
      d = deltas_after 0 (take first es)

      off : ℕ
      off = length (blk_bytes crc crc32 (take first recs))

  nonempty_run :
      (off n : ℕ) (rs : List LogRecord)
      → 0 < length rs
      → (first_off (set_deltas n (entries_at crc crc32 off rs)) ≡ off)
        × (end_of (set_deltas n (entries_at crc crc32 off rs))
            ≡ off + length (blk_bytes crc crc32 rs))
  unfolding entries_at
  nonempty_run off n [] h = absurd (omega arith)
  nonempty_run off n (r ∷ rs) h = (
    first_off-set_deltas n (entries_at crc crc32 off (r ∷ rs)),
    end_of-set_deltas n (entries_at crc crc32 off (r ∷ rs)) ∙ end_of-entries_at crc crc32 off r rs,
  )

  -- `readRange` of any records of the file returns them.
  pub read_range-IsFile :
      (f : LogFile) (recs : List LogRecord) (first last : ℕ)
      → IsFile crc crc32 f recs
      → IsNumbered 0 recs
      → first ≤ last
      → last < length recs
      → read_range crc first last f ≡ reply (take (last + 1 - first) (drop first recs))
  unfolding read_range
  read_range-IsFile f recs first last v m le lt =
      rw
        (
          read_range,
          v.open_is,
          le→ltb_false last first le,
          length-entries crc crc32 f recs v,
          lt→leb_false (length recs) last lt,
          entries_run f recs first (last + 1 - first) v,
          ends.0,
          ends.1,
          length_is,
          read_at-run f recs first (last + 1 - first) v,
          entries_run f recs first (last + 1 - first) v,
          ends.0,
        )
        (read_entries-records run [] off off first d (omega arith) stored numbered)
    where
      run : List LogRecord
      run = take (last + 1 - first) (drop first recs)

      off : ℕ
      off = length (blk_bytes crc crc32 (take first recs))

      d : ℕ
      d = deltas_after 0 (take first (entries_at crc crc32 0 recs))

      ends :
          (first_off (set_deltas d (entries_at crc crc32 off run)) ≡ off)
          × (end_of (set_deltas d (entries_at crc crc32 off run))
              ≡ off + length (blk_bytes crc crc32 run))
      ends =
          nonempty_run off d run (
            omega (arith, length-take (last + 1 - first) (drop first recs), length-drop first recs))

      length_is : off + length (blk_bytes crc crc32 run) - off ≡ length (blk_bytes crc crc32 run)
      length_is = omega arith

      stored : All IsStorable run
      stored =
          All-take IsStorable (last + 1 - first) (drop first recs)
            (All-drop IsStorable first recs v.storable)

      numbered : IsNumbered first run
      numbered = IsNumbered-take (last + 1 - first) first (drop first recs) (
          subst (λ n. IsNumbered n (drop first recs)) (omega arith)
            (IsNumbered-drop first 0 recs m))

  read_range_beyond :
      (f : LogFile) (recs : List LogRecord) (seq : ℕ)
      → IsFile crc crc32 f recs
      → length recs ≤ seq
      → read_range crc seq seq f ≡ refused no_version
  unfolding read_range
  read_range_beyond f recs seq v h =
      rw
        (
          read_range,
          v.open_is,
          le→ltb_false seq seq (omega arith),
          length-entries crc crc32 f recs v,
          le→leb (length recs) seq h,
        )
        refl

  -- For a checksum with values below 2^32 and a file and a reference series that hold the same
  -- records: `Read` of any number reads from the file the record, or gives the error, that `Read`
  -- of the reference series gives.
  pub file_read-read_record :
      (f : LogFile) (s : Series) (seq : ℕ)
      → Refines crc crc32 f s
      → file_read crc seq f ≡ read_record seq s
  unfolding file_read read_record
  file_read-read_record f s seq v = elim (Bool-cases (ltb seq (length s.recs))) [
    | inl h ↦
        let one = one_run s.recs seq (ground arith) in
        let count : seq + 1 - seq ≡ 1 = omega arith in
        let same =
          read_range-IsFile f s.recs seq seq v.file_is (IsLog-IsNumbered 0 s.recs v.series_is)
            (omega arith) (ground arith)
          ∙ ap (λ k. reply (take k (drop seq s.recs))) count
          ∙ ap reply one.1.1 in
        rw (file_read, read_record, same, v.open_is, one.1.0) refl
    | inr h ↦
        rw
          (
            file_read,
            read_record,
            read_range_beyond f s.recs seq v.file_is (ground arith),
            v.open_is,
            get_elem?_beyond s.recs seq (ground arith),
          )
          refl
  ]
