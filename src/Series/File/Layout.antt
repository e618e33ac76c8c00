-- ===== src/Series/File/Layout.antt =====
-- What the two files of a series hold: its records and its index records, one behind the other.
use time_shade_db.Prelude.{
  ℕ, suc, ◌+◌, ◌*◌, ◌≤◌, ◌≡◌, refl, sym, ap, ◌∙◌, arith, le→ltb_false, ==_iff,
}
use time_shade_db.Prelude.{
  true, false, Option, some, List, [], ◌∷◌, ◌++◌, length, length-append, drop, take-append_self,
  drop-append_self, append_assoc, append-nil,
}
use time_shade_db.Prelude.Int.{ℤ, IsI64, ==ℤ_iff}
use time_shade_db.Prelude.Words.{IsU32}
use time_shade_db.Memstore.Series.{LogRecord, t_end}
use time_shade_db.Series.Format.{
  Header, Entry, put_header, put_index, parse_header, matches, valid_kind, max_payload,
}
use time_shade_db.Series.Format.RoundTrip.{
  IsHeader, parse_header-put_header, length-put_header, length-put_index,
}
use time_shade_db.Series.File.{read_at, is_before, set_deltas, index_bytes, count_delta}
use time_shade_db.Series.File.Recover.{check_record, found_entry}
use time_shade_db.Series.File.Records.{header_of, record_bytes}

-- The records that `append` accepts.
pub record IsStorable (r : LogRecord) : Type 0 where
  pub kind_is : valid_kind r.meta.kind ≡ true
  pub t_start_is : IsI64 r.meta.t_start
  pub t_len_is : IsU32 r.meta.t_len
  pub payload_is : length r.payload ≤ max_payload

-- The effective times do not fall, from a time on.
abbrev pub IsOrdered : Option ℤ → List LogRecord → Type 0
IsOrdered last [] = Unit {0}
IsOrdered last (r ∷ rs) =
    (is_before (t_end r.meta) last ≡ false) × IsOrdered (some (t_end r.meta)) rs

pub read_at-append :
    (a b c : List ℕ) (o n : ℕ) → o ≡ length a → n ≡ length b → read_at o n (a ++ (b ++ c)) ≡ some b
unfolding read_at
read_at-append a b c o n e f = rw (
  read_at,
  e,
  f,
  drop-append_self a (b ++ c),
  take-append_self b c,
  le→ltb_false (length b) (length b) (omega arith),
)

matches_self :
    (e : Entry) (h : Header)
    → e.kind ≡ h.kind
    → e.flags ≡ h.flags
    → e.t_start ≡ h.t_start
    → e.t_len ≡ h.t_len
    → e.plen ≡ h.plen
    → matches e h ≡ true
unfolding matches
matches_self e h a b c d f = rw (
  a,
  b,
  c,
  d,
  f,
  (==_iff h.kind h.kind).1 refl,
  (==_iff h.flags h.flags).1 refl,
  (==ℤ_iff h.t_start h.t_start).1 refl,
  (==_iff h.t_len h.t_len).1 refl,
  (==_iff h.plen h.plen).1 refl,
)

module _ (crc : List ℕ → ℕ) (crc32 : (b : List ℕ) → IsU32 (crc b)) where
  pub header_of-IsHeader : (r : LogRecord) → IsStorable r → IsHeader (header_of crc r)
  header_of-IsHeader r s = record {
    kind_is = s.kind_is;
    t_start_is = s.t_start_is;
    t_len_is = s.t_len_is;
    plen_is = s.payload_is;
    pcrc_is = crc32 r.payload;
  }

  pub length-record_bytes : (r : LogRecord) → length (record_bytes crc r) ≡ 32 + length r.payload
  length-record_bytes r =
      length-append (put_header crc (header_of crc r)) r.payload
      ∙ ap (λ n. n + length r.payload) (length-put_header crc (header_of crc r))

  pub parse_header-record_bytes :
      (r : LogRecord) (rest : List ℕ)
      → IsStorable r
      → parse_header crc (record_bytes crc r ++ rest) ≡ some (header_of crc r)
  parse_header-record_bytes r rest s =
      ap (parse_header crc) (append_assoc (put_header crc (header_of crc r)) r.payload rest)
      ∙ parse_header-put_header crc (header_of crc r) (r.payload ++ rest) (crc32 _)
          (header_of-IsHeader r s)

  drop-record_bytes : (r : LogRecord) → drop 32 (record_bytes crc r) ≡ r.payload
  unfolding put_header
  drop-record_bytes r = refl

  -- The entry of a record at an offset, with any count of deltas.
  abbrev pub entry_at : ℕ → ℕ → LogRecord → Entry
  entry_at off n r = record (found_entry off (header_of crc r)) { deltas = n }

  pub matches-entry_at :
      (off n : ℕ) (r : LogRecord) → matches (entry_at off n r) (header_of crc r) ≡ true
  matches-entry_at off n r =
      matches_self (entry_at off n r) (header_of crc r) refl refl refl refl refl

  -- A record that stands in a file is found sound.
  pub check_record-entry_at :
      (before after : List ℕ) (off n : ℕ) (r : LogRecord)
      → off ≡ length before
      → IsStorable r
      → check_record crc (before ++ (record_bytes crc r ++ after)) (entry_at off n r) ≡ true
  unfolding check_record
  check_record-entry_at before after off n r e s = rw (
    check_record,
    read_at-append before (record_bytes crc r) after off (32 + length r.payload) e
        (sym (length-record_bytes r)),
    ap (parse_header crc) (sym (append-nil (record_bytes crc r)))
        ∙ parse_header-record_bytes r [] s,
    matches-entry_at off n r,
    drop-record_bytes r,
    (==_iff (crc r.payload) (crc r.payload)).1 refl,
  )

  -- The records one behind the other.
  unfoldable pub blk_bytes : List LogRecord → List ℕ
  blk_bytes [] = []
  blk_bytes (r ∷ rs) = record_bytes crc r ++ blk_bytes rs

  pub blk_bytes-append :
      (rs qs : List LogRecord) → blk_bytes (rs ++ qs) ≡ blk_bytes rs ++ blk_bytes qs
  unfolding blk_bytes
  blk_bytes-append [] qs = refl
  blk_bytes-append (r ∷ rs) qs =
      ap (λ t. record_bytes crc r ++ t) (blk_bytes-append rs qs)
      ∙ sym (append_assoc (record_bytes crc r) (blk_bytes rs) (blk_bytes qs))

  -- Their entries, from an offset on, without the counts of deltas.
  unfoldable pub entries_at : ℕ → List LogRecord → List Entry
  entries_at off [] = []
  entries_at off (r ∷ rs) = entry_at off 0 r ∷ entries_at (off + 32 + length r.payload) rs

  pub length-entries_at : (off : ℕ) (rs : List LogRecord) → length (entries_at off rs) ≡ length rs
  unfolding entries_at
  length-entries_at off [] = refl
  length-entries_at off (r ∷ rs) = ap suc (length-entries_at (off + 32 + length r.payload) rs)

  pub entries_at-append :
      (off : ℕ) (rs qs : List LogRecord)
      → entries_at off (rs ++ qs) ≡ entries_at off rs ++ entries_at (off + length (blk_bytes rs)) qs
  unfolding entries_at blk_bytes
  entries_at-append off [] qs = ap (λ o. entries_at o qs) (omega arith)
  entries_at-append off (r ∷ rs) qs =
      ap (λ t. entry_at off 0 r ∷ t)
        (entries_at-append (off + 32 + length r.payload) rs qs
          ∙ ap (λ o. entries_at (off + 32 + length r.payload) rs ++ entries_at o qs)
              (omega
                (arith, length-append (record_bytes crc r) (blk_bytes rs), length-record_bytes r)))

pub index_bytes-set_deltas :
    (n : ℕ) (es : List Entry) → index_bytes (set_deltas n es) ≡ index_bytes es
unfolding index_bytes set_deltas put_index
index_bytes-set_deltas n [] = refl
index_bytes-set_deltas n (e ∷ es) =
    ap (λ t. put_index e ++ t) (index_bytes-set_deltas (count_delta e.kind n) es)

pub length-set_deltas : (n : ℕ) (es : List Entry) → length (set_deltas n es) ≡ length es
unfolding set_deltas
length-set_deltas n [] = refl
length-set_deltas n (e ∷ es) = ap suc (length-set_deltas (count_delta e.kind n) es)

pub index_bytes-append :
    (es fs : List Entry) → index_bytes (es ++ fs) ≡ index_bytes es ++ index_bytes fs
unfolding index_bytes
index_bytes-append [] fs = refl
index_bytes-append (e ∷ es) fs =
    ap (λ t. put_index e ++ t) (index_bytes-append es fs)
    ∙ sym (append_assoc (put_index e) (index_bytes es) (index_bytes fs))

pub length-index_bytes : (es : List Entry) → length (index_bytes es) ≡ 24 * length es
unfolding index_bytes
length-index_bytes [] = refl
length-index_bytes (e ∷ es) =
    omega (
      arith,
      length-append (put_index e) (index_bytes es),
      length-put_index e,
      length-index_bytes es,
    )
