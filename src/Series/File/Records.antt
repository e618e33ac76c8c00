-- ===== src/Series/File/Records.antt =====
-- `append` and `readRange` of internal/series/file.go, and Read and Chain of a series.
use time_shade_db.Prelude.{ℕ, zero, suc, ◌+◌, ◌-◌, ltb, leb, ◌==◌, if◌then◌else◌, not, ◌||◌}
use time_shade_db.Prelude.{true, Option, none, some, List, [], ◌∷◌, ◌++◌, length, take, drop}
use time_shade_db.Prelude.Int.{ℤ}
use time_shade_db.Memstore.Series.{LogRecord, Reply, reply, refused}
use time_shade_db.Memstore.Series.{
  closed_error, unknown_kind, too_large, write_failed, corrupt, short_read, out_of_order,
  no_version,
}
use time_shade_db.Series.Format.{
  Header, Entry, entry_t_end, entry_end, entry_meta, put_header, parse_header,
}
use time_shade_db.Series.Format.{matches, valid_kind, max_payload, blk_header_size}
use time_shade_db.Series.File.{
  LogFile, write_at, read_at, last_t, is_before, count_delta, end_at, base_before,
}
use time_shade_db.Series.File.Recover.{found_entry, end_of}

abbrev pub last_deltas : List Entry → ℕ
last_deltas [] = 0
last_deltas (e ∷ []) = e.deltas
last_deltas (e ∷ f ∷ es) = last_deltas (f ∷ es)

abbrev pub first_off : List Entry → ℕ
first_off [] = 0
first_off (e ∷ es) = e.off

module _ (crc : List ℕ → ℕ) where
  -- The header that `append` writes for a record: its payload has at most MaxPayload bytes there, so
  -- that the conversion of its length to a uint32 keeps it.
  abbrev pub header_of : LogRecord → Header
  header_of r = record {
    kind = r.meta.kind;
    flags = r.meta.flags;
    t_start = r.meta.t_start;
    t_len = r.meta.t_len;
    plen = length r.payload;
    pcrc = crc r.payload;
  }

  abbrev pub record_bytes : LogRecord → List ℕ
  record_bytes r = put_header crc (header_of r) ++ r.payload

  -- The entry that `append` adds.
  unfoldable pub new_entry : LogRecord → LogFile → Entry
  new_entry r f = record (found_entry f.size (header_of r)) {
    deltas = count_delta r.meta.kind (last_deltas f.entries);
  }

  -- `append`. The first argument is the fault of `WriteAt`, the number of bytes that it wrote before
  -- it failed, if it does; what it wrote is cut off again.
  unfoldable pub append_to_file : Option ℕ → LogRecord → LogFile → Reply ℕ × LogFile
  append_to_file fault r f =
      if not (valid_kind r.meta.kind)
      then (refused unknown_kind, f)
      else (if ltb max_payload (length r.payload)
          then (refused too_large, f)
          else (if not f.opened
              then (refused closed_error, f)
              else let e = new_entry r f in
                if is_before (entry_t_end e) (last_t f.entries)
                then (refused out_of_order, f)
                else elim fault [
                  | some k ↦ (
                    refused write_failed,
                    record f { blk = take e.off (write_at e.off (take k (record_bytes r)) f.blk) },
                  )
                  | none ↦ (
                    reply (length f.entries),
                    record f {
                      blk = write_at f.size (record_bytes r) f.blk;
                      entries = f.entries ++ (e ∷ []);
                      size = entry_end e;
                      dirty = true;
                    },
                  )
                ]))

  -- The loop of `readRange` over the entries from number i on, in a buffer that starts at `base`.
  unfoldable pub read_entries : ℕ → List ℕ → ℕ → List Entry → Reply (List LogRecord)
  read_entries base buf i [] = reply []
  read_entries base buf i (e ∷ es) =
      let rest = read_entries base buf (suc i) es in
      let o = e.off - base in
      let payload = take e.plen (drop (o + blk_header_size) buf) in
      elim (parse_header crc (drop o buf)) [
        | none ↦ refused corrupt
        | some h ↦
            if not (matches e h) || not (crc payload == h.pcrc)
            then refused corrupt
            else elim rest [
              | refused x ↦ refused x
              | reply rs ↦ reply (record { meta = entry_meta i e; payload = payload } ∷ rs)
            ]
      ]

  -- `readRange`
  unfoldable pub read_range : ℕ → ℕ → LogFile → Reply (List LogRecord)
  read_range first last f =
      if not f.opened
      then refused closed_error
      else (if ltb last first || leb (length f.entries) last
          then refused no_version
          else let ents = take (last + 1 - first) (drop first f.entries) in
            let base = first_off ents in
            elim (read_at base (end_of ents - base) f.blk) [
              | none ↦ refused short_read
              | some buf ↦ read_entries base buf first ents
            ])

  -- `Series.Read`; a range of one record is never empty.
  unfoldable pub file_read : ℕ → LogFile → Reply LogRecord
  file_read seq f = elim (read_range seq seq f) [
    | refused x ↦ refused x
    | reply [] ↦ refused no_version
    | reply (r ∷ rs) ↦ reply r
  ]

  -- `Series.Chain`
  unfoldable pub file_chain : ℤ → LogFile → Reply (List LogRecord)
  file_chain t f = elim (end_at t f.entries) [
    | zero ↦ reply []
    | suc i ↦ read_range (base_before (suc i) f.entries) i f
  ]
