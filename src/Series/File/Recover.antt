-- ===== src/Series/File/Recover.antt =====
-- `recover` of internal/series/file.go, which opens a series: the index is checked against the
-- records, the records behind it are found, and torn ends are cut off.
use time_shade_db.Prelude.{ℕ, zero, suc, ◌+◌, ◌-◌, ◌*◌, ◌/◌, leb, ◌==◌, if◌then◌else◌, not, ◌&&◌}
use time_shade_db.Prelude.{
  Bool, true, false, Option, none, some, List, [], ◌∷◌, ◌++◌, length, take, drop, get_elem?,
}
use time_shade_db.Prelude.Int.{ℤ, pos}
use time_shade_db.Memstore.Series.{}
use time_shade_db.Memstore.Series.{}
use time_shade_db.Series.Format.{Header, Entry, entry_t_end, entry_end, parse_header}
use time_shade_db.Series.Format.{matches, blk_header_size, index_rec_size}
use time_shade_db.Series.File.{
  LogFile, RecoveryReport, read_at, last_t, is_before, parse_entries, linked_count, set_deltas,
  write_index,
}

-- The entry of a header at a position.
abbrev pub found_entry : ℕ → Header → Entry
found_entry at_pos h = record {
  t_start = h.t_start;
  off = at_pos;
  t_len = h.t_len;
  plen = h.plen;
  deltas = 0;
  kind = h.kind;
  flags = h.flags;
}

abbrev pub end_of : List Entry → ℕ
end_of [] = 0
end_of (e ∷ []) = entry_end e
end_of (e ∷ f ∷ es) = end_of (f ∷ es)

-- What `recover` leaves in the files and in memory before it completes the index.
abbrev pub recovered_file : List ℕ → List ℕ → ℕ → List Entry → List Entry → ℕ → LogFile
recovered_file blk raw n kept added p = record {
  opened = true;
  blk = take p blk;
  idx = take (n * index_rec_size) raw;
  entries = set_deltas 0 (kept ++ added);
  size = p;
  written = n;
  dirty = false;
}

-- The end of `recover`, from the n entries that the index gave, those that the scan added and
-- where these end.
unfoldable pub finish_recovery :
    List ℕ → List ℕ → ℕ → List Entry → List Entry → ℕ → LogFile × RecoveryReport
finish_recovery blk raw n kept added p =
    let f = recovered_file blk raw n kept added p in
    (
      if (length added == 0) && (length blk == p) then f else write_index f,
      record {
        dropped_index = length raw / index_rec_size - n;
        rebuilt_index = length added;
        truncated_bytes = length blk - p;
      },
    )

module _ (crc : List ℕ → ℕ) where
  -- `checkRecord`
  unfoldable pub check_record : List ℕ → Entry → Bool
  check_record blk e = elim (read_at e.off (blk_header_size + e.plen) blk) [
    | none ↦ false
    | some buf ↦ elim (parse_header crc buf) [
      | none ↦ false
      | some h ↦ matches e h && (crc (drop blk_header_size buf) == h.pcrc)
    ]
  ]

  -- The loop that drops index records from the end.
  unfoldable pub drop_bad : List ℕ → List Entry → ℕ → ℕ
  drop_bad blk es zero = 0
  drop_bad blk es (suc n) =
      let rest = drop_bad blk es n in
      elim (get_elem? es n) [
        | none ↦ rest
        | some e ↦ if leb (entry_end e) (length blk) && check_record blk e then suc n else rest
      ]

  -- Whether the scan takes the record of a header.
  unfoldable pub is_sound : List ℕ → Option ℤ → ℕ → Header → Bool
  is_sound blk last at_pos h =
      let e = found_entry at_pos h in
      leb (entry_end e) (length blk) && (not (is_before (entry_t_end e) last) && check_record blk e)

  -- The scan of .blk after the last indexed record: the records found, and where they end. Each
  -- takes at least 32 bytes, so the length of the file is fuel enough.
  unfoldable pub scan : ℕ → List ℕ → Option ℤ → ℕ → List Entry × ℕ
  scan zero blk last at_pos = ([], at_pos)
  scan (suc fuel) blk last at_pos = elim (read_at at_pos blk_header_size blk) [
    | none ↦ ([], at_pos)
    | some hb ↦ elim (parse_header crc hb) [
      | none ↦ ([], at_pos)
      | some h ↦
          let e = found_entry at_pos h in
          let (es, p) = scan fuel blk (some (entry_t_end e)) (entry_end e) in
          if is_sound blk last at_pos h then (e ∷ es, p) else ([], at_pos)
    ]
  ]

  -- `recover` on the contents of the two files.
  unfoldable pub recover : List ℕ → List ℕ → LogFile × RecoveryReport
  recover blk raw =
      let parsed = parse_entries (length raw / index_rec_size) raw in
      let n = drop_bad blk parsed (linked_count 0 (pos 0) parsed) in
      let kept = take n parsed in
      let found = scan (length blk) blk (last_t kept) (end_of kept) in
      finish_recovery blk raw n kept found.0 found.1
