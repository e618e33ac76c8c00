-- ===== src/Series/File.antt =====
-- internal/series/file.go: one open series, its two files and its index in memory; and the methods
-- of internal/series/series.go that read it. The files are the lists of their bytes. A
-- read beyond the end fails, and the write of `append` where its argument tells so; the other calls
-- of package os succeed. Locks, file handles and the LRU list are left out.
pub mod Writing
pub mod Recover
pub mod Records
pub mod Layout
pub mod Reading
pub mod Chain
pub mod Refines
pub mod Scan
pub mod Whole
pub mod Index
pub mod Invariant
pub mod Deltas
pub mod Recovery
pub mod Reopen
pub mod Intact
pub mod Closing
pub mod Attempts
mod Tests
use time_shade_db.Prelude.{
  ℕ, zero, suc, ◌+◌, ◌-◌, ◌*◌, ◌/◌, ◌%◌, ◌^◌, ltb, leb, ◌==◌, if◌then◌else◌, not, ◌&&◌, ◌||◌,
}
use time_shade_db.Prelude.{
  Bool, true, false, Option, none, some, List, [], ◌∷◌, ◌++◌, length, take, drop, get_elem?,
}
use time_shade_db.Prelude.Int.{ℤ, pos, ltb_ℤ}
use time_shade_db.Memstore.Series.{
  LogRecord, RecordMeta, Reply, reply, refused, record_delta, is_base,
}
use time_shade_db.Memstore.Series.{
  closed_error, unknown_kind, too_large, corrupt, short_read, out_of_order, no_version,
}
use time_shade_db.Series.Format.{
  Header, Entry, entry_t_end, entry_end, entry_meta, put_header, parse_header,
}
use time_shade_db.Series.Format.{
  put_index, parse_index, matches, valid_kind, max_payload, blk_header_size, index_rec_size,
}

-- `file`; `opened` is `blk != nil`, and blk and idx are the contents of the two files.
pub record LogFile : Type 0 where
  pub opened : Bool
  pub blk : List ℕ
  pub idx : List ℕ
  pub entries : List Entry
  pub size : ℕ
  pub written : ℕ
  pub dirty : Bool

pub record RecoveryReport : Type 0 where
  pub dropped_index : ℕ
  pub rebuilt_index : ℕ
  pub truncated_bytes : ℕ

-- `WriteAt` of some bytes at an offset within the file or at its end.
unfoldable pub write_at : ℕ → List ℕ → List ℕ → List ℕ
write_at off bytes file = take off file ++ (bytes ++ drop (off + length bytes) file)

-- `ReadAt` of n bytes at an offset; `none` is the error of a read beyond the end.
unfoldable pub read_at : ℕ → ℕ → List ℕ → Option (List ℕ)
read_at off n file =
    let buf = take n (drop off file) in if ltb (length buf) n then none else some buf

-- The time of the last entry, if there is one.
abbrev pub last_t : List Entry → Option ℤ
last_t [] = none
last_t (e ∷ []) = some (entry_t_end e)
last_t (e ∷ f ∷ es) = last_t (f ∷ es)

abbrev pub is_before : ℤ → Option ℤ → Bool
is_before t none = false
is_before t (some p) = ltb_ℤ t p

-- `len(raw) / IndexRecSize` index records.
unfoldable pub parse_entries : ℕ → List ℕ → List Entry
parse_entries zero raw = []
parse_entries (suc n) raw = parse_index raw ∷ parse_entries n (drop index_rec_size raw)

-- The test of the contiguity loop of `recover`.
unfoldable pub is_linked : ℕ → ℤ → Entry → Bool
is_linked prev_end prev_t e =
    (e.off == prev_end) && (valid_kind e.kind && not (ltb_ℤ (entry_t_end e) prev_t))

-- How many entries it leaves.
unfoldable pub linked_count : ℕ → ℤ → List Entry → ℕ
linked_count prev_end prev_t [] = 0
linked_count prev_end prev_t (e ∷ es) =
    let rest = linked_count (entry_end e) (entry_t_end e) es in
    if is_linked prev_end prev_t e then suc rest else 0

-- The count of deltas up to each entry, as the last loop of `recover` sets it.
unfoldable pub count_delta : ℕ → ℕ → ℕ
count_delta kind n = if kind == record_delta then (n + 1) % 2 ^ 32 else n

unfoldable pub set_deltas : ℕ → List Entry → List Entry
set_deltas n [] = []
set_deltas n (e ∷ es) = let n' = count_delta e.kind n in record e { deltas = n' } ∷ set_deltas n' es

unfoldable pub index_bytes : List Entry → List ℕ
index_bytes [] = []
index_bytes (e ∷ es) = put_index e ++ index_bytes es

-- `writeIndex`
unfoldable pub write_index : LogFile → LogFile
write_index f =
    let pending = drop f.written f.entries in
    if length pending == 0 then f else record f {
      idx = write_at (f.written * index_rec_size) (index_bytes pending) f.idx;
      written = f.written + length pending;
    }

-- `syncLocked`
unfoldable pub sync : LogFile → LogFile
sync f = if not f.opened then f else write_index (record f { dirty = false })

-- `close`
unfoldable pub close_file : LogFile → LogFile
close_file f = if not f.opened then f else record (sync f) { opened = false; entries = [] }

-- `endAt`: the entries stand in the order of their times, so the search gives the number of those
-- from the front with a time of at most t.
unfoldable pub end_at : ℤ → List Entry → ℕ
end_at t [] = 0
end_at t (e ∷ es) = let rest = end_at t es in if ltb_ℤ t (entry_t_end e) then 0 else suc rest

abbrev pub is_base_entry : ℕ → List Entry → Bool
is_base_entry i es = elim (get_elem? es i) [ none ↦ false | some e ↦ is_base e.kind ]

-- `baseAtOrBefore` of i - 1
unfoldable pub base_before : ℕ → List Entry → ℕ
base_before zero es = 0
base_before (suc i) es = let rest = base_before i es in if is_base_entry i es then i else rest

-- `Series.Len`
unfoldable pub file_len : LogFile → ℕ
file_len f = length f.entries

-- `Series.Meta`
unfoldable pub file_meta : ℕ → LogFile → Reply RecordMeta
file_meta seq f = if not f.opened then refused closed_error else elim (get_elem? f.entries seq) [
  | none ↦ refused no_version
  | some e ↦ reply (entry_meta seq e)
]

-- `Series.VersionAt`: the deltas up to a time.
unfoldable pub file_version_at : ℤ → LogFile → ℕ
file_version_at t f = elim (end_at t f.entries) [
  | zero ↦ 0
  | suc i ↦ elim (get_elem? f.entries i) [ none ↦ 0 | some e ↦ e.deltas ]
]
