-- ===== src/Series/Format.antt =====
-- internal/series/format.go: the record headers of a .blk file and the records of an .idx file. The
-- checksum CRC-32C stands in hash/crc32 and is a parameter; an offset is never negative and below
-- 2^63, so it is a number.
pub mod RoundTrip
mod Tests
use time_shade_db.Prelude.{
  ℕ, ◌+◌, ◌*◌, ◌/◌, ◌%◌, ◌^◌, ltb, leb, ◌==◌, if◌then◌else◌, not, ◌&&◌, ◌||◌,
}
use time_shade_db.Prelude.{
  Bool, Option, none, some, List, [], ◌∷◌, ◌++◌, length, take, drop, get_or,
}
use time_shade_db.Prelude.Int.{ℤ, pos, ◌==ℤ◌, ◌+ℤ◌, bits64, signed64, int64}
use time_shade_db.Prelude.Words.{put_u32, put_u64, get_u32, get_u64}
use time_shade_db.Core.Keys.{same_bytes}
use time_shade_db.Memstore.Series.{record_delta, record_keyframe, record_snapshot, RecordMeta}

-- `HeaderSize` and `IndexRecSize`
abbrev pub blk_header_size : ℕ
blk_header_size = 32

abbrev pub index_rec_size : ℕ
index_rec_size = 24

-- `MaxPayload`, 1<<24 - 1
abbrev pub max_payload : ℕ
max_payload = 16777215

-- `magic`
abbrev pub magic_blk : List ℕ
magic_blk = b'T' ∷ b'S' ∷ b'B' ∷ b'3' ∷ []

pub record Header : Type 0 where
  pub kind : ℕ
  pub flags : ℕ
  pub t_start : ℤ
  pub t_len : ℕ
  pub plen : ℕ
  pub pcrc : ℕ

pub record Entry : Type 0 where
  pub t_start : ℤ
  pub off : ℕ
  pub t_len : ℕ
  pub plen : ℕ
  pub deltas : ℕ
  pub kind : ℕ
  pub flags : ℕ

-- `validKind`
unfoldable pub valid_kind : ℕ → Bool
valid_kind k = (k == record_delta) || ((k == record_keyframe) || (k == record_snapshot))

-- `entry.tEnd`
unfoldable pub entry_t_end : Entry → ℤ
entry_t_end e = int64 (e.t_start +ℤ pos e.t_len)

-- `entry.end`
abbrev pub entry_end : Entry → ℕ
entry_end e = e.off + blk_header_size + e.plen

-- `entry.meta`
unfoldable pub entry_meta : ℕ → Entry → RecordMeta
entry_meta seq e = record {
  seq = seq;
  t_start = e.t_start;
  t_len = e.t_len;
  kind = e.kind;
  flags = e.flags;
  len = e.plen;
}

-- The first 28 bytes that `putHeader` writes.
abbrev pub header_front : Header → List ℕ
header_front h =
    magic_blk
    ++ (h.kind ∷ h.flags ∷ 0 ∷ 0 ∷ [])
    ++ put_u64 (bits64 h.t_start)
    ++ put_u32 h.t_len
    ++ put_u32 h.plen
    ++ put_u32 h.pcrc

-- The six bytes of an offset.
abbrev pub put_u48 : ℕ → List ℕ
put_u48 v =
    (v % 256)
    ∷ (v / 2 ^ 8 % 256)
    ∷ (v / 2 ^ 16 % 256)
    ∷ (v / 2 ^ 24 % 256)
    ∷ (v / 2 ^ 32 % 256)
    ∷ (v / 2 ^ 40 % 256)
    ∷ []

abbrev pub get_u48 : List ℕ → ℕ
get_u48 b =
    get_or b 0 0
    + 2 ^ 8 * get_or b 1 0
    + 2 ^ 16 * get_or b 2 0
    + 2 ^ 24 * get_or b 3 0
    + 2 ^ 32 * get_or b 4 0
    + 2 ^ 40 * get_or b 5 0

-- The three bytes of a payload length.
abbrev pub put_u24 : ℕ → List ℕ
put_u24 v = (v % 256) ∷ (v / 2 ^ 8 % 256) ∷ (v / 2 ^ 16 % 256) ∷ []

abbrev pub get_u24 : List ℕ → ℕ
get_u24 b = get_or b 0 0 + 2 ^ 8 * get_or b 1 0 + 2 ^ 16 * get_or b 2 0

-- `putIndex`
unfoldable pub put_index : Entry → List ℕ
put_index e =
    put_u64 (bits64 e.t_start)
    ++ put_u32 e.t_len
    ++ put_u48 e.off
    ++ put_u24 e.plen
    ++ (e.kind ∷ e.flags ∷ 0 ∷ [])

-- `parseIndex`
unfoldable pub parse_index : List ℕ → Entry
parse_index b = record {
  t_start = signed64 (get_u64 b);
  off = get_u48 (drop 12 b);
  t_len = get_u32 (drop 8 b);
  plen = get_u24 (drop 18 b);
  deltas = 0;
  kind = get_or b 21 0;
  flags = get_or b 22 0;
}

-- `entry.matches`
unfoldable pub matches : Entry → Header → Bool
matches e h =
    (e.kind == h.kind)
    && ((e.flags == h.flags)
        && ((e.t_start ==ℤ h.t_start) && ((e.t_len == h.t_len) && (e.plen == h.plen))))

module _ (crc : List ℕ → ℕ) where
  -- `putHeader`
  unfoldable pub put_header : Header → List ℕ
  put_header h = header_front h ++ put_u32 (crc (header_front h))

  -- `parseHeader`; `none` is ErrCorrupt.
  unfoldable pub parse_header : List ℕ → Option Header
  parse_header b =
      if ltb (length b) blk_header_size || not (same_bytes (take 4 b) magic_blk)
      then none
      else (if not (get_u32 (drop 28 b) == crc (take 28 b))
          then none
          else let h : Header = record {
            kind = get_or b 4 0;
            flags = get_or b 5 0;
            t_start = signed64 (get_u64 (drop 8 b));
            t_len = get_u32 (drop 16 b);
            plen = get_u32 (drop 20 b);
            pcrc = get_u32 (drop 24 b);
          } in
            if not (valid_kind h.kind) || ltb max_payload h.plen then none else some h)
