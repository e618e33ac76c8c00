-- ===== src/Series/Format/RoundTrip.antt =====
-- The headers and the index records are read back as they were written.
use time_shade_db.Prelude.{ℕ, ◌^◌, ◌≤◌, ◌<◌, ◌≡◌, refl, ap, ◌∙◌, arith, le→ltb_false, ==_iff}
use time_shade_db.Prelude.{true, some, List, [], ◌++◌, length}
use time_shade_db.Prelude.Int.{ℤ, pos, negsuc, bits64, signed64, signed64-bits64, IsI64}
use time_shade_db.Prelude.Words.{IsU32, IsU64, put_u64, get_u64, get_u64-put_u64, get_u32-put_u32}
use time_shade_db.Core.Keys.{same_bytes}
use time_shade_db.Series.Format.{
  Header, Entry, header_front, put_header, parse_header, put_index, parse_index, valid_kind,
  max_payload, put_u48, get_u48, put_u24, get_u24,
}

-- The headers of records that the code writes.
pub record IsHeader (h : Header) : Type 0 where
  pub kind_is : valid_kind h.kind ≡ true
  pub t_start_is : IsI64 h.t_start
  pub t_len_is : IsU32 h.t_len
  pub plen_is : h.plen ≤ max_payload
  pub pcrc_is : IsU32 h.pcrc

bits64-IsU64 : (z : ℤ) → IsU64 (bits64 z)
bits64-IsU64 (pos n) = omega arith
bits64-IsU64 (negsuc n) = omega arith

signed64-put_u64 : (z : ℤ) (r : List ℕ) → IsI64 z → signed64 (get_u64 (put_u64 (bits64 z) ++ r)) ≡ z
signed64-put_u64 z r h =
    ap signed64 (get_u64-put_u64 (bits64 z) r (bits64-IsU64 z)) ∙ signed64-bits64 z h

pub length-put_header : (crc : List ℕ → ℕ) (h : Header) → length (put_header crc h) ≡ 32
unfolding put_header
length-put_header crc h = refl

-- Where the checksum is a uint32: `parseHeader` reads back every header of a valid kind, with fields
-- that fit and a payload of at most MaxPayload bytes, that `putHeader` wrote, whatever follows it.
pub parse_header-put_header :
    (crc : List ℕ → ℕ) (h : Header) (rest : List ℕ)
    → IsU32 (crc (header_front h))
    → IsHeader h
    → parse_header crc (put_header crc h ++ rest) ≡ some h
unfolding parse_header put_header same_bytes
parse_header-put_header crc h rest c v =
    rw
      (
        parse_header,
        le→ltb_false (length (put_header crc h ++ rest)) 32 (omega arith),
        get_u32-put_u32 (crc (header_front h)) rest c,
        (==_iff (crc (header_front h)) (crc (header_front h))).1 refl,
        v.kind_is,
        get_u32-put_u32 h.plen [] (omega (arith, v.plen_is)),
        le→ltb_false 16777215 h.plen v.plen_is,
      )
      (λ i. some (record {
        kind = h.kind;
        flags = h.flags;
        t_start = signed64-put_u64 h.t_start [] v.t_start_is i;
        t_len = get_u32-put_u32 h.t_len [] v.t_len_is i;
        plen = h.plen;
        pcrc = get_u32-put_u32 h.pcrc [] v.pcrc_is i;
      }))

-- The entries that an index record can hold.
pub record IsEntry (e : Entry) : Type 0 where
  pub t_start_is : IsI64 e.t_start
  pub t_len_is : IsU32 e.t_len
  pub plen_is : e.plen ≤ max_payload
  pub off_is : e.off < 2 ^ 48

get_u48-put_u48 : (v : ℕ) (r : List ℕ) → v < 2 ^ 48 → get_u48 (put_u48 v ++ r) ≡ v
get_u48-put_u48 v r h = omega arith

get_u24-put_u24 : (v : ℕ) (r : List ℕ) → v < 2 ^ 24 → get_u24 (put_u24 v ++ r) ≡ v
get_u24-put_u24 v r h = omega arith

pub length-put_index : (e : Entry) → length (put_index e) ≡ 24
unfolding put_index
length-put_index e = refl

-- For an entry whose fields fit, with an offset below 2^48 and a payload of at most MaxPayload
-- bytes, `parseIndex` reads back all that `putIndex` writes: everything but the count of deltas,
-- which is not stored.
pub parse_index-put_index :
    (e : Entry) (rest : List ℕ)
    → IsEntry e
    → parse_index (put_index e ++ rest) ≡ record e { deltas = 0 }
unfolding parse_index put_index
parse_index-put_index e rest v = λ i. record {
  t_start = signed64-put_u64 e.t_start [] v.t_start_is i;
  off = get_u48-put_u48 e.off [] v.off_is i;
  t_len = get_u32-put_u32 e.t_len [] v.t_len_is i;
  plen = get_u24-put_u24 e.plen [] (omega (arith, v.plen_is)) i;
  deltas = 0;
  kind = e.kind;
  flags = e.flags;
}
