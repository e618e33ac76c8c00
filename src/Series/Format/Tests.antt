-- ===== src/Series/Format/Tests.antt =====
-- The header and the index record of one record.
use time_shade_db.Prelude.{ℕ, ◌+◌, ◌%◌, ◌^◌, ◌≡◌, refl, arith, some, List, [], ◌∷◌, ◌++◌}
use time_shade_db.Prelude.Int.{pos}
use time_shade_db.Prelude.Words.{IsU32}
use time_shade_db.Series.Format.{Header, Entry, header_front, put_header, parse_header, valid_kind}
use time_shade_db.Series.Format.RoundTrip.{IsHeader, IsEntry, parse_header-put_header}

abbrev total : List ℕ → ℕ
total [] = 0
total (b ∷ bs) = b + total bs

abbrev checksum : List ℕ → ℕ
checksum b = total b % 2 ^ 32

checksum-IsU32 : (b : List ℕ) → IsU32 (checksum b)
checksum-IsU32 b = omega arith

abbrev one_header : Header
one_header = record {
  kind = 2;
  flags = 0;
  t_start = pos 1700000000000;
  t_len = 250;
  plen = 3;
  pcrc = 6;
}

one_header-IsHeader : IsHeader one_header
unfolding valid_kind
one_header-IsHeader = record {
  kind_is = refl;
  t_start_is = (omega arith, omega arith);
  t_len_is = omega arith;
  plen_is = omega arith;
  pcrc_is = omega arith;
}

parse_header-put_header_example :
    parse_header checksum (put_header checksum one_header ++ (1 ∷ 2 ∷ 3 ∷ [])) ≡ some one_header
parse_header-put_header_example =
    parse_header-put_header checksum one_header (1 ∷ 2 ∷ 3 ∷ [])
      (checksum-IsU32 (header_front one_header)) one_header-IsHeader

abbrev one_entry : Entry
one_entry = record {
  t_start = pos 9;
  off = 64;
  t_len = 1;
  plen = 3;
  deltas = 5;
  kind = 1;
  flags = 0;
}

one_entry-IsEntry : IsEntry one_entry
one_entry-IsEntry = record {
  t_start_is = (omega arith, omega arith);
  t_len_is = omega arith;
  plen_is = omega arith;
  off_is = omega arith;
}
