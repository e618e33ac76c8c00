-- ===== src/Memstore/Series/Tests.antt =====
-- A series of three records.
use time_shade_db.Prelude.{ℕ, ◌<◌, ◌≡◌, refl, arith, List, [], ◌∷◌, true, false, length}
use time_shade_db.Prelude.Int.{ℤ, pos}
use time_shade_db.Memstore.Series.{
  RecordMeta, LogRecord, Series, Reply, reply, refused, bad_key, out_of_order, new_series,
  append_record,
}
use time_shade_db.Memstore.Series.{chain, record_delta, record_keyframe, valid_series_name}
use time_shade_db.Memstore.Series.Append.{IsSeries, append_record-IsSeries}
use time_shade_db.Memstore.Series.Chain.{IsChainAt, chain-IsChainAt}

abbrev record_at : ℤ → ℕ → LogRecord
record_at t k = record {
  meta = record { seq = 0; t_start = t; t_len = 10; kind = k; flags = 0; len = 0 };
  payload = 7 ∷ 8 ∷ [];
}

abbrev series1 : Series
series1 = (append_record (record_at (pos 0) record_delta) new_series).1

abbrev series2 : Series
series2 = (append_record (record_at (pos 10) record_keyframe) series1).1

abbrev series3 : Series
series3 = (append_record (record_at (pos 20) record_delta) series2).1

series2-IsSeries : IsSeries series2
series2-IsSeries =
    append_record-IsSeries (record_at (pos 10) record_keyframe) series1
      (append_record-IsSeries (record_at (pos 0) record_delta) new_series (unfold new_series in tt))

series3-IsSeries : IsSeries series3
series3-IsSeries = append_record-IsSeries (record_at (pos 20) record_delta) series2 series2-IsSeries

append_record-IsSeries_example : IsSeries series3
append_record-IsSeries_example =
    append_record-IsSeries (record_at (pos 20) record_delta) series2 series2-IsSeries

early_test : (append_record (record_at (pos 5) record_delta) series2).0 ≡ refused out_of_order
unfolding append_record new_series time_shade_db.Memstore.Series.is_early
    time_shade_db.Memstore.Series.t_end time_shade_db.Prelude.Int.int64
    time_shade_db.Prelude.Int.◌+ℤ◌
early_test = refl

open3 : series3.closed ≡ false
unfolding append_record new_series time_shade_db.Memstore.Series.is_early
    time_shade_db.Memstore.Series.t_end time_shade_db.Prelude.Int.int64
    time_shade_db.Prelude.Int.◌+ℤ◌
open3 = refl

chain-IsChainAt_example :
    (out : List LogRecord) × (chain (pos 30) series3 ≡ reply out)
    × IsChainAt (pos 30) series3.recs out
chain-IsChainAt_example = chain-IsChainAt (pos 30) series3 open3 series3-IsSeries

name_test : valid_series_name (b'a' ∷ b'/' ∷ b'.' ∷ b'.' ∷ []) ≡ false
unfolding valid_series_name time_shade_db.Memstore.Series.all_parts
    time_shade_db.Memstore.Series.split_slash time_shade_db.Memstore.Series.is_part
    time_shade_db.Core.Keys.same_bytes time_shade_db.Memstore.Series.all_part_bytes
    time_shade_db.Memstore.Series.is_part_byte
name_test = refl
