-- ===== src/Series/Example.antt =====
-- A series file of two records for the tests, with a checksum that adds the bytes.
use time_shade_db.Prelude.{ℕ, ◌+◌, ◌%◌, ◌^◌, refl, arith, true, false, none, List, [], ◌∷◌}
use time_shade_db.Prelude.Int.{pos}
use time_shade_db.Prelude.Words.{IsU32}
use time_shade_db.Memstore.Series.{LogRecord, Series, new_series, append_record}
use time_shade_db.Series.File.{LogFile, set_deltas, index_bytes}
use time_shade_db.Series.File.Records.{new_entry, append_to_file}
use time_shade_db.Series.Format.{valid_kind, entry_t_end}
use time_shade_db.Series.File.Layout.{blk_bytes, entries_at}
use time_shade_db.Series.File.Refines.{Refines, IsFitting, append_to_file-Refines}

abbrev pub total : List ℕ → ℕ
total [] = 0
total (b ∷ bs) = b + total bs

abbrev pub checksum : List ℕ → ℕ
checksum b = total b % 2 ^ 32

pub checksum-IsU32 : (b : List ℕ) → IsU32 (checksum b)
checksum-IsU32 b = omega arith

abbrev pub empty_file : LogFile
empty_file = record {
  opened = true;
  blk = [];
  idx = [];
  entries = [];
  size = 0;
  written = 0;
  dirty = false;
}

pub empty_file-Refines : Refines checksum checksum-IsU32 empty_file new_series
unfolding new_series blk_bytes entries_at set_deltas index_bytes
empty_file-Refines = record {
  file_is = record {
    open_is = refl;
    blk_is = refl;
    size_is = refl;
    entries_are = refl;
    written_is = omega arith;
    idx_is = refl;
    storable = tt;
    ordered = tt;
    fits = omega arith;
  };
  series_is = tt;
  open_is = refl;
}

abbrev pub record_of : ℕ → ℕ → List ℕ → LogRecord
record_of kind t payload = record {
  meta = record { seq = 0; t_start = pos t; t_len = 10; kind = kind; flags = 0; len = 0 };
  payload = payload;
}

-- A keyframe and a delta.
abbrev pub base : LogRecord
base = record_of 2 100 (1 ∷ 2 ∷ 3 ∷ [])

abbrev pub change : LogRecord
change = record_of 1 120 (7 ∷ [])

abbrev pub file1 : LogFile
file1 = (append_to_file checksum none base empty_file).1

abbrev pub series1 : Series
series1 = (append_record base new_series).1

pub base-IsFitting : IsFitting checksum checksum-IsU32 base empty_file
base-IsFitting = record {
  t_start_is = (omega arith, omega arith);
  t_len_is = omega arith;
  payload_is = omega arith;
  room = omega arith;
}

pub file1-Refines : Refines checksum checksum-IsU32 file1 series1
file1-Refines =
    (append_to_file-Refines checksum checksum-IsU32 base empty_file new_series empty_file-Refines
      base-IsFitting).1

pub change-IsFitting : IsFitting checksum checksum-IsU32 change file1
unfolding append_to_file valid_kind new_entry entry_t_end
change-IsFitting = record {
  t_start_is = (omega arith, omega arith);
  t_len_is = omega arith;
  payload_is = omega arith;
  room = omega arith;
}

abbrev pub file2 : LogFile
file2 = (append_to_file checksum none change file1).1

abbrev pub series2 : Series
series2 = (append_record change series1).1

pub file2-Refines : Refines checksum checksum-IsU32 file2 series2
file2-Refines =
    (append_to_file-Refines checksum checksum-IsU32 change file1 series1 file1-Refines
      change-IsFitting).1
