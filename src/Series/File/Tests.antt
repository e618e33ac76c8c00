-- ===== src/Series/File/Tests.antt =====
-- The theorems at the series file of two records.
use time_shade_db.Prelude.{◌≡◌, refl, arith, none, length-take, take}
use time_shade_db.Prelude.Int.{pos}
use time_shade_db.Memstore.Series.{new_series, append_record, chain}
use time_shade_db.Series.File.{close_file}
use time_shade_db.Series.File.Records.{append_to_file, file_chain}
use time_shade_db.Series.File.Recover.{recover, scan}
use time_shade_db.Series.File.Whole.{whole_records}
use time_shade_db.Series.File.Invariant.{IsFile}
use time_shade_db.Series.File.Refines.{Refines, append_to_file-Refines}
use time_shade_db.Series.File.Recovery.{recover-IsFile}
use time_shade_db.Series.File.Reopen.{scan_enough}
use time_shade_db.Series.File.Closing.{IsClosed, recover-close_file}
use time_shade_db.Series.File.Intact.{no_repair}
use time_shade_db.Series.File.Attempts.{Attempt, append_to_file-Attempt}
use time_shade_db.Series.File.Layout.{IsOrdered, entries_at}
use time_shade_db.Prelude.{some, inr, length, false}
use time_shade_db.Prelude.Int.{int64, ◌+ℤ◌}
use time_shade_db.Memstore.Series.{is_early, t_end}
use time_shade_db.Series.File.{index_bytes}
use time_shade_db.Series.File.Chain.{file_chain-chain}
use time_shade_db.Series.Example.{
  checksum, change, file1-Refines, change-IsFitting, empty_file, base, file1, series1, file2,
  series2, checksum-IsU32, empty_file-Refines, base-IsFitting, file2-Refines,
}

append_to_file-Refines_example :
    ((append_to_file checksum none base empty_file).0 ≡ (append_record base new_series).0)
    × Refines checksum checksum-IsU32 file1 series1
append_to_file-Refines_example =
    append_to_file-Refines checksum checksum-IsU32 base empty_file new_series empty_file-Refines
      base-IsFitting

recover-IsFile_example :
    IsFile checksum checksum-IsU32
      (recover checksum (take 50 file2.blk) (take 0 file2.idx)).0
      (whole_records 50 series2.recs)
recover-IsFile_example =
    recover-IsFile checksum checksum-IsU32 file2 series2.recs 50 0 file2-Refines.file_is

in_time : IsOrdered (some (pos 0)) series2.recs
unfolding append_record is_early t_end new_series int64 ◌+ℤ◌
in_time = (refl, (refl, tt))

recover-close_file_example :
    IsClosed checksum checksum-IsU32 (close_file file2) series2.recs
    × (recover checksum (close_file file2).blk (close_file file2).idx ≡ (
      record file2 {
        idx = index_bytes (entries_at checksum checksum-IsU32 0 series2.recs);
        written = length series2.recs;
        dirty = false;
      },
      no_repair,
    ))
recover-close_file_example =
    recover-close_file checksum checksum-IsU32 file2 series2.recs file2-Refines.file_is in_time

file_chain-chain_example : file_chain checksum (pos 115) file2 ≡ chain (pos 115) series2
file_chain-chain_example =
    file_chain-chain checksum checksum-IsU32 file2 series2 (pos 115) file2-Refines

scan_enough_example :
    scan checksum 90 (take 40 file1.blk) none 0 ≡ scan checksum 40 (take 40 file1.blk) none 0
scan_enough_example =
    scan_enough checksum 40 90 (take 40 file1.blk) none 0 (omega (arith, length-take 40 file1.blk))
      (omega arith)

-- A write that fails after three bytes.
append_to_file-Attempt_example :
    Attempt checksum checksum-IsU32
      (some 3)
      change
      file1
      series1.recs
      (append_to_file checksum (some 3) change file1)
append_to_file-Attempt_example =
    append_to_file-Attempt checksum checksum-IsU32 (some 3) change file1 series1.recs
      (inr file1-Refines.file_is) change-IsFitting.t_start_is change-IsFitting.t_len_is
      change-IsFitting.room
