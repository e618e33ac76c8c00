-- ===== src/Series/Versions/Tests.antt =====
-- The theorems at the series file of two records.
use time_shade_db.Prelude.{ℕ, ◌≡◌, refl, arith, true, some}
use time_shade_db.Prelude.Int.{int64, ◌+ℤ◌}
use time_shade_db.Memstore.Series.{append_record, is_early, t_end, new_series}
use time_shade_db.Series.Versions.{version_seq, Plan, plan_version}
use time_shade_db.Series.Versions.Count.{delta_count, IsVersion, version_seq-IsVersion}
use time_shade_db.Series.Versions.Plans.{IsPlan, plan_version-IsPlan}
use time_shade_db.Series.Example.{checksum, checksum-IsU32, file2, series2, file2-Refines}

one_delta : delta_count series2.recs ≡ 1
unfolding delta_count append_record is_early t_end new_series int64 ◌+ℤ◌
one_delta = refl

version_seq-IsVersion_example :
    (i : ℕ) × ((version_seq 1 file2.entries ≡ some i) × IsVersion 1 0 i series2.recs)
version_seq-IsVersion_example =
    version_seq-IsVersion checksum checksum-IsU32 file2 series2.recs 1 file2-Refines.file_is
      (omega (arith, one_delta)) (omega arith) (omega (arith, one_delta))

plan_version-IsPlan_example :
    (i : ℕ) × (p : Plan) × (plan_version 1 (some (λ v. true)) 4 file2.entries ≡ some p)
    × IsVersion 1 0 i series2.recs
    × IsPlan 1 (some (λ v. true)) 4 file2.entries series2.recs i p
plan_version-IsPlan_example =
    plan_version-IsPlan checksum checksum-IsU32 file2 series2.recs 1 (some (λ v. true)) 4
      file2-Refines.file_is (omega (arith, one_delta)) (omega arith) (omega (arith, one_delta))
