-- ===== src/Series/File/Chain.antt =====
-- `Chain` of a series file gives what `Chain` of the reference series gives.
use time_shade_db.Prelude.{
  ℕ, zero, suc, ◌+◌, ◌-◌, ◌≤◌, ◌≡◌, refl, ap, ◌∙◌, arith, if◌then◌else◌, ◌==◌,
}
use time_shade_db.Prelude.{false, List, [], ◌∷◌, length, take, drop}
use time_shade_db.Prelude.Int.{ℤ, ltb_ℤ}
use time_shade_db.Prelude.Words.{IsU32}
use time_shade_db.Memstore.Series.{
  LogRecord, Series, reply, t_end, chain, search_end, base_below, is_base_at,
}
use time_shade_db.Series.Format.{entry_t_end}
use time_shade_db.Series.File.{LogFile, set_deltas, count_delta, end_at, base_before, is_base_entry}
use time_shade_db.Series.File.Records.{read_range, file_chain}
use time_shade_db.Series.File.Layout.{entries_at}
use time_shade_db.Series.File.Deltas.{}
use time_shade_db.Series.File.Refines.{Refines}
use time_shade_db.Series.File.Reading.{IsLog-IsNumbered, read_range-IsFile}

search_end_le : (t : ℤ) (rs : List LogRecord) → search_end t rs ≤ length rs
unfolding search_end
search_end_le t [] = omega arith
search_end_le t (r ∷ rs) = let rest = search_end_le t rs in ground arith

base_below_le : (i : ℕ) (rs : List LogRecord) → base_below (suc i) rs ≤ i
unfolding base_below
base_below_le zero rs = ground arith
base_below_le (suc i) rs = let rest = base_below_le i rs in ground arith

module _ (crc : List ℕ → ℕ) (crc32 : (b : List ℕ) → IsU32 (crc b)) where
  end_at-search_end :
      (t : ℤ) (n off : ℕ) (rs : List LogRecord)
      → end_at t (set_deltas n (entries_at crc crc32 off rs)) ≡ search_end t rs
  unfolding end_at set_deltas entries_at search_end entry_t_end t_end
  end_at-search_end t n off [] = refl
  end_at-search_end t n off (r ∷ rs) =
      ap (λ k. if ltb_ℤ t (t_end r.meta) then 0 else suc k)
        (end_at-search_end t (count_delta r.meta.kind n) (off + 32 + length r.payload) rs)

  is_base_entry-is_base_at :
      (i n off : ℕ) (rs : List LogRecord)
      → is_base_entry i (set_deltas n (entries_at crc crc32 off rs)) ≡ is_base_at i rs
  unfolding set_deltas entries_at is_base_at
  is_base_entry-is_base_at i n off [] = refl
  is_base_entry-is_base_at zero n off (r ∷ rs) = refl
  is_base_entry-is_base_at (suc i) n off (r ∷ rs) =
      is_base_entry-is_base_at i (count_delta r.meta.kind n) (off + 32 + length r.payload) rs

  base_before-base_below :
      (i : ℕ) (rs : List LogRecord)
      → base_before i (set_deltas 0 (entries_at crc crc32 0 rs)) ≡ base_below i rs
  unfolding base_before base_below
  base_before-base_below zero rs = refl
  base_before-base_below (suc i) rs =
      λ j. if is_base_entry-is_base_at i 0 0 rs j then i else base_before-base_below i rs j

  chain_run :
      (f : LogFile) (s : Series) (i : ℕ)
      → Refines crc crc32 f s
      → suc i ≤ length s.recs
      → read_range crc (base_before (suc i) f.entries) i f
        ≡ reply (take (suc i - base_below (suc i) s.recs) (drop (base_below (suc i) s.recs) s.recs))
  chain_run f s i v h =
      ap (λ k. read_range crc k i f)
        (ap (base_before (suc i)) v.file_is.entries_are ∙ base_before-base_below (suc i) s.recs)
      ∙ (read_range-IsFile crc crc32 f s.recs (base_below (suc i) s.recs) i v.file_is
            (IsLog-IsNumbered 0 s.recs v.series_is) (base_below_le i s.recs) (omega arith)
          ∙ ap (λ k. reply (take k (drop (base_below (suc i) s.recs) s.recs))) count)
    where
      count : i + 1 - base_below (suc i) s.recs ≡ suc i - base_below (suc i) s.recs
      count = omega arith

  chain_at :
      (f : LogFile) (s : Series) (t : ℤ) (n : ℕ)
      → search_end t s.recs ≡ n
      → Refines crc crc32 f s
      → file_chain crc t f ≡ chain t s
  unfolding file_chain chain
  chain_at f s t zero e v = rw (file_chain, ends, chain, v.open_is, e) refl
    where
      ends : end_at t f.entries ≡ 0
      ends = ap (end_at t) v.file_is.entries_are ∙ end_at-search_end t 0 0 s.recs ∙ e
  chain_at f s t (suc i) e v =
      rw (file_chain, ends, chain, v.open_is, e, nonzero)
        (chain_run f s i v (omega (arith, search_end_le t s.recs)))
    where
      ends : end_at t f.entries ≡ suc i
      ends = ap (end_at t) v.file_is.entries_are ∙ end_at-search_end t 0 0 s.recs ∙ e

      nonzero : (suc i == 0) ≡ false
      nonzero = ground arith

  -- For a checksum with values below 2^32 and a file and a reference series that hold the same
  -- records: `Chain` at any time reads from the file the records that `Chain` of the reference
  -- series returns.
  pub file_chain-chain :
      (f : LogFile) (s : Series) (t : ℤ) → Refines crc crc32 f s → file_chain crc t f ≡ chain t s
  file_chain-chain f s t v = chain_at f s t (search_end t s.recs) refl v
