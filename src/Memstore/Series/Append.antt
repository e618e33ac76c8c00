-- ===== src/Memstore/Series/Append.antt =====
-- `Append` of a series: the numbering and the order of its records.
use time_shade_db.Prelude.{
  ℕ, suc, ◌+◌, ◌≡◌, refl, arith, Bool, true, false, not, List, [], ◌∷◌, ◌++◌, length,
}
use time_shade_db.Prelude.{if◌then◌else◌, Option, none, some}
use time_shade_db.Prelude.Int.{◌≤ℤ◌}
use time_shade_db.Memstore.Series.{
  LogRecord, Series, Reply, reply, refused, t_end, stored, is_early, is_known, out_of_order,
}
use time_shade_db.Memstore.Series.{append_record, no_version}

-- The records from number n on: numbered in order, with the length of their payload, and no
-- effective time before that of the record before.
abbrev pub IsLog : ℕ → List LogRecord → Type 0
IsLog n [] = Unit {0}
IsLog n (r ∷ []) = (r.meta.seq ≡ n) × (r.meta.len ≡ length r.payload)
IsLog n (r ∷ q ∷ rs) =
    ((r.meta.seq ≡ n) × (r.meta.len ≡ length r.payload))
    × (t_end r.meta ≤ℤ t_end q.meta)
    × IsLog (suc n) (q ∷ rs)

-- The invariant of a series.
abbrev pub IsSeries : Series → Type 0
IsSeries s = IsLog 0 s.recs

IsLog-append :
    (n : ℕ) (rs : List LogRecord) (r : LogRecord)
    → IsLog n rs
    → r.meta.seq ≡ n + length rs
    → r.meta.len ≡ length r.payload
    → is_early r rs ≡ false
    → IsLog n (rs ++ (r ∷ []))
unfolding is_early
IsLog-append n [] r h e l o = (omega arith, l)
IsLog-append n (p ∷ []) r h e l o = (h, ground arith, (omega arith, l))
IsLog-append n (p ∷ q ∷ rs) r h e l o =
    (h.0, h.1, IsLog-append (suc n) (q ∷ rs) r h.2 (omega arith) l o)

-- `Append` keeps a series in order: its records are numbered from 0 in the order in which they
-- were stored, with the lengths of their payloads, and no effective time is before an earlier one.
pub append_record-IsSeries :
    (r : LogRecord) (s : Series) → IsSeries s → IsSeries (append_record r s).1
unfolding append_record
append_record-IsSeries r s h =
    if-IsSeries s.closed s _ _ h
      (if-IsSeries (not (is_known r.meta.kind)) s _ _ h (by_order (is_early r s.recs) refl))
  where
    if-IsSeries :
        (b : Bool) (s : Series) (x y : Reply ℕ × Series)
        → IsSeries x.1
        → IsSeries y.1
        → IsSeries (if◌then◌else◌ {A = Reply ℕ × Series} b x y).1
    if-IsSeries true s x y p q = p
    if-IsSeries false s x y p q = q

    by_order :
        (e : Bool)
        → is_early r s.recs ≡ e
        → IsSeries
            (if◌then◌else◌ {A = Reply ℕ × Series} e
              (refused out_of_order, s)
              (reply (length s.recs), record s { recs = s.recs ++ (stored r s.recs ∷ []) })).1
    by_order true q = h
    by_order false q =
        IsLog-append 0 s.recs (stored r s.recs) h (omega arith) refl (unfold is_early t_end in q)

-- What `Read` returns for a record that is there or not.
abbrev read_found : Option LogRecord → Reply LogRecord
read_found none = refused no_version
read_found (some q) = reply q
