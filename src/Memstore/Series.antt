-- ===== src/Memstore/Series.antt =====
-- internal/core/series.go and internal/core/memstore/series.go: record logs, and the reference
-- store of them. A string is the list of its bytes, a RecordKind its number. `List` of the store,
-- which lists names, is not modelled; `Sync` and `Close` of a series do nothing.
pub mod Append
pub mod Chain
mod Tests
use time_shade_db.Prelude.{
  ℕ, zero, suc, ◌+◌, ◌-◌, ltb, leb, ◌==◌, if◌then◌else◌, Bool, true, false, not,
}
use time_shade_db.Prelude.{
  ◌&&◌, ◌||◌, Option, none, some, List, [], ◌∷◌, ◌++◌, length, take, drop, get_elem?,
}
use time_shade_db.Prelude.{◌≡◌, refl, ◌↔◌, arith, subst}
use time_shade_db.Prelude.Int.{ℤ, pos, ltb_ℤ, ◌+ℤ◌, int64}
use time_shade_db.Prelude.Maps.{Eq, Map, lookup, insert}
use time_shade_db.Core.Keys.{same_bytes}
use time_shade_db.Core.Keys.Escape.{same_bytes→eq, same_bytes_refl}

-- `RecordDelta`, `RecordKeyframe` and `RecordSnapshot`
abbrev pub record_delta : ℕ
record_delta = 1

abbrev pub record_keyframe : ℕ
record_keyframe = 2

abbrev pub record_snapshot : ℕ
record_snapshot = 3

-- `IsBase`
unfoldable pub is_base : ℕ → Bool
is_base k = (k == record_keyframe) || (k == record_snapshot)

pub record RecordMeta : Type 0 where
  pub seq : ℕ
  pub t_start : ℤ
  pub t_len : ℕ
  pub kind : ℕ
  pub flags : ℕ
  pub len : ℕ

-- `TEnd`
unfoldable pub t_end : RecordMeta → ℤ
t_end m = int64 (m.t_start +ℤ pos m.t_len)

-- `core.Record`
pub record LogRecord : Type 0 where
  pub meta : RecordMeta
  pub payload : List ℕ

pub record Series : Type 0 where
  pub closed : Bool
  pub recs : List LogRecord

pub record SeriesStore : Type 0 where
  pub closed : Bool
  pub series : Map (List ℕ) Series

-- The errors of the series, those of the files on disk included.
pub data SeriesError : Type 0 where
  closed_error : SeriesError
  unknown_kind : SeriesError
  too_large : SeriesError
  corrupt : SeriesError
  short_read : SeriesError
  out_of_order : SeriesError
  write_failed : SeriesError
  no_version : SeriesError
  bad_key : SeriesError
  no_tile : SeriesError

pub data Reply {ℓ} (V : Type ℓ) : Type ℓ where
  refused : SeriesError → Reply V
  reply : V → Reply V

unfoldable pub new_series : Series
new_series = record { closed = false; recs = [] }

-- `NewSeriesStore`
unfoldable pub new_series_store : SeriesStore
new_series_store = record { closed = false; series = [] }

abbrev pub last_record : List LogRecord → Option LogRecord
last_record [] = none
last_record (r ∷ []) = some r
last_record (r ∷ q ∷ rs) = last_record (q ∷ rs)

-- The switch on the kind in `Append`.
abbrev pub is_known : ℕ → Bool
is_known k = (k == record_delta) || ((k == record_keyframe) || (k == record_snapshot))

-- The record that is stored: its number and the length of its payload are assigned.
abbrev pub stored : LogRecord → List LogRecord → LogRecord
stored r rs = record r { meta = record r.meta { seq = length rs; len = length r.payload } }

-- The test of the order in `Append`.
unfoldable pub is_early : LogRecord → List LogRecord → Bool
is_early r rs = elim (last_record rs) [
  | none ↦ false
  | some p ↦ ltb_ℤ (t_end r.meta) (t_end p.meta)
]

-- `Append`
unfoldable pub append_record : LogRecord → Series → Reply ℕ × Series
append_record r s =
    if s.closed
    then (refused closed_error, s)
    else (if not (is_known r.meta.kind)
        then (refused unknown_kind, s)
        else (if is_early r s.recs
            then (refused out_of_order, s)
            else (reply (length s.recs), record s { recs = s.recs ++ (stored r s.recs ∷ []) })))

-- `Len`
unfoldable pub series_len : Series → ℕ
series_len s = length s.recs

-- `Meta`
unfoldable pub read_meta : ℕ → Series → Reply RecordMeta
read_meta seq s = elim (get_elem? s.recs seq) [ none ↦ refused no_version | some r ↦ reply r.meta ]

-- `Read`
unfoldable pub read_record : ℕ → Series → Reply LogRecord
read_record seq s =
    if s.closed
    then refused closed_error
    else elim (get_elem? s.recs seq) [ none ↦ refused no_version | some r ↦ reply r ]

-- `sort.Search` for the first record with TEnd > t. The records stand in the order of TEnd, so it
-- is the number of those from the front with TEnd <= t.
unfoldable pub search_end : ℤ → List LogRecord → ℕ
search_end t [] = 0
search_end t (r ∷ rs) = let rest = search_end t rs in if ltb_ℤ t (t_end r.meta) then 0 else suc rest

unfoldable pub is_base_at : ℕ → List LogRecord → Bool
is_base_at i rs = elim (get_elem? rs i) [ none ↦ false | some r ↦ is_base r.meta.kind ]

-- The loop of `Chain` from end - 1 down to 0.
unfoldable pub base_below : ℕ → List LogRecord → ℕ
base_below zero rs = 0
base_below (suc i) rs = let rest = base_below i rs in if is_base_at i rs then i else rest

-- `Chain`
unfoldable pub chain : ℤ → Series → Reply (List LogRecord)
chain t s =
    if s.closed
    then refused closed_error
    else let end = search_end t s.recs in
      let start = base_below end s.recs in
      if end == 0 then reply [] else reply (take (end - start) (drop start s.recs))

same_name_iff : (a b : List ℕ) → (same_bytes a b ≡ true) ↔ (a ≡ b)
same_name_iff a b =
    (same_bytes→eq a b, λ h. subst (λ x. same_bytes a x ≡ true) h (same_bytes_refl a))

instance pub name_Eq : Eq (List ℕ)
name_Eq = record { same = same_bytes; same_iff = same_name_iff }

-- `strings.Split(name, "/")`
abbrev pub cons_first : ℕ → List (List ℕ) → List (List ℕ)
cons_first c [] = (c ∷ []) ∷ []
cons_first c (p ∷ ps) = (c ∷ p) ∷ ps

unfoldable pub split_slash : List ℕ → List (List ℕ)
split_slash [] = [] ∷ []
split_slash (c ∷ s) = let ps = split_slash s in if c == b'/' then [] ∷ ps else cons_first c ps

-- A byte of [A-Za-z0-9_~.-].
unfoldable pub is_part_byte : ℕ → Bool
is_part_byte c =
    (leb b'A' c && leb c b'Z')
    || ((leb b'a' c && leb c b'z')
        || ((leb b'0' c && leb c b'9')
            || ((c == b'_') || ((c == b'~') || ((c == b'.') || (c == b'-'))))))

unfoldable pub all_part_bytes : List ℕ → Bool
all_part_bytes [] = true
all_part_bytes (c ∷ s) = is_part_byte c && all_part_bytes s

-- The part is not ".", not "..", and matches `seriesPart`.
unfoldable pub is_part : List ℕ → Bool
is_part p =
    not (same_bytes p (b'.' ∷ []))
    && (not (same_bytes p (b'.' ∷ b'.' ∷ [])) && (not (length p == 0) && all_part_bytes p))

unfoldable pub all_parts : List (List ℕ) → Bool
all_parts [] = true
all_parts (p ∷ ps) = is_part p && all_parts ps

-- `ValidSeriesName`
unfoldable pub valid_series_name : List ℕ → Bool
valid_series_name name = if length name == 0 then false else all_parts (split_slash name)

-- `Open`: the series of a name, which the code returns by pointer, and the store that holds it.
unfoldable pub open_series : List ℕ → Bool → SeriesStore → Reply Series × SeriesStore
open_series name create s =
    if s.closed
    then (refused closed_error, s)
    else (if not (valid_series_name name)
        then (refused bad_key, s)
        else elim (lookup name s.series) [
          | some sr ↦ (reply sr, s)
          | none ↦
              if not create
              then (refused no_tile, s)
              else (reply new_series, record s { series = insert name new_series s.series })
        ])

-- `Close` of the store
unfoldable pub close_series_store : SeriesStore → SeriesStore
close_series_store s = record s { closed = true }
