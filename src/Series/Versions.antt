-- ===== src/Series/Versions.antt =====
-- The methods of internal/series/series.go that serve the terrain store: the versions of a tile,
-- which the delta records reach, the plan of what to read for one, the history and the summary.
pub mod Count
pub mod Probe
pub mod Plans
mod Tests
use time_shade_db.Prelude.{
  ℕ, zero, suc, ◌+◌, ◌-◌, ltb, leb, ◌==◌, if◌then◌else◌, Bool, true, false, not, ◌&&◌, ◌||◌,
}
use time_shade_db.Prelude.{Option, none, some, List, [], ◌∷◌, length, get_elem?}
use time_shade_db.Prelude.Int.{ℤ, pos, ltb_ℤ, ◌==ℤ◌}
use time_shade_db.Memstore.Series.{
  RecordMeta, Reply, reply, refused, record_delta, record_keyframe, is_base,
}
use time_shade_db.Memstore.Terrain.Read.{VersionPoint}
use time_shade_db.Series.Format.{Entry, entry_t_end}
use time_shade_db.Series.File.{LogFile, file_meta, base_before, is_base_entry}
use time_shade_db.Series.File.Records.{last_deltas}

-- `Versions`
unfoldable pub versions : LogFile → ℕ
versions f = last_deltas f.entries

-- `sort.Search` for the first entry with deltas >= v: the counts do not fall, so it is the number
-- of those from the front with a smaller count.
unfoldable pub search_deltas : ℕ → List Entry → ℕ
search_deltas v [] = 0
search_deltas v (e ∷ es) = let rest = search_deltas v es in if ltb e.deltas v then suc rest else 0

-- `VersionSeq`
unfoldable pub version_seq : ℕ → List Entry → Option ℕ
version_seq v es =
    let i = search_deltas v es in if (v == 0) || (i == length es) then none else some i

-- `VersionMeta`
unfoldable pub version_meta : ℕ → LogFile → Option RecordMeta
version_meta v f = elim (version_seq v f.entries) [
  | none ↦ none
  | some seq ↦ elim (file_meta seq f) [ refused x ↦ none | reply m ↦ some m ]
]

-- `Plan`
pub record Plan : Type 0 where
  pub first : ℕ
  pub last : ℕ
  pub from_base : Bool
  pub resume : ℕ

-- The loop of `PlanVersion` over the cached versions, newest first, at most max_probe of them.
unfoldable pub probe : (ℕ → Bool) → ℕ → ℕ → ℕ → Option ℕ
probe have base_v zero pv = none
probe have base_v (suc max_probe) pv =
    let rest = probe have base_v max_probe (pv - 1) in
    if leb pv base_v then none else (if have pv then some pv else rest)

-- A keyframe behind entry i with its effective time and its count.
unfoldable pub is_keyframe_of : ℕ → Entry → Option Entry → Bool
is_keyframe_of v e none = false
is_keyframe_of v e (some k) =
    (k.kind == record_keyframe) && ((entry_t_end k ==ℤ entry_t_end e) && (k.deltas == v))

-- The version of the base entry, 0 where record 0 is not one.
abbrev pub base_version : Option Entry → ℕ
base_version none = 0
base_version (some e) = if is_base e.kind then e.deltas else 0

abbrev pub probe_cache : Option (ℕ → Bool) → ℕ → ℕ → ℕ → Option ℕ
probe_cache none base_v max_probe pv = none
probe_cache (some have) base_v max_probe pv = probe have base_v max_probe pv

-- The plan for the version that the entry with number i reaches.
unfoldable pub plan_at : ℕ → ℕ → Entry → Option (ℕ → Bool) → ℕ → List Entry → Plan
plan_at v i e have max_probe es =
    let base = base_before (suc i) es in
    if is_keyframe_of v e (get_elem? es (suc i))
    then record { first = suc i; last = suc i; from_base = true; resume = 0 }
    else elim (probe_cache have (base_version (get_elem? es base)) max_probe (v - 1)) [
      | some pv ↦ record {
        first = suc (search_deltas pv es);
        last = i;
        from_base = false;
        resume = pv;
      }
      | none ↦ record { first = base; last = i; from_base = true; resume = 0 }
    ]

-- `PlanVersion`; the plan is none when there is no such version.
unfoldable pub plan_version : ℕ → Option (ℕ → Bool) → ℕ → List Entry → Option Plan
plan_version v have max_probe es = elim (version_seq v es) [
  | none ↦ none
  | some i ↦ elim (get_elem? es i) [ none ↦ none | some e ↦ some (plan_at v i e have max_probe es) ]
]

-- The loop of `History` from the first entry that is not before t0 on.
unfoldable pub collect : ℤ → ℕ → List Entry → List VersionPoint
collect t1 max [] = []
collect t1 max (e ∷ es) =
    let rest = collect t1 max es in
    if not (ltb_ℤ (entry_t_end e) t1)
    then []
    else (if (e.kind == record_delta) && leb e.deltas max
        then record { t = entry_t_end e; version = e.deltas } ∷ rest
        else rest)

-- `History` of a series.
unfoldable pub series_history : ℤ → ℤ → ℕ → List Entry → List VersionPoint
series_history t0 t1 max [] = []
series_history t0 t1 max (e ∷ es) =
    let rest = series_history t0 t1 max es in
    if ltb_ℤ (entry_t_end e) t0 then rest else collect t1 max (e ∷ es)
