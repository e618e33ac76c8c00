-- ===== src/Series/Versions/Plans.antt =====
-- The plan of what to read for a version.
use time_shade_db.Prelude.{
  ℕ, zero, suc, ◌+◌, ◌-◌, ◌^◌, ◌≤◌, ◌<◌, ◌≡◌, refl, ap, arith, ◌==◌, ◌||◌, inl, inr, ◌⊎◌,
  Bool-cases,
}
use time_shade_db.Prelude.{
  Bool, true, false, Option, none, some, List, [], ◌∷◌, length, take, get_elem?,
}
use mathlib.Core.Option.{none-ne-some}
use time_shade_db.Prelude.Words.{IsU32}
use time_shade_db.Memstore.Series.{LogRecord, record_keyframe}
use time_shade_db.Series.Format.{Entry, entry_t_end}
use time_shade_db.Series.File.{LogFile, base_before, is_base_entry}
use time_shade_db.Series.File.Invariant.{IsFile, length-entries}
use time_shade_db.Series.Versions.{
  Plan, is_keyframe_of, base_version, plan_at, plan_version, version_seq, search_deltas,
}
use time_shade_db.Prelude.Int.{==ℤ_iff}
use time_shade_db.Series.Versions.Probe.{
  is_cached, AreMissing, IsProbed, missing, hit, probe_cache-IsProbed,
}
use time_shade_db.Series.Versions.Count.{delta_count, IsVersion, version_seq-IsVersion}

-- Record j is the last base record up to record i, or there is none up to it and j is 0.
pub record IsLastBase (j i : ℕ) (es : List Entry) : Type 0 where
  pub front : (j ≡ 0) ⊎ (is_base_entry j es ≡ true)
  pub up_to : j ≤ i
  pub none_behind : (k : ℕ) → j < k → k ≤ i → is_base_entry k es ≡ false

-- The plans for a version whose delta record is record i: the keyframe behind it alone, which has
-- its count and its effective time; or, where there is none, what follows the newest version that
-- the cache has of the max_probe before this one, if it is newer than the last base record; or
-- else what that base record begins. The last two end with record i.
pub data IsPlan (v : ℕ) (have : Option (ℕ → Bool)) (max_probe : ℕ) (es : List Entry)
    (recs : List LogRecord) (i : ℕ) : Plan → Type 0 where
  by_keyframe :
      (e k : Entry)
      → get_elem? es i ≡ some e
      → get_elem? es (suc i) ≡ some k
      → (k.kind == record_keyframe) ≡ true
      → entry_t_end k ≡ entry_t_end e
      → k.deltas ≡ v
      → IsPlan v have max_probe es recs i
          (record { first = suc i; last = suc i; from_base = true; resume = 0 })
  resuming :
      (e : Entry) (base pv j : ℕ)
      → get_elem? es i ≡ some e
      → is_keyframe_of v e (get_elem? es (suc i)) ≡ false
      → IsLastBase base i es
      → base_version (get_elem? es base) < pv
      → pv < v
      → v ≤ pv + max_probe
      → is_cached have pv ≡ true
      → AreMissing have pv (v - 1) max_probe
      → IsVersion pv 0 j recs
      → j < i
      → IsPlan v have max_probe es recs i
          (record { first = suc j; last = i; from_base = false; resume = pv })
  from_the_base :
      (e : Entry) (base : ℕ)
      → get_elem? es i ≡ some e
      → is_keyframe_of v e (get_elem? es (suc i)) ≡ false
      → IsLastBase base i es
      → AreMissing have (base_version (get_elem? es base)) (v - 1) max_probe
      → IsPlan v have max_probe es recs i
          (record { first = base; last = i; from_base = true; resume = 0 })

IsLastBase-next :
    (j i : ℕ) (es : List Entry)
    → is_base_entry (suc i) es ≡ false
    → IsLastBase j i es
    → IsLastBase j (suc i) es
IsLastBase-next j i es b rest = record {
  front = rest.front;
  up_to = omega (arith, rest.up_to);
  none_behind = λ k l h. elim (Bool-cases (k == suc i)) [
    | inl c ↦ let same : k ≡ suc i = ground arith in rw (same) b
    | inr c ↦ rest.none_behind k l (ground arith)
  ];
}

IsLastBase-here :
    (i : ℕ) (es : List Entry) → (i ≡ 0) ⊎ (is_base_entry i es ≡ true) → IsLastBase i i es
IsLastBase-here i es b = record {
  front = b;
  up_to = omega arith;
  none_behind = λ k l h. absurd (omega arith);
}

base_before-IsLastBase : (i : ℕ) (es : List Entry) → IsLastBase (base_before (suc i) es) i es
unfolding base_before
base_before-IsLastBase zero es = elim (Bool-cases (is_base_entry 0 es)) [
  | inl b ↦ rw (base_before, b) (IsLastBase-here 0 es (inr b))
  | inr b ↦ rw (base_before, b) (IsLastBase-here 0 es (inl refl))
]
base_before-IsLastBase (suc i) es = elim (Bool-cases (is_base_entry (suc i) es)) [
  | inl b ↦ rw (base_before, b) (IsLastBase-here (suc i) es (inr b))
  | inr b ↦ rw (base_before, b) (IsLastBase-next _ i es b (base_before-IsLastBase i es))
]

get_elem?_within :
    {A : Type 0} (xs : List A) (i : ℕ) → i < length xs → (x : A) × (get_elem? xs i ≡ some x)
get_elem?_within [] i h = absurd (omega arith)
get_elem?_within (x ∷ xs) zero h = (x, refl)
get_elem?_within (x ∷ xs) (suc i) h = get_elem?_within xs i (omega arith)

get_elem?_inside :
    {A : Type 0} (xs : List A) (i : ℕ) (x : A) → get_elem? xs i ≡ some x → i < length xs
get_elem?_inside [] i x h = absurd (none-ne-some x h)
get_elem?_inside (y ∷ xs) zero x h = omega arith
get_elem?_inside (y ∷ xs) (suc i) x h = omega (arith, get_elem?_inside xs i x h)

some_inj : (a b : ℕ) → some a ≡ some b → a ≡ b
some_inj a b h = cc

-- The keyframe that `PlanVersion` takes alone.
keyframe_found :
    (v : ℕ) (e : Entry) (o : Option Entry)
    → is_keyframe_of v e o ≡ true
    → (k : Entry) × (o ≡ some k)
      × ((k.kind == record_keyframe) ≡ true)
      × (entry_t_end k ≡ entry_t_end e)
      × (k.deltas ≡ v)
unfolding is_keyframe_of
keyframe_found v e none h = ground arith
keyframe_found v e (some k) h = (
  k,
  refl,
  ground arith,
  (==ℤ_iff (entry_t_end k) (entry_t_end e)).0 (ground arith),
  ground arith,
)

search_deltas_mono : (v w : ℕ) (es : List Entry) → v ≤ w → search_deltas v es ≤ search_deltas w es
unfolding search_deltas
search_deltas_mono v w [] h = omega arith
search_deltas_mono v w (e ∷ es) h = let rest = search_deltas_mono v w es h in ground arith

version_seq_is : (v i : ℕ) (es : List Entry) → version_seq v es ≡ some i → search_deltas v es ≡ i
unfolding version_seq
version_seq_is v i es h = elim (Bool-cases ((v == 0) || (search_deltas v es == length es))) [
  | inl c ↦ absurd (none-ne-some i (rw (version_seq, c) at h))
  | inr c ↦ some_inj (search_deltas v es) i (rw (version_seq, c) at h)
]

module _ (crc : List ℕ → ℕ) (crc32 : (b : List ℕ) → IsU32 (crc b)) where
  -- The delta record of an older version.
  older_delta :
      (f : LogFile) (recs : List LogRecord) (v i q : ℕ)
      → IsFile crc crc32 f recs
      → delta_count recs < 2 ^ 32
      → 1 ≤ q
      → q < v
      → v ≤ delta_count recs
      → IsVersion v 0 i recs
      → version_seq v f.entries ≡ some i
      → (j : ℕ) × (search_deltas q f.entries ≡ j) × IsVersion q 0 j recs × (j < i)
  older_delta f recs v i q w l h k m vi found =
      let (j, (found_q, vj)) = version_seq-IsVersion crc crc32 f recs q w l h (omega arith) in
      let at_j = version_seq_is q j f.entries found_q in
      let at_i = version_seq_is v i f.entries found in
      let le = search_deltas_mono q v f.entries (omega arith) in
      let differ : j ≡ i → ⊥ =
        λ e. omega (arith, vj.count, vi.count, ap (λ n. delta_count (take n recs)) e, k) in
      (j, at_j, vj, ground (arith, le, at_j, at_i, differ))

  -- What follows the cached version that was found, or else the base record.
  probed-IsPlan :
      (f : LogFile) (recs : List LogRecord) (v i : ℕ) (e : Entry) (have : Option (ℕ → Bool))
      (max_probe : ℕ) (o : Option ℕ)
      → IsFile crc crc32 f recs
      → delta_count recs < 2 ^ 32
      → 1 ≤ v
      → v ≤ delta_count recs
      → IsVersion v 0 i recs
      → version_seq v f.entries ≡ some i
      → get_elem? f.entries i ≡ some e
      → is_keyframe_of v e (get_elem? f.entries (suc i)) ≡ false
      → IsProbed have
          (base_version (get_elem? f.entries (base_before (suc i) f.entries)))
          max_probe
          (v - 1)
          o
      → IsPlan v have max_probe f.entries recs i (elim o [
        | some pv ↦ record {
          first = suc (search_deltas pv f.entries);
          last = i;
          from_base = false;
          resume = pv;
        }
        | none ↦ record {
          first = base_before (suc i) f.entries;
          last = i;
          from_base = true;
          resume = 0;
        }
      ])
  probed-IsPlan f recs v i e have m none w l h k vi found at_i c (missing n) =
      from_the_base e (base_before (suc i) f.entries) at_i c (base_before-IsLastBase i f.entries) n
  probed-IsPlan f recs v i e have m (some p) w l h k vi found at_i c (hit q a b d t n) =
      let (j, at_j, vj, before) =
        older_delta f recs v i q w l (omega arith) (omega arith) k vi found in
      rw (at_j) (
        resuming e (base_before (suc i) f.entries) q j at_i c (base_before-IsLastBase i f.entries) a
          (omega arith) (omega arith) t n vj before)

  -- For an open file with fewer than 2^32 delta records, a version from 1 to their number, and any
  -- cache: `PlanVersion` returns a plan. Where the delta record of the version is followed by a
  -- keyframe of the same effective time and count, the plan is this keyframe alone. Else, of the
  -- versions before this one, at most maxProbe and newer than that of the last base record, it
  -- resumes from the newest that the cache has and reads from behind its delta record; if the cache
  -- has none of them, it reads from the last base record, or from record 0 if there is none. Both
  -- end with the delta record of the version.
  pub plan_version-IsPlan :
      (f : LogFile) (recs : List LogRecord) (v : ℕ) (have : Option (ℕ → Bool)) (max_probe : ℕ)
      → IsFile crc crc32 f recs
      → delta_count recs < 2 ^ 32
      → 1 ≤ v
      → v ≤ delta_count recs
      → (i : ℕ) × (p : Plan) × (plan_version v have max_probe f.entries ≡ some p)
        × IsVersion v 0 i recs
        × IsPlan v have max_probe f.entries recs i p
  unfolding plan_version plan_at
  plan_version-IsPlan f recs v have m w l h k =
      let (i, (found, vi)) = version_seq-IsVersion crc crc32 f recs v w l h k in
      let (e, at_i) =
        get_elem?_within f.entries i
          (omega (arith, vi.within, length-entries crc crc32 f recs w)) in
      elim (Bool-cases (is_keyframe_of v e (get_elem? f.entries (suc i)))) [
        | inl c ↦
            let (q, at_q, kind, time, count) = keyframe_found v e (get_elem? f.entries (suc i)) c in
            (
              i,
              record { first = suc i; last = suc i; from_base = true; resume = 0 },
              rw (plan_version, found, at_i, plan_at, c) refl,
              vi,
              by_keyframe e q at_i at_q kind time count,
            )
        | inr c ↦ (
          i,
          _,
          rw (plan_version, found, at_i, plan_at, c) refl,
          vi,
          probed-IsPlan f recs v i e have m _ w l h k vi found at_i c
              (probe_cache-IsProbed have _ m (v - 1)),
        )
      ]
