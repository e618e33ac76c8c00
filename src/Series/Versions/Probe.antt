-- ===== src/Series/Versions/Probe.antt =====
-- The search of the cache for a version to resume from.
use time_shade_db.Prelude.{
  ℕ, zero, suc, ◌+◌, ◌-◌, ◌≤◌, ◌<◌, ◌≡◌, refl, arith, leb, ◌==◌, inl, inr, Bool-cases,
}
use time_shade_db.Prelude.{Bool, true, false, Option, none, some}
use time_shade_db.Series.Versions.{probe, probe_cache}

-- Whether the cache, where there is one, has the state of a version.
abbrev pub is_cached : Option (ℕ → Bool) → ℕ → Bool
is_cached none pv = false
is_cached (some have) pv = have pv

-- No version in the cache is above low and at most high, of those among the max_probe up to high.
abbrev pub AreMissing : Option (ℕ → Bool) → ℕ → ℕ → ℕ → Type 0
AreMissing have low high max_probe =
    (pv : ℕ) → low < pv → pv ≤ high → high < pv + max_probe → is_cached have pv ≡ false

-- What the loop over the cached versions finds: the newest one, or none of those that it tries.
pub data IsProbed (have : Option (ℕ → Bool)) (base_v max_probe pv : ℕ) : Option ℕ → Type 0 where
  missing : AreMissing have base_v pv max_probe → IsProbed have base_v max_probe pv none
  hit :
      (q : ℕ)
      → base_v < q
      → q ≤ pv
      → pv < q + max_probe
      → is_cached have q ≡ true
      → AreMissing have q pv max_probe
      → IsProbed have base_v max_probe pv (some q)

-- One more version that the cache has not.
one_more :
    (have : ℕ → Bool) (m pv low : ℕ)
    → low < pv
    → have pv ≡ false
    → AreMissing (some have) low (pv - 1) m
    → AreMissing (some have) low pv (suc m)
one_more have m pv low l d none_there w a b c = elim (Bool-cases (w == pv)) [
  | inl e ↦ let same : w ≡ pv = ground arith in rw (same) d
  | inr e ↦ none_there w a (ground arith) (ground arith)
]

IsProbed-next :
    (have : ℕ → Bool) (base_v m pv : ℕ) (o : Option ℕ)
    → base_v < pv
    → have pv ≡ false
    → IsProbed (some have) base_v m (pv - 1) o
    → IsProbed (some have) base_v (suc m) pv o
IsProbed-next have base_v m pv none l d (missing none_there) =
    missing (one_more have m pv base_v l d none_there)
IsProbed-next have base_v m pv (some p) l d (hit q a b c e none_there) =
    hit q a (omega arith) (omega arith) e (one_more have m pv q (omega arith) d none_there)

probe-IsProbed :
    (have : ℕ → Bool) (base_v max_probe pv : ℕ)
    → IsProbed (some have) base_v max_probe pv (probe have base_v max_probe pv)
unfolding probe
probe-IsProbed have base_v zero pv = missing (λ w l h k. absurd (omega arith))
probe-IsProbed have base_v (suc m) pv = elim (Bool-cases (leb pv base_v)) [
  | inl c ↦
      let le : pv ≤ base_v = ground arith in
      rw (probe, c) (missing (λ w l h k. absurd (omega arith)))
  | inr c ↦
      let above : base_v < pv = ground arith in
      elim (Bool-cases (have pv)) [
        | inl d ↦
            rw (probe, c, d)
              (hit pv above (omega arith) (omega arith) d (λ w l h k. absurd (omega arith)))
        | inr d ↦
            rw (probe, c, d)
              (IsProbed-next have base_v m pv _ above d (probe-IsProbed have base_v m (pv - 1)))
      ]
]

pub probe_cache-IsProbed :
    (have : Option (ℕ → Bool)) (base_v max_probe pv : ℕ)
    → IsProbed have base_v max_probe pv (probe_cache have base_v max_probe pv)
probe_cache-IsProbed none base_v m pv = missing (λ w l h k. refl)
probe_cache-IsProbed (some have) base_v m pv = probe-IsProbed have base_v m pv
