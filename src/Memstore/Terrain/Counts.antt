-- ===== src/Memstore/Terrain/Counts.antt =====
-- What `Apply` counts: each update once.
use time_shade_db.Prelude.{
  ℕ, ◌+◌, ◌≡◌, arith, false, not, Bool-cases, inl, inr, List, [], ◌∷◌, length,
}
use time_shade_db.Prelude.Int.{pos, ltb_ℤ}
use time_shade_db.Core.Grid.{tile, is_valid}
use time_shade_db.Memstore.Terrain.{Terrain, ChunkUpdate, ApplyResult, done}
use time_shade_db.Memstore.Terrain.{ensure, is_malformed, apply_one, apply_all, apply}

-- The number of updates that a result counts.
abbrev pub total : ApplyResult → ℕ
total r = r.accepted + r.late + r.invalid

apply_one-total :
    (u : ChunkUpdate) (r : ApplyResult) (s : Terrain) → total (apply_one u (r, s)).0 ≡ total r + 1
unfolding apply_one
apply_one-total u r s = elim (Bool-cases (is_malformed u)) [
  | inl m ↦ rw m (omega arith)
  | inr m ↦ rw m (elim (Bool-cases (not (is_valid (tile u.chunk).0))) [
    | inl b ↦ rw b (omega arith)
    | inr b ↦ rw b (elim (Bool-cases (ltb_ℤ u.t (ensure u.ds (pos 0) s).0.horizon)) [
      | inl l ↦ rw l (omega arith)
      | inr l ↦ rw l (omega arith)
    ])
  ])
]

apply_all-total :
    (us : List ChunkUpdate) (acc : ApplyResult × Terrain)
    → total (apply_all us acc).0 ≡ total acc.0 + length us
unfolding apply_all
apply_all-total [] acc = omega arith
apply_all-total (u ∷ us) acc =
    omega (arith, apply_all-total us (apply_one u acc), apply_one-total u acc.0 acc.1)

-- In a store that is not closed, `Apply` returns a result, whose accepted, late and invalid counts
-- add up to the number of updates.
pub apply-total :
    (us : List ChunkUpdate) (s : Terrain)
    → s.closed ≡ false
    → (r : ApplyResult) × ((apply us s).0 ≡ done r) × (total r ≡ length us)
unfolding apply
apply-total us s h =
    let start : ApplyResult = record { accepted = 0; late = 0; invalid = 0 } in
    ((apply_all us (start, s)).0, rw (apply, h), omega (arith, apply_all-total us (start, s)))
