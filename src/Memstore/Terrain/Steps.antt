-- ===== src/Memstore/Terrain/Steps.antt =====
-- The operations of the reference terrain store as steps, and what each keeps: the invariant of
-- every datastore, and the versions that are there.
use time_shade_db.Prelude.{zero, suc, ◌^◌, ◌<◌, ◌≡◌, refl, sym, ap, ◌∙◌, subst, arith}
use time_shade_db.Prelude.{
  Bool, true, false, not, if◌then◌else◌, Bool-cases, inl, inr, none, some, Option-cases, List, [],
  ◌∷◌, All,
}
use time_shade_db.Prelude.Int.{ℤ, pos, negsuc, ltb_ℤ, pos_part}
use time_shade_db.Prelude.Maps.{
  Map, Entries, lookup, insert, insert-Entries, lookup-Entries, lookup-insert_self,
  lookup-insert_ne, some_inj,
}
use time_shade_db.Core.Time.{IsTime}
use time_shade_db.Core.Grid.{tile, is_valid}
use time_shade_db.Core.Keys.{DatastoreKey, validate, Result, ok, err}
use time_shade_db.Memstore.Terrain.{
  Terrain, TerrainDs, ChunkUpdate, ApplyResult, key_Eq, new_ds, ensure, ensure_datastore,
}
use time_shade_db.Memstore.Terrain.{
  accept, is_malformed, apply_one, apply_all, apply, close, Outcome, done, failed, closed_error,
  bad_key,
}
use time_shade_db.Memstore.Terrain.Commit.{commit_ds, commit_all, commit}
use time_shade_db.Memstore.Terrain.Accept.{IsDs, accept-IsDs}
use time_shade_db.Memstore.Terrain.Grow.{
  DsGrows, DsGrows-refl, DsGrows-trans, accept-DsGrows, commit_ds_lem,
}

-- The invariant of the store.
abbrev pub IsStore : Terrain → Type 0
IsStore s = Entries (λ _ d. IsDs d) s.ds

-- A datastore stays and grows.
abbrev pub StoreGrows : Terrain → Terrain → Type 0
StoreGrows s s' =
    (key : DatastoreKey) (d : TerrainDs)
    → lookup key s.ds ≡ some d
    → (d' : TerrainDs) × (lookup key s'.ds ≡ some d') × DsGrows d d'

StoreGrows-refl : (s : Terrain) → StoreGrows s s
StoreGrows-refl s key d e = (d, e, DsGrows-refl d)

pub StoreGrows-trans : (a b c : Terrain) → StoreGrows a b → StoreGrows b c → StoreGrows a c
StoreGrows-trans a b c f g key d e =
    let (d', e', x) = f key d e in
    let (d'', e'', y) = g key d' e' in (d'', e'', DsGrows-trans d d' d'' x y)

-- What a step does: it keeps the invariant, and the store grows.
pub record IsStep (s s' : Terrain) : Type 0 where
  pub kept : IsStore s → IsStore s'
  pub grown : IsStore s → StoreGrows s s'

pub IsStep-refl : (s : Terrain) → IsStep s s
IsStep-refl s = record { kept = λ i. i; grown = λ i. StoreGrows-refl s }

pub IsStep-trans : (a b c : Terrain) → IsStep a b → IsStep b c → IsStep a c
IsStep-trans a b c x y = record {
  kept = λ i. y.kept (x.kept i);
  grown = λ i. StoreGrows-trans a b c (x.grown i) (y.grown (x.kept i));
}

if-IsStep {ℓ} :
    {A : Type ℓ} (b : Bool) (s : Terrain) (x y : A × Terrain)
    → IsStep s x.1
    → IsStep s y.1
    → IsStep s (if b then x else y).1
if-IsStep true s x y p q = p
if-IsStep false s x y p q = q

-- A datastore of the store replaced by one that it grows to.
insert-StoreGrows :
    (key : DatastoreKey) (old new : TerrainDs) (s : Terrain)
    → lookup key s.ds ≡ some old
    → DsGrows old new
    → StoreGrows s (record s { ds = insert key new s.ds })
insert-StoreGrows key old new s at_key g k d f = elim (Bool-cases (key_Eq.same key k)) [
  | inl q ↦ same_place (sym ((key_Eq.same_iff key k).0 q))
  | inr q ↦ (d, lookup-insert_ne k key new s.ds q ∙ f, DsGrows-refl d)
]
  where
    same_place :
        k ≡ key → (d' : TerrainDs) × (lookup k (insert key new s.ds) ≡ some d') × DsGrows d d'
    same_place p =
        let old_is = some_inj d old (sym (subst (λ x. lookup x s.ds ≡ some d) p f) ∙ at_key) in
        (new, rw p (lookup-insert_self key new s.ds), subst (λ x. DsGrows x new) (sym old_is) g)

new_ds-IsDs : (w : ℤ) → pos_part w < 2 ^ 62 → IsDs (new_ds w)
unfolding new_ds
new_ds-IsDs (pos zero) h = record {
  length = 60000;
  window_is = refl;
  positive = omega arith;
  length_lt = omega arith;
  horizon_is = inl refl;
  tiles_are = tt;
}
new_ds-IsDs (pos (suc n)) h = record {
  length = suc n;
  window_is = ground arith;
  positive = omega arith;
  length_lt = h;
  horizon_is = inl refl;
  tiles_are = tt;
}
new_ds-IsDs (negsuc n) h = record {
  length = 60000;
  window_is = ground arith;
  positive = omega arith;
  length_lt = omega arith;
  horizon_is = inl refl;
  tiles_are = tt;
}

-- `ensure` returns a datastore that is in the store it returns.
pub record Ensured (key : DatastoreKey) (s : Terrain) (d : TerrainDs) (s' : Terrain) : Type 0 where
  pub is_there : lookup key s'.ds ≡ some d
  pub is_step : IsStep s s'

ensure_lem :
    (key : DatastoreKey) (w : ℤ) (s : Terrain)
    → pos_part w < 2 ^ 62
    → Ensured key s (ensure key w s).0 (ensure key w s).1
unfolding ensure
ensure_lem key w s h = elim (Option-cases (lookup key s.ds)) [
  | inl e ↦
      rw (ensure, e)
        (record {
          is_there = lookup-insert_self key (new_ds w) s.ds;
          is_step = record {
            kept =
                λ i. insert-Entries (λ _ d. IsDs d) key (new_ds w) s.ds (λ j q. new_ds-IsDs w h) i;
            grown = λ i. fresh e;
          };
        })
  | inr (d, e) ↦ rw (ensure, e) (record { is_there = e; is_step = IsStep-refl s })
]
  where
    fresh : lookup key s.ds ≡ none → StoreGrows s (record s { ds = insert key (new_ds w) s.ds })
    fresh e k d f = elim (Bool-cases (key_Eq.same key k)) [
      | inl q ↦ absurd (conflict ((key_Eq.same_iff key k).0 q))
      | inr q ↦ (d, lookup-insert_ne k key (new_ds w) s.ds q ∙ f, DsGrows-refl d)
    ]
      where
        conflict : key ≡ k → ⊥
        conflict p = let e' = subst (λ x. lookup x s.ds ≡ none) p e in cc

apply_one-IsStep :
    (u : ChunkUpdate) (res : ApplyResult) (s : Terrain)
    → IsTime u.t
    → IsStep s (apply_one u (res, s)).1
unfolding apply_one
apply_one-IsStep u res s ht = elim (Bool-cases (is_malformed u)) [
  | inl m ↦ rw m (IsStep-refl s)
  | inr m ↦ rw m (elim (Bool-cases (not (is_valid (tile u.chunk).0))) [
    | inl b ↦ rw b (IsStep-refl s)
    | inr b ↦ rw b (elim (Bool-cases (ltb_ℤ u.t (ensure u.ds (pos 0) s).0.horizon)) [
      | inl l ↦ rw l e.is_step
      | inr l ↦ rw l (IsStep-trans s s' _ e.is_step (accepted l))
    ])
  ])
]
  where
    d : TerrainDs
    d = (ensure u.ds (pos 0) s).0

    s' : Terrain
    s' = (ensure u.ds (pos 0) s).1

    e : Ensured u.ds s d s'
    e = ensure_lem u.ds (pos 0) s (omega arith)

    accepted :
        ltb_ℤ u.t d.horizon ≡ false
        → IsStep s'
            (record s' { ds = insert u.ds (accept (tile u.chunk).0 (tile u.chunk).1 u d) s'.ds })
    accepted l = record {
      kept = λ i.
          insert-Entries (λ _ x. IsDs x) u.ds _ s'.ds
            (λ j q.
              accept-IsDs (tile u.chunk).0 (tile u.chunk).1 u d ht l
                (lookup-Entries (λ _ x. IsDs x) u.ds d s'.ds i e.is_there))
            i;
      grown = λ i.
          insert-StoreGrows u.ds d _ s' e.is_there
            (accept-DsGrows (tile u.chunk).0 (tile u.chunk).1 u d);
    }

apply_all-IsStep :
    (us : List ChunkUpdate) (acc : ApplyResult × Terrain)
    → All (λ u. IsTime u.t) us
    → IsStep acc.1 (apply_all us acc).1
unfolding apply_all
apply_all-IsStep [] acc h = IsStep-refl acc.1
apply_all-IsStep (u ∷ us) acc h =
    IsStep-trans acc.1 (apply_one u acc).1 _ (apply_one-IsStep u acc.0 acc.1 h.0)
      (apply_all-IsStep us (apply_one u acc) h.1)

pub apply-IsStep :
    (us : List ChunkUpdate) (s : Terrain) → All (λ u. IsTime u.t) us → IsStep s (apply us s).1
unfolding apply
apply-IsStep us s h =
    if-IsStep s.closed s _ _ (IsStep-refl s)
      (apply_all-IsStep us (record { accepted = 0; late = 0; invalid = 0 }, s) h)

pub ensure_datastore-IsStep :
    (key : DatastoreKey) (w : ℤ) (s : Terrain)
    → pos_part w < 2 ^ 62
    → IsStep s (ensure_datastore key w s).1
unfolding ensure_datastore
ensure_datastore-IsStep key w s h = by_key (validate key)
  where
    by_key :
        (r : Result (Unit {0}))
        → IsStep s
            (elim r as (λ _. Outcome (Unit {0}) × Terrain) [
              | err e ↦ (failed bad_key, s)
              | ok u ↦ if s.closed then (failed closed_error, s) else (done tt, (ensure key w s).1)
            ]).1
    by_key (err e) = IsStep-refl s
    by_key (ok u) =
        if-IsStep s.closed s (failed closed_error, s) (done tt, (ensure key w s).1) (IsStep-refl s)
          (ensure_lem key w s h).is_step

commit_all-Entries :
    (up_to : ℤ) (m : Map DatastoreKey TerrainDs)
    → IsTime up_to
    → Entries (λ _ d. IsDs d) m
    → Entries (λ _ d. IsDs d) (commit_all up_to m)
unfolding commit_all
commit_all-Entries up_to [] h i = tt
commit_all-Entries up_to ((k, d) ∷ m) h i =
    ((commit_ds_lem up_to d h i.0).0, commit_all-Entries up_to m h i.1)

lookup-commit_all :
    (up_to : ℤ) (key : DatastoreKey) (d : TerrainDs) (m : Map DatastoreKey TerrainDs)
    → lookup key m ≡ some d
    → lookup key (commit_all up_to m) ≡ some (commit_ds up_to d)
unfolding lookup commit_all
lookup-commit_all up_to key d [] e = cc
lookup-commit_all up_to key d ((k, x) ∷ m) e = elim (Bool-cases (key_Eq.same k key)) [
  | inl s ↦ rw s (ap (λ t. some (commit_ds up_to t)) (some_inj _ _ (rw s at e)))
  | inr s ↦ rw s (lookup-commit_all up_to key d m (rw s at e))
]

pub commit-IsStep : (up_to : ℤ) (s : Terrain) → IsTime up_to → IsStep s (commit up_to s).1
unfolding commit
commit-IsStep up_to s h = if-IsStep s.closed s _ _ (IsStep-refl s) (record {
  kept = λ i. commit_all-Entries up_to s.ds h i;
  grown = λ i key d e. (
    commit_ds up_to d,
    lookup-commit_all up_to key d s.ds e,
    (commit_ds_lem up_to d h (lookup-Entries (λ _ x. IsDs x) key d s.ds i e)).1,
  );
})

pub close-IsStep : (s : Terrain) → IsStep s (close s)
unfolding close
close-IsStep s = record { kept = λ i. i; grown = λ i key d e. (d, e, DsGrows-refl d) }
