-- ===== src/Core/Keys/Ids.antt =====
-- Ids and keys determine one another.
use time_shade_db.Prelude.{ℕ, ◌≡◌, ◌≢◌, refl, sym, ap, ◌∙◌, subst, map, arith, if◌then◌else◌}
use time_shade_db.Prelude.{false, List, [], ◌∷◌, ◌++◌, All, length, ◌==◌, Bool-cases, inl, inr}
use time_shade_db.Prelude.Words.{IsByte}
use time_shade_db.Core.Keys.{
  DatastoreKey, SurfaceKey, Result, ok, err, not_canonical, bad_parts, bind-ok, ok-injective, ◌>>=◌,
  is_bad_field,
}
use time_shade_db.Core.Keys.{escape_name, unescape_name, same_bytes, validate, validate_surface}
use time_shade_db.Core.Keys.{
  datastore_id, surface_id, split_dot, cons_head, parse_part, parse_parts,
}
use time_shade_db.Core.Keys.{
  parse_id, datastore_of, surface_of, parse_datastore_id, parse_surface_id,
}
use time_shade_db.Core.Keys.Escape.{
  unescape_name-escape_name, escape_name-NoDot, NoDot, same_bytes→eq, same_bytes_refl,
}

split_dot-NoDot : (a : List ℕ) → NoDot a → split_dot a ≡ a ∷ []
unfolding split_dot
split_dot-NoDot [] h = refl
split_dot-NoDot (c ∷ a) h = ground (arith, split_dot-NoDot a h.1, h.0)

split_dot-append : (a b : List ℕ) → NoDot a → split_dot (a ++ (b'.' ∷ b)) ≡ a ∷ split_dot b
unfolding split_dot
split_dot-append [] b h = refl
split_dot-append (c ∷ a) b h = ground (arith, split_dot-append a b h.1, h.0)

-- `strings.Join(ps, ".")`
join_dot : List (List ℕ) → List ℕ
join_dot [] = []
join_dot (p ∷ []) = p
join_dot (p ∷ q ∷ ps) = p ++ (b'.' ∷ join_dot (q ∷ ps))

split_dot-ne_nil : (s : List ℕ) → split_dot s ≢ []
unfolding split_dot
split_dot-ne_nil [] e = cc
split_dot-ne_nil (c ∷ s) e = elim (Bool-cases (c == b'.')) [
  | inl d ↦ cc (rw d at e)
  | inr d ↦ cons_head-ne_nil (split_dot s) (rw d at e)
]
  where
    cons_head-ne_nil : (ps : List (List ℕ)) → cons_head c ps ≢ []
    cons_head-ne_nil [] h = cc
    cons_head-ne_nil (p ∷ ps) h = cc

join_dot-cons_head : (c : ℕ) (ps : List (List ℕ)) → join_dot (cons_head c ps) ≡ c ∷ join_dot ps
unfolding join_dot
join_dot-cons_head c [] = refl
join_dot-cons_head c (p ∷ []) = refl
join_dot-cons_head c (p ∷ q ∷ ps) = refl

join_dot-nil_cons : (ps : List (List ℕ)) → ps ≢ [] → join_dot ([] ∷ ps) ≡ b'.' ∷ join_dot ps
unfolding join_dot
join_dot-nil_cons [] h = absurd (h refl)
join_dot-nil_cons (p ∷ ps) h = refl

join_dot-split_dot : (s : List ℕ) → join_dot (split_dot s) ≡ s
unfolding split_dot
join_dot-split_dot [] = unfold join_dot in refl
join_dot-split_dot (c ∷ s) = elim (Bool-cases (c == b'.')) [
  | inl d ↦
      rw (d, join_dot-nil_cons (split_dot s) (split_dot-ne_nil s), join_dot-split_dot s)
        (ground arith)
  | inr d ↦ rw (d, join_dot-cons_head c (split_dot s), join_dot-split_dot s)
]

-- The names that `Validate` accepts, and that are strings of bytes.
abbrev pub IsName : List ℕ → Type 0
IsName s = All IsByte s × (is_bad_field s ≡ false)

name-ne_nil : (s : List ℕ) → is_bad_field s ≡ false → s ≢ []
name-ne_nil [] h e = cc
name-ne_nil (c ∷ s) h e = cc

parse_part-escape_name : (s : List ℕ) → IsName s → parse_part (escape_name s) ≡ ok s
unfolding parse_part
parse_part-escape_name s h =
    rw (unescape_name-escape_name s h.0 (name-ne_nil s h.1), same_bytes_refl (escape_name s))

pub record IsKey (k : DatastoreKey) : Type 0 where
  pub map_is : IsName k.map_name
  pub surface_is : IsName k.surface
  pub force_is : IsName k.force

pub record IsSurfaceKey (k : SurfaceKey) : Type 0 where
  pub map_is : IsName k.map_name
  pub surface_is : IsName k.surface

-- For a key whose three names are strings of bytes that `Validate` accepts, `ParseDatastoreID`
-- reads the key back from its `ID`.
pub parse_datastore_id-datastore_id :
    (k : DatastoreKey) → IsKey k → parse_datastore_id (datastore_id k) ≡ ok k
unfolding parse_datastore_id datastore_id parse_id parse_parts validate
parse_datastore_id-datastore_id k h = rw (
  split_dot-append (escape_name k.map_name) (escape_name k.surface ++ (b'.' ∷ escape_name k.force))
      (escape_name-NoDot k.map_name h.map_is.0),
  split_dot-append (escape_name k.surface) (escape_name k.force)
      (escape_name-NoDot k.surface h.surface_is.0),
  split_dot-NoDot (escape_name k.force) (escape_name-NoDot k.force h.force_is.0),
  parse_part-escape_name k.map_name h.map_is,
  parse_part-escape_name k.surface h.surface_is,
  parse_part-escape_name k.force h.force_is,
  h.map_is.1,
  h.surface_is.1,
  h.force_is.1,
)

-- For a surface key whose two names are strings of bytes that `Validate` accepts, `ParseSurfaceID`
-- reads the key back from its `ID`.
pub parse_surface_id-surface_id :
    (k : SurfaceKey) → IsSurfaceKey k → parse_surface_id (surface_id k) ≡ ok k
unfolding parse_surface_id surface_id parse_id parse_parts validate_surface
parse_surface_id-surface_id k h = rw (
  split_dot-append (escape_name k.map_name) (escape_name k.surface)
      (escape_name-NoDot k.map_name h.map_is.0),
  split_dot-NoDot (escape_name k.surface) (escape_name-NoDot k.surface h.surface_is.0),
  parse_part-escape_name k.map_name h.map_is,
  parse_part-escape_name k.surface h.surface_is,
  h.map_is.1,
  h.surface_is.1,
)

parse_part-inv : (p s : List ℕ) → parse_part p ≡ ok s → escape_name s ≡ p
unfolding parse_part
parse_part-inv p s h = go (unescape_name p) h
  where
    go :
        (r : Result (List ℕ))
        → (r >>= λ t. if same_bytes (escape_name t) p then ok t else err not_canonical) ≡ ok s
        → escape_name s ≡ p
    go (ok t) e = ground (arith, same_bytes→eq (escape_name t) p)
    go (err x) e = cc

parse_parts-inv : (ps out : List (List ℕ)) → parse_parts ps ≡ ok out → map escape_name out ≡ ps
unfolding parse_parts
parse_parts-inv [] out h = ground arith
parse_parts-inv (p ∷ ps) out h =
    let (s, es, h') = bind-ok (parse_part p) (λ s. parse_parts ps >>= λ r. ok (s ∷ r)) h in
    let (r, er, h'') = bind-ok (parse_parts ps) (λ r. ok (s ∷ r)) h' in
    cc (parse_part-inv p s es, parse_parts-inv ps r er, ok-injective (s ∷ r) out h'')

parse_id-inv :
    (id : List ℕ) (n : ℕ) (out : List (List ℕ))
    → parse_id id n ≡ ok out
    → join_dot (map escape_name out) ≡ id
unfolding parse_id
parse_id-inv id n out h = elim (Bool-cases (length (split_dot id) == n)) [
  | inl e ↦ ap join_dot (parse_parts-inv (split_dot id) out (rw e at h)) ∙ join_dot-split_dot id
  | inr e ↦ absurd (ne_ok (rw e at h))
]
  where
    ne_ok : err bad_parts ≢ ok out
    ne_ok x = cc

datastore_of-inv :
    (out : List (List ℕ)) (k : DatastoreKey)
    → datastore_of out ≡ ok k
    → (join_dot (map escape_name out) ≡ datastore_id k) × (validate k ≡ ok tt)
unfolding join_dot datastore_id
datastore_of-inv (m ∷ s ∷ f ∷ []) k h =
    let c : DatastoreKey = record { map_name = m; surface = s; force = f } in
    let (u, e, h') = bind-ok (validate c) (λ _. ok c) h in
    let q : c ≡ k = ok-injective c k h' in
    subst
      (λ x. (join_dot (map escape_name (m ∷ s ∷ f ∷ [])) ≡ datastore_id x) × (validate x ≡ ok tt)) q
      (refl, e)
datastore_of-inv [] k h = cc
datastore_of-inv (m ∷ []) k h = cc
datastore_of-inv (m ∷ s ∷ []) k h = cc
datastore_of-inv (m ∷ s ∷ f ∷ x ∷ r) k h = cc

-- A key that `ParseDatastoreID` returns has the parsed string as its `ID` and passes `Validate`, so
-- no two accepted ids stand for one key.
pub datastore_id-parse_datastore_id :
    (id : List ℕ) (k : DatastoreKey)
    → parse_datastore_id id ≡ ok k
    → (datastore_id k ≡ id) × (validate k ≡ ok tt)
unfolding parse_datastore_id
datastore_id-parse_datastore_id id k h =
    let (out, e, h') = bind-ok (parse_id id 3) datastore_of h in
    let (j, v) = datastore_of-inv out k h' in (sym j ∙ parse_id-inv id 3 out e, v)

surface_of-inv :
    (out : List (List ℕ)) (k : SurfaceKey)
    → surface_of out ≡ ok k
    → (join_dot (map escape_name out) ≡ surface_id k) × (validate_surface k ≡ ok tt)
unfolding join_dot surface_id
surface_of-inv (m ∷ s ∷ []) k h =
    let c : SurfaceKey = record { map_name = m; surface = s } in
    let (u, e, h') = bind-ok (validate_surface c) (λ _. ok c) h in
    let q : c ≡ k = ok-injective c k h' in
    subst
      (λ x. (join_dot (map escape_name (m ∷ s ∷ [])) ≡ surface_id x) × (validate_surface x ≡ ok tt))
      q (refl, e)
surface_of-inv [] k h = cc
surface_of-inv (m ∷ []) k h = cc
surface_of-inv (m ∷ s ∷ f ∷ r) k h = cc

-- A key that `ParseSurfaceID` returns has the parsed string as its `ID` and passes `Validate`, so
-- no two accepted ids stand for one surface.
pub surface_id-parse_surface_id :
    (id : List ℕ) (k : SurfaceKey)
    → parse_surface_id id ≡ ok k
    → (surface_id k ≡ id) × (validate_surface k ≡ ok tt)
unfolding parse_surface_id
surface_id-parse_surface_id id k h =
    let (out, e, h') = bind-ok (parse_id id 2) surface_of h in
    let (j, v) = surface_of-inv out k h' in (sym j ∙ parse_id-inv id 2 out e, v)
