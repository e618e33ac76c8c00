-- ===== src/Terrain/Palette/Table.antt =====
-- The lookup table and the bitmap of a palette.
use time_shade_db.Prelude.{
  ℕ, zero, suc, ◌+◌, ◌-◌, ◌%◌, ◌^◌, ◌≤◌, ◌<◌, ◌≡◌, refl, sym, ap, ◌∙◌, arith, ◌==◌, ==_iff,
  if◌then◌else◌, inl, inr, ◌⊎◌, Bool-cases, subst,
}
use time_shade_db.Prelude.{
  Bool, true, false, some, List, [], ◌∷◌, ◌++◌, length, length-append, get_elem?,
  get_elem?-append_last, append_assoc, append-nil,
}
use time_shade_db.Prelude.Maps.{some_inj}
use time_shade_db.Terrain.Palette.{set_lut, set_present, load_lut, load_present}

module _ {A : Type 0} where
  pub get_elem?-append :
      (xs ys : List A) (i : ℕ) (x : A) → get_elem? xs i ≡ some x → get_elem? (xs ++ ys) i ≡ some x
  get_elem?-append [] ys i x h = cc
  get_elem?-append (y ∷ xs) ys zero x h = h
  get_elem?-append (y ∷ xs) ys (suc i) x h = get_elem?-append xs ys i x h

  pub get_elem?_lt : (xs : List A) (i : ℕ) (x : A) → get_elem? xs i ≡ some x → i < length xs
  get_elem?_lt [] i x h = cc
  get_elem?_lt (y ∷ xs) zero x h = omega arith
  get_elem?_lt (y ∷ xs) (suc i) x h = omega (arith, get_elem?_lt xs i x h)

  get_elem?_last :
      (xs : List A) (y : A) (i : ℕ) (x : A)
      → get_elem? (xs ++ (y ∷ [])) i ≡ some x
      → (get_elem? xs i ≡ some x) ⊎ (y ≡ x)
  get_elem?_last [] y zero x h = inr (some_inj y x h)
  get_elem?_last [] y (suc i) x h = cc
  get_elem?_last (z ∷ xs) y zero x h = inl h
  get_elem?_last (z ∷ xs) y (suc i) x h = get_elem?_last xs y i x h

-- The table gives every colour of the palette a place where it stands, plus one, and no other
-- colour.
pub record IsLut (cs : List ℕ) (lut : ℕ → ℕ) : Type 0 where
  pub place : (c : ℕ) → 0 < lut c → get_elem? cs (lut c - 1) ≡ some c
  pub known : (c i : ℕ) → get_elem? cs i ≡ some c → 0 < lut c

pub lut_le : (cs : List ℕ) (lut : ℕ → ℕ) (c : ℕ) → IsLut cs lut → lut c ≤ length cs
lut_le cs lut c l = elim (Bool-cases (lut c == 0)) [
  | inl e ↦ ground arith
  | inr e ↦
      let lt : 0 < lut c = ground arith in
      omega (arith, get_elem?_lt cs (lut c - 1) c (l.place c lt))
]

-- A colour that is known stands in the table already; a new one is set.
known-IsLut :
    (cs : List ℕ) (lut : ℕ → ℕ) (c : ℕ)
    → IsLut cs lut
    → (lut c == 0) ≡ false
    → IsLut (cs ++ (c ∷ [])) lut
known-IsLut cs lut c l e = record {
  place = λ x h. get_elem?-append cs (c ∷ []) (lut x - 1) x (l.place x h);
  known = λ x i h. elim (get_elem?_last cs c i x h) [
    | inl k ↦ l.known x i k
    | inr k ↦ subst (λ y. 0 < lut y) k (ground arith)
  ];
}

pub set_lut-IsLut :
    (cs : List ℕ) (lut : ℕ → ℕ) (c v : ℕ)
    → IsLut cs lut
    → v ≡ suc (length cs)
    → IsLut (cs ++ (c ∷ [])) (set_lut c v lut)
set_lut-IsLut cs lut c v l e = record {
  place = λ x h. elim (Bool-cases (x == c)) [
    | inl k ↦ rw (k) (
        ap (λ i. get_elem? (cs ++ (c ∷ [])) i) at_end
        ∙ get_elem?-append_last cs c
        ∙ ap some (sym ((==_iff x c).0 k)))
    | inr k ↦ rw (k) (get_elem?-append cs (c ∷ []) (lut x - 1) x (l.place x (rw (k) at h)))
  ];
  known = λ x i h. elim (Bool-cases (x == c)) [
    | inl k ↦ rw (k) (omega arith)
    | inr k ↦
        rw (k) (elim (get_elem?_last cs c i x h) [ inl o ↦ l.known x i o | inr o ↦ ground arith ])
  ];
}
  where
    at_end : v - 1 ≡ length cs
    at_end = omega arith

-- The loop of `openPalette` makes the table of all the entries.
pub load_lut-IsLut :
    (done rest : List ℕ) (lut : ℕ → ℕ)
    → IsLut done lut
    → length done + length rest < 2 ^ 32
    → IsLut (done ++ rest) (load_lut (length done) rest lut)
unfolding load_lut
load_lut-IsLut done [] lut l h = rw (append-nil done) l
load_lut-IsLut done (c ∷ cs) lut l h =
    subst (λ xs. IsLut xs (load_lut (length done) (c ∷ cs) lut)) (append_assoc done (c ∷ []) cs)
      (subst
        (λ n.
          IsLut ((done ++ (c ∷ [])) ++ cs) (
            load_lut n cs (if lut c == 0 then set_lut c ((length done + 1) % 2 ^ 32) lut else lut)))
        longer
        (load_lut-IsLut (done ++ (c ∷ [])) cs _ next (omega (arith, length-append done (c ∷ [])))))
  where
    longer : length (done ++ (c ∷ [])) ≡ suc (length done)
    longer = omega (arith, length-append done (c ∷ []))

    next :
        IsLut
          (done ++ (c ∷ []))
          (if lut c == 0 then set_lut c ((length done + 1) % 2 ^ 32) lut else lut)
    next = elim (Bool-cases (lut c == 0)) [
      | inl e ↦ rw (e) (set_lut-IsLut done lut c _ l (omega arith))
      | inr e ↦ rw (e) (known-IsLut done lut c l e)
    ]

pub load_present-append :
    (xs ys : List ℕ) (present : ℕ → Bool)
    → load_present ys (load_present xs present) ≡ load_present (xs ++ ys) present
unfolding load_present
load_present-append [] ys present = refl
load_present-append (c ∷ cs) ys present = load_present-append cs ys (set_present c present)

load_present_keep :
    (cs : List ℕ) (present : ℕ → Bool) (c : ℕ) → present c ≡ true → load_present cs present c ≡ true
unfolding load_present
load_present_keep [] present c h = h
load_present_keep (d ∷ cs) present c h =
    load_present_keep cs (set_present d present) c (ground arith)

pub load_present-get_elem? :
    (cs : List ℕ) (present : ℕ → Bool) (i c : ℕ)
    → get_elem? cs i ≡ some c
    → load_present cs present c ≡ true
unfolding load_present
load_present-get_elem? [] present i c h = cc
load_present-get_elem? (d ∷ cs) present zero c h =
    load_present_keep cs (set_present d present) c (rw ((==_iff c d).1 (sym (some_inj d c h))) refl)
load_present-get_elem? (d ∷ cs) present (suc i) c h =
    load_present-get_elem? cs (set_present d present) i c h
