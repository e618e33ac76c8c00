-- ===== src/Prelude/Maps.antt =====
-- Maps as association lists, over keys with a Boolean equality. A Go map has no order: the order
-- of the list is that of the first insertions.
use Prim.Native.Nat.{ℕ}
use mathlib.Core.Path.{◌≡◌, refl, subst₂}
use mathlib.Core.Logic.{◌↔◌, inl, inr}
use mathlib.Core.Bool.{Bool, true, false}
use mathlib.Core.Option.{Option, none, some}
use mathlib.Core.List.{List, [], ◌∷◌}
use time_shade_db.Prelude.Tests.{if◌then◌else◌, Bool-cases, ◌==◌ as nat_eq, ==_iff}
use time_shade_db.Prelude.Int.{ℤ, ◌==ℤ◌, ==ℤ_iff}

pub some_inj {ℓ} : {A : Type ℓ} (a b : A) → some a ≡ some b → a ≡ b
some_inj a b h = cc

pub record Eq {ℓ} (K : Type ℓ) : Type ℓ where
  pub same : K → K → Bool
  pub same_iff : (a b : K) → (same a b ≡ true) ↔ (a ≡ b)

instance abbrev pub nat_Eq : Eq ℕ
nat_Eq = record { same = nat_eq; same_iff = ==_iff }

instance abbrev pub int_Eq : Eq ℤ
int_Eq = record { same = ◌==ℤ◌; same_iff = ==ℤ_iff }

abbrev pub Map {ℓ κ} : Type ℓ → Type κ → Type (ℓ ⊔ κ)
Map K V = List (K × V)

module _ {ℓ κ} {K : Type ℓ} {V : Type κ} ⦃e : Eq K⦄ where
  unfoldable pub lookup : K → Map K V → Option V
  lookup k [] = none
  lookup k ((j, v) ∷ m) = let rest = lookup k m in if e.same j k then some v else rest

  unfoldable pub insert : K → V → Map K V → Map K V
  insert k v [] = (k, v) ∷ []
  insert k v ((j, w) ∷ m) =
      let rest = insert k v m in if e.same j k then (j, v) ∷ m else (j, w) ∷ rest

  -- `delete(m, k)`
  unfoldable pub erase : K → Map K V → Map K V
  erase k [] = []
  erase k ((j, w) ∷ m) = let rest = erase k m in if e.same j k then rest else (j, w) ∷ rest

  pub lookup-insert_self : (k : K) (v : V) (m : Map K V) → lookup k (insert k v m) ≡ some v
  unfolding lookup insert
  lookup-insert_self k v [] = rw ((e.same_iff k k).1 refl)
  lookup-insert_self k v ((j, w) ∷ m) = elim (Bool-cases (e.same j k)) [
    | inl s ↦ rw (s, s)
    | inr s ↦ rw (s, s) (lookup-insert_self k v m)
  ]

  pub lookup-insert_ne :
      (j k : K) (v : V) (m : Map K V) → e.same k j ≡ false → lookup j (insert k v m) ≡ lookup j m
  unfolding lookup insert
  lookup-insert_ne j k v [] h = rw h
  lookup-insert_ne j k v ((i, w) ∷ m) h = elim (Bool-cases (e.same i k)) [
    | inl s ↦ let ik = (e.same_iff i k).0 s in rw (s, ik, h)
    | inr s ↦ rw (s, lookup-insert_ne j k v m h)
  ]

  pub lookup-erase_ne :
      (j k : K) (m : Map K V) → e.same k j ≡ false → lookup j (erase k m) ≡ lookup j m
  unfolding lookup erase
  lookup-erase_ne j k [] h = refl
  lookup-erase_ne j k ((i, w) ∷ m) h = elim (Bool-cases (e.same i k)) [
    | inl s ↦ let ik = (e.same_iff i k).0 s in rw (s, ik, h) (lookup-erase_ne j k m h)
    | inr s ↦ rw (s, lookup-erase_ne j k m h)
  ]

module _ {ℓ κ} {K : Type ℓ} {V : Type κ} where
  unfoldable pub keys : Map K V → List K
  keys [] = []
  keys ((k, v) ∷ m) = k ∷ keys m

  -- Every entry.
  abbrev pub Entries {μ} : (K → V → Type μ) → Map K V → Type μ
  Entries P [] = Unit {μ}
  Entries P ((k, v) ∷ m) = P k v × Entries P m

module _ {ℓ κ μ} {K : Type ℓ} {V : Type κ} ⦃e : Eq K⦄ (P : K → V → Type μ) where
  pub insert-Entries :
      (k : K) (v : V) (m : Map K V)
      → ((j : K) → e.same j k ≡ true → P j v)
      → Entries P m
      → Entries P (insert k v m)
  unfolding insert
  insert-Entries k v [] p h = (p k ((e.same_iff k k).1 refl), h)
  insert-Entries k v ((j, w) ∷ m) p h = elim (Bool-cases (e.same j k)) [
    | inl s ↦ rw s (p j s, h.1)
    | inr s ↦ rw s (h.0, insert-Entries k v m p h.1)
  ]

  pub erase-Entries : (k : K) (m : Map K V) → Entries P m → Entries P (erase k m)
  unfolding erase
  erase-Entries k [] h = h
  erase-Entries k ((j, w) ∷ m) h = elim (Bool-cases (e.same j k)) [
    | inl s ↦ rw s (erase-Entries k m h.1)
    | inr s ↦ rw s (h.0, erase-Entries k m h.1)
  ]

  pub lookup-Entries : (k : K) (v : V) (m : Map K V) → Entries P m → lookup k m ≡ some v → P k v
  unfolding lookup
  lookup-Entries k v [] h f = cc
  lookup-Entries k v ((j, w) ∷ m) h f = elim (Bool-cases (e.same j k)) [
    | inl s ↦ subst₂ P ((e.same_iff j k).0 s) (some_inj w v (rw s at f)) h.0
    | inr s ↦ lookup-Entries k v m h.1 (rw s at f)
  ]

  -- What is left after `delete` is what stood there under another key.
  pub erase-Entries_ne {ν} :
      (Q : K → V → Type ν) (k : K) (m : Map K V)
      → ((j : K) (v : V) → e.same j k ≡ false → P j v → Q j v)
      → Entries P m
      → Entries Q (erase k m)
  unfolding erase
  erase-Entries_ne Q k [] f h = tt
  erase-Entries_ne Q k ((j, w) ∷ m) f h = elim (Bool-cases (e.same j k)) [
    | inl s ↦ rw s (erase-Entries_ne Q k m f h.1)
    | inr s ↦ rw s (f j w s h.0, erase-Entries_ne Q k m f h.1)
  ]
