-- ===== src/Terrain/Palette/Adding.antt =====
-- The loop of `ensure` over the colours.
use time_shade_db.Prelude.{
  ℕ, suc, ◌-◌, ◌%◌, ◌^◌, ◌≤◌, ◌<◌, ◌≡◌, sym, ap, ◌∙◌, arith, ◌==◌, leb, inl, inr, Bool-cases,
}
use time_shade_db.Prelude.{
  Option, none, some, List, [], ◌∷◌, ◌++◌, All, length, length-append, get_elem?,
  get_elem?-append_last, append_assoc, append-nil,
}
use time_shade_db.Prelude.Words.{IsU16}
use time_shade_db.Terrain.Palette.{set_lut, add_colors}
use time_shade_db.Terrain.Palette.Table.{IsLut, set_lut-IsLut, get_elem?-append}

-- What the loop of `ensure` makes, where the palette does not get full.
pub record IsAdded (px cs : List ℕ) (cs' : List ℕ) (lut' : ℕ → ℕ) : Type 0 where
  pub more : List ℕ
  pub colors_are : cs' ≡ cs ++ more
  pub lut_is : IsLut cs' lut'
  pub few : length cs' ≤ 2 ^ 16
  pub knows : All (λ c. 0 < lut' c) px
  pub words : All IsU16 more

abbrev pub Adds : List ℕ → List ℕ → Option (List ℕ × (ℕ → ℕ)) → Type 0
Adds px cs none = Unit {0}
Adds px cs (some (cs', lut')) = IsAdded px cs cs' lut'

-- A colour that stands in the palette is known after more are added.
knows_first :
    (c i : ℕ) (px cs : List ℕ) (cs' : List ℕ) (lut' : ℕ → ℕ)
    → get_elem? cs i ≡ some c
    → IsAdded px cs cs' lut'
    → 0 < lut' c
knows_first c i px cs cs' lut' h a =
    a.lut_is.known c i (ap (λ xs. get_elem? xs i) a.colors_are ∙ get_elem?-append cs a.more i c h)

known-Adds :
    (c i : ℕ) (px cs : List ℕ) (o : Option (List ℕ × (ℕ → ℕ)))
    → get_elem? cs i ≡ some c
    → Adds px cs o
    → Adds (c ∷ px) cs o
known-Adds c i px cs none h a = tt
known-Adds c i px cs (some (cs', lut')) h a = record {
  more = a.more;
  colors_are = a.colors_are;
  lut_is = a.lut_is;
  few = a.few;
  knows = (knows_first c i px cs cs' lut' h a, a.knows);
  words = a.words;
}

new-Adds :
    (c : ℕ) (px cs : List ℕ) (o : Option (List ℕ × (ℕ → ℕ)))
    → IsU16 c
    → Adds px (cs ++ (c ∷ [])) o
    → Adds (c ∷ px) cs o
new-Adds c px cs none w a = tt
new-Adds c px cs (some (cs', lut')) w a = record {
  more = c ∷ a.more;
  colors_are = a.colors_are ∙ append_assoc cs (c ∷ []) a.more;
  lut_is = a.lut_is;
  few = a.few;
  knows = (
    knows_first c (length cs) px (cs ++ (c ∷ [])) cs' lut' (get_elem?-append_last cs c) a,
    a.knows,
  );
  words = (w, a.words);
}

pub add_colors-Adds :
    (px cs : List ℕ) (lut : ℕ → ℕ)
    → IsLut cs lut
    → length cs ≤ 2 ^ 16
    → All IsU16 px
    → Adds px cs (add_colors px cs lut)
unfolding add_colors
add_colors-Adds [] cs lut l few h = record {
  more = [];
  colors_are = sym (append-nil cs);
  lut_is = l;
  few = few;
  knows = tt;
  words = tt;
}
add_colors-Adds (c ∷ px) cs lut l few (w, ws) = elim (Bool-cases (lut c == 0)) [
  | inr e ↦
      rw (add_colors, e)
        (known-Adds c (lut c - 1) px cs (add_colors px cs lut) (l.place c (ground arith))
          (add_colors-Adds px cs lut l few ws))
  | inl e ↦ elim (Bool-cases (leb (2 ^ 16) (length cs))) [
    | inl full ↦ rw (add_colors, e, full) tt
    | inr room ↦
        rw (add_colors, e, room)
          (new-Adds c px cs _ w (
            add_colors-Adds px (cs ++ (c ∷ [])) (set_lut c (suc (length cs) % 2 ^ 32) lut)
              (set_lut-IsLut cs lut c _ l (omega arith)) (ground (arith, length-append cs (c ∷ [])))
              ws))
  ]
]
