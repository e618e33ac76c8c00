-- ===== src/Terrain/Palette/Ensure.antt =====
-- `ensure` adds the colours that are missing and changes no entry.
use time_shade_db.Prelude.{
  ℕ, ◌+◌, ◌-◌, ◌*◌, ◌^◌, ◌≤◌, ◌<◌, ◌≡◌, refl, sym, ap, ◌∙◌, arith, inl, inr, ◌⊎◌, ◌≢◌, Bool-cases,
  subst,
}
use time_shade_db.Prelude.{
  true, false, Option, none, some, List, [], ◌∷◌, ◌++◌, All, All-append, length, length-append,
  get_elem?, append_assoc, append-nil, take, drop, take-append_self, drop-append_self,
}
use time_shade_db.Prelude.Words.{IsU16, put_u16}
use time_shade_db.Series.File.{write_at}
use time_shade_db.Series.File.Writing.{write_at-length}
use time_shade_db.Terrain.Palette.{
  Palette, PalSnap, PaletteError, palette_magic, palette_closed, palette_full, write_error, covers,
  load_present, add_colors, put_colors, publish, ensure,
}
use time_shade_db.Terrain.Palette.Table.{
  IsLut, get_elem?-append, load_present-append, load_present-get_elem?,
}
use time_shade_db.Terrain.Palette.Adding.{Adds, add_colors-Adds}

-- The invariant of a palette: an open file holds the header and the entries, and the snapshot is
-- made of the entries.
pub record IsPalette (p : Palette) : Type 0 where
  pub head : List ℕ
  pub head_is : length head ≡ 8
  pub magic_is : take 4 head ≡ palette_magic
  pub file_is : (p.file ≡ none) ⊎ (p.file ≡ some (head ++ put_colors p.colors))
  pub colors_are : p.snap.colors ≡ p.colors
  pub present_is : p.snap.present ≡ load_present p.colors (λ c. false)
  pub lut_is : IsLut p.colors p.snap.lut
  pub few : length p.colors ≤ 2 ^ 16
  pub words : All IsU16 p.colors
  pub zero_is : get_elem? p.colors 0 ≡ some 0

-- The palette after `ensure`: its entries, which begin with the old ones and are the old ones
-- after an error, and the colours that it has where there is no error.
pub record Ensured (px : List ℕ) (p : Palette) (e : Option PaletteError) (p' : Palette)
    : Type 0 where
  pub kept : IsPalette p'
  pub more : List ℕ
  pub colors_are : p'.colors ≡ p.colors ++ more
  pub outcome : ((e ≡ none) × (covers p'.snap px ≡ true)) ⊎ ((e ≢ none) × (more ≡ []))

pub covers-All :
    (ps : PalSnap) (px : List ℕ) → All (λ c. ps.present c ≡ true) px → covers ps px ≡ true
unfolding covers
covers-All ps [] h = refl
covers-All ps (c ∷ px) (h, hs) = rw (covers, h, covers-All ps px hs) refl

pub put_colors-append : (xs ys : List ℕ) → put_colors (xs ++ ys) ≡ put_colors xs ++ put_colors ys
unfolding put_colors
put_colors-append [] ys = refl
put_colors-append (x ∷ xs) ys = ap (λ t. put_u16 x ++ t) (put_colors-append xs ys)

pub length-put_colors : (xs : List ℕ) → length (put_colors xs) ≡ 2 * length xs
unfolding put_colors
length-put_colors [] = refl
length-put_colors (x ∷ xs) = omega (arith, length-put_colors xs)

length-file :
    (head cs : List ℕ) → length head ≡ 8 → 8 + 2 * length cs ≡ length (head ++ put_colors cs)
length-file head cs h = omega (arith, length-append head (put_colors cs), length-put_colors cs)

-- New entries are written after the old ones.
write_at-put_colors :
    (head cs bytes : List ℕ)
    → length head ≡ 8
    → write_at (8 + 2 * length cs) bytes (head ++ put_colors cs) ≡ head ++ (put_colors cs ++ bytes)
write_at-put_colors head cs bytes h =
    write_at-length _ bytes (head ++ put_colors cs) (length-file head cs h)
    ∙ append_assoc head (put_colors cs) bytes

knows-present :
    (cs : List ℕ) (lut : ℕ → ℕ) (px : List ℕ)
    → IsLut cs lut
    → All (λ c. 0 < lut c) px
    → All (λ c. load_present cs (λ d. false) c ≡ true) px
knows-present cs lut [] l h = tt
knows-present cs lut (c ∷ px) l (h, hs) = (
  load_present-get_elem? cs (λ d. false) (lut c - 1) c (l.place c h),
  knows-present cs lut px l hs,
)

-- What `ensure` publishes, and what it leaves where the write fails.
publish-Ensured :
    (fault : Option ℕ) (px : List ℕ) (p : Palette) (more : List ℕ) (lut' : ℕ → ℕ) (k : IsPalette p)
    → IsLut (p.colors ++ more) lut'
    → length (p.colors ++ more) ≤ 2 ^ 16
    → All (λ c. 0 < lut' c) px
    → All IsU16 more
    → Ensured px p
        (publish fault (k.head ++ put_colors p.colors) (p.colors ++ more) lut' p).0
        (publish fault (k.head ++ put_colors p.colors) (p.colors ++ more) lut' p).1
publish-Ensured none px p more lut' k l few knows words = record {
  kept = record {
    head = k.head;
    head_is = k.head_is;
    magic_is = k.magic_is;
    file_is = inr (
        ap some (
          write_at-put_colors k.head p.colors (put_colors new) k.head_is
          ∙ ap (λ t. k.head ++ t)
              (ap (λ xs. put_colors p.colors ++ put_colors xs) new_is
                ∙ sym (put_colors-append p.colors more))));
    colors_are = refl;
    present_is = present_is;
    lut_is = l;
    few = few;
    words = All-append IsU16 p.colors more k.words words;
    zero_is = get_elem?-append p.colors more 0 0 k.zero_is;
  };
  more = more;
  colors_are = refl;
  outcome = inl (
    refl,
    covers-All _ px (
        subst (λ present. All (λ c. present c ≡ true) px) (sym present_is)
          (knows-present (p.colors ++ more) lut' px l knows)),
  );
}
  where
    new : List ℕ
    new = drop (length p.colors) (p.colors ++ more)

    new_is : new ≡ more
    new_is = drop-append_self p.colors more

    present_is : load_present new p.snap.present ≡ load_present (p.colors ++ more) (λ c. false)
    present_is =
        ap (λ xs. load_present xs p.snap.present) new_is
        ∙ ap (load_present more) k.present_is
        ∙ load_present-append p.colors more (λ c. false)
publish-Ensured (some j) px p more lut' k l few knows words = record {
  kept = record {
    head = k.head;
    head_is = k.head_is;
    magic_is = k.magic_is;
    file_is = inr (
        ap some (
          ap (take (8 + 2 * length p.colors)) (
            write_at-length _ part (k.head ++ put_colors p.colors)
              (length-file k.head p.colors k.head_is))
          ∙ ap (λ n. take n ((k.head ++ put_colors p.colors) ++ part))
              (length-file k.head p.colors k.head_is)
          ∙ take-append_self (k.head ++ put_colors p.colors) part));
    colors_are = k.colors_are;
    present_is = k.present_is;
    lut_is = k.lut_is;
    few = k.few;
    words = k.words;
    zero_is = k.zero_is;
  };
  more = [];
  colors_are = sym (append-nil p.colors);
  outcome = inr ((λ e. some_none e), refl);
}
  where
    part : List ℕ
    part = take j (put_colors (drop (length p.colors) (p.colors ++ more)))

    some_none : some write_error ≡ none → ⊥
    some_none e = cc

-- An error before the write, or nothing to do.
unchanged-Ensured :
    (px : List ℕ) (p : Palette) (e : Option PaletteError)
    → IsPalette p
    → ((e ≡ none) × (covers p.snap px ≡ true)) ⊎ (e ≢ none)
    → Ensured px p e p
unchanged-Ensured px p e k o = record {
  kept = k;
  more = [];
  colors_are = sym (append-nil p.colors);
  outcome = elim o [ inl c ↦ inl c | inr n ↦ inr (n, refl) ];
}

-- The outcome of the loop.
added-Ensured :
    (fault : Option ℕ) (px : List ℕ) (p : Palette) (k : IsPalette p) (o : Option (List ℕ × (ℕ → ℕ)))
    (out : Option PaletteError × Palette)
    → Adds px p.colors o
    → out ≡ elim o [
      | none ↦ (some palette_full, p)
      | some (colors, lut) ↦ publish fault (k.head ++ put_colors p.colors) colors lut p
    ]
    → Ensured px p out.0 out.1
added-Ensured fault px p k none out a e =
    subst (λ x. Ensured px p x.0 x.1) (sym e)
      (unchanged-Ensured px p (some palette_full) k (inr (λ x. some_none x)))
  where
    some_none : some palette_full ≡ none → ⊥
    some_none x = cc
added-Ensured fault px p k (some (cs', lut')) out a e =
    subst (λ x. Ensured px p x.0 x.1) (sym e)
      (subst
        (λ xs.
          Ensured px p (publish fault (k.head ++ put_colors p.colors) xs lut' p).0
            (publish fault (k.head ++ put_colors p.colors) xs lut' p).1)
        (sym a.colors_are)
        (publish-Ensured fault px p a.more lut' k
          (subst (λ xs. IsLut xs lut') a.colors_are a.lut_is)
          (subst (λ xs. length xs ≤ 2 ^ 16) a.colors_are a.few) a.knows a.words))

-- For a palette whose file holds the header and its entries, and colours of 16 bits: after `ensure`
-- the file, the table and the bitmap are those of the entries again. These begin with the old
-- entries, so that no entry changes; they cover the colours where there is no error, and are the
-- old ones where the palette is closed or full or the write fails after any number of bytes.
pub ensure-Ensured :
    (fault : Option ℕ) (px : List ℕ) (p : Palette)
    → IsPalette p
    → All IsU16 px
    → Ensured px p (ensure fault px p).0 (ensure fault px p).1
unfolding ensure
ensure-Ensured fault px p k h = elim (Bool-cases (covers p.snap px)) [
  | inl c ↦ rw (ensure, c) (unchanged-Ensured px p none k (inl (refl, c)))
  | inr c ↦ elim k.file_is [
    | inl e ↦
        simp (ensure, c, e)
          (unchanged-Ensured px p (some palette_closed) k (inr (λ x. some_none palette_closed x)))
    | inr e ↦
        added-Ensured fault px p k (add_colors px p.colors p.snap.lut) (ensure fault px p)
          (add_colors-Adds px p.colors p.snap.lut k.lut_is k.few h) (simp (ensure, c, e) refl)
  ]
]
  where
    some_none : (e : PaletteError) → some e ≡ none → ⊥
    some_none e x = cc
