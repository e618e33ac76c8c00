-- ===== src/Terrain/Palette/Reopen.antt =====
-- `openPalette` of a palette file that was cut anywhere.
use time_shade_db.Prelude.{
  ℕ, zero, suc, ◌+◌, ◌-◌, ◌*◌, ◌/◌, ◌%◌, ◌^◌, ◌≤◌, ◌<◌, ◌≡◌, refl, sym, ap, ◌∙◌, arith, ◌==◌, ltb,
  lt→ltb, le→ltb_false, if◌then◌else◌, inl, inr, Bool-cases, subst, max,
}
use time_shade_db.Prelude.{
  true, false, Option, some, List, [], ◌∷◌, ◌++◌, All, All-take, length, length-append, length-take,
  get_elem?, take, drop, take-take, take_all, take-append_le, take-append_past, take-append_self,
  drop-append_self, replicate,
}
use time_shade_db.Prelude.Words.{IsU16, put_u16}
use time_shade_db.Core.Keys.Escape.{same_bytes_refl}
use time_shade_db.Terrain.Palette.{
  Palette, palette_magic, entries, load_palette, open_body, open_palette, put_colors,
}
use time_shade_db.Terrain.Palette.Table.{IsLut, load_lut-IsLut}
use time_shade_db.Terrain.Palette.Ensure.{IsPalette, length-put_colors}

-- A palette with some entries that was opened.
pub record Opened (o : Option Palette) (cs : List ℕ) : Type 0 where
  pub palette : Palette
  pub opened_is : o ≡ some palette
  pub kept : IsPalette palette
  pub colors_are : palette.colors ≡ cs

entries-put_colors : (cs : List ℕ) → All IsU16 cs → entries (put_colors cs) ≡ cs
unfolding entries put_colors
entries-put_colors [] h = refl
entries-put_colors (c ∷ cs) (h, hs) =
    ap (λ n. n ∷ entries (put_colors cs)) word ∙ ap (λ t. c ∷ t) (entries-put_colors cs hs)
  where
    word : c % 256 + 256 * (c / 256 % 256) ≡ c
    word = omega arith

take-put_colors : (m : ℕ) (cs : List ℕ) → take (2 * m) (put_colors cs) ≡ put_colors (take m cs)
unfolding put_colors
take-put_colors zero cs = refl
take-put_colors (suc m) [] = ap (λ n. take n []) twice
  where
    twice : 2 * suc m ≡ suc (suc (2 * m))
    twice = omega arith
take-put_colors (suc m) (c ∷ cs) =
    ap (λ n. take n (put_u16 c ++ put_colors cs)) twice
    ∙ ap (λ t. put_u16 c ++ t) (take-put_colors m cs)
  where
    twice : 2 * suc m ≡ suc (suc (2 * m))
    twice = omega arith

-- A torn entry is cut.
whole_entries :
    (j : ℕ) (cs : List ℕ)
    → (if length (take j (put_colors cs)) % 2 == 1
        then take (length (take j (put_colors cs)) - 1) (take j (put_colors cs))
        else take j (put_colors cs))
      ≡ put_colors (take (j / 2) cs)
whole_entries j cs = elim (Bool-cases (ltb j (2 * length cs))) [
  | inl c ↦ elim (Bool-cases (j % 2 == 1)) [
    | inl odd ↦
        rw (short c, odd)
          (take-take (j - 1) j (put_colors cs) (omega arith)
            ∙ ap (λ n. take n (put_colors cs)) (ground arith)
            ∙ take-put_colors (j / 2) cs)
    | inr even ↦
        rw (short c, even)
          (ap (λ n. take n (put_colors cs)) (ground arith) ∙ take-put_colors (j / 2) cs)
  ]
  | inr c ↦
      rw
        (
          take_all j (put_colors cs) (ground (arith, length-put_colors cs)),
          length-put_colors cs,
          even_length,
        )
        (ap put_colors (sym (take_all (j / 2) cs (ground arith))))
]
  where
    short : ltb j (2 * length cs) ≡ true → length (take j (put_colors cs)) ≡ j
    short c = ground (arith, length-take j (put_colors cs), length-put_colors cs)

    even_length : (2 * length cs % 2 == 1) ≡ false
    even_length = ground arith

first_entry : (cs : List ℕ) → get_elem? cs 0 ≡ some 0 → take 1 cs ≡ 0 ∷ []
first_entry [] h = cc
first_entry (c ∷ cs) h = cc

-- Entry 0 is there, or it is written.
with_entry :
    (m : ℕ) (cs : List ℕ)
    → get_elem? cs 0 ≡ some 0
    → (if ltb (length (put_colors (take m cs))) 2 then 0 ∷ 0 ∷ [] else put_colors (take m cs))
      ≡ put_colors (take (max 1 m) cs)
unfolding put_colors
with_entry zero cs z = ap put_colors (sym (first_entry cs z))
with_entry (suc m) [] z = cc
with_entry (suc m) (c ∷ cs) z =
    rw (le→ltb_false (length (put_colors (take (suc m) (c ∷ cs)))) 2 (omega arith))
      (ap (λ n. put_colors (take n (c ∷ cs))) at_least)
  where
    at_least : suc m ≡ max 1 (suc m)
    at_least = omega arith

-- The entries that are left, with entry 0.
open_body-take :
    (head : List ℕ) (j : ℕ) (cs : List ℕ)
    → All IsU16 cs
    → get_elem? cs 0 ≡ some 0
    → open_body head (take j (put_colors cs))
      ≡ load_palette (head ++ put_colors (take (max 1 (j / 2)) cs)) (take (max 1 (j / 2)) cs)
unfolding open_body
open_body-take head j cs h z =
    rw
      (
        open_body,
        whole_entries j cs,
        with_entry (j / 2) cs z,
        entries-put_colors (take (max 1 (j / 2)) cs) (All-take IsU16 (max 1 (j / 2)) cs h),
      )
      refl

load_palette-Opened :
    (head cs : List ℕ)
    → length head ≡ 8
    → take 4 head ≡ palette_magic
    → length cs ≤ 2 ^ 16
    → All IsU16 cs
    → get_elem? cs 0 ≡ some 0
    → Opened (load_palette (head ++ put_colors cs) cs) cs
load_palette-Opened head [] e m l h z = cc
load_palette-Opened head (c ∷ cs) e m l h z = record {
  palette = _;
  opened_is = rw (zero_entry) refl;
  kept = record {
    head = head;
    head_is = e;
    magic_is = m;
    file_is = inr refl;
    colors_are = refl;
    present_is = refl;
    lut_is = load_lut-IsLut [] (c ∷ cs) (λ d. 0) none_known (omega arith);
    few = l;
    words = h;
    zero_is = z;
  };
  colors_are = refl;
}
  where
    zero_entry : (c == 0) ≡ true
    zero_entry = ground arith

    none_known : IsLut [] (λ d. 0)
    none_known = record { place = λ d k. absurd (omega arith); known = λ d i k. cc }

take_first :
    (n : ℕ) (cs : List ℕ) → 0 < n → get_elem? cs 0 ≡ some 0 → get_elem? (take n cs) 0 ≡ some 0
take_first zero cs h z = absurd (omega arith)
take_first (suc n) [] h z = z
take_first (suc n) (c ∷ cs) h z = z

-- The entries that first bytes of a file leave.
abbrev pub entries_left : ℕ → List ℕ → List ℕ
entries_left n cs = take (max 1 ((n - 8) / 2)) cs

left-Opened :
    (head cs : List ℕ) (n : ℕ)
    → length head ≡ 8
    → take 4 head ≡ palette_magic
    → length cs ≤ 2 ^ 16
    → All IsU16 cs
    → get_elem? cs 0 ≡ some 0
    → Opened
        (load_palette (head ++ put_colors (entries_left n cs)) (entries_left n cs))
        (entries_left n cs)
left-Opened head cs n e m l h z =
    load_palette-Opened head (entries_left n cs) e m
      (omega (arith, length-take (max 1 ((n - 8) / 2)) cs))
      (All-take IsU16 (max 1 ((n - 8) / 2)) cs h)
      (take_first (max 1 ((n - 8) / 2)) cs (omega arith) z)

-- The new header.
new_file :
    (n : ℕ) (cs raw : List ℕ)
    → n < 8
    → length raw < 8
    → get_elem? cs 0 ≡ some 0
    → open_palette raw
      ≡ load_palette
          ((palette_magic ++ replicate 4 0) ++ put_colors (entries_left n cs))
          (entries_left n cs)
unfolding open_palette open_body entries put_colors
new_file n cs raw h short z =
    rw (open_palette, lt→ltb (length raw) 8 short)
      (ap (λ xs. load_palette ((palette_magic ++ replicate 4 0) ++ put_colors xs) xs) (sym one))
  where
    one_entry : max 1 ((n - 8) / 2) ≡ 1
    one_entry = omega arith

    one : entries_left n cs ≡ 0 ∷ []
    one = ap (λ (m : ℕ). take m cs) one_entry ∙ first_entry cs z

old_file :
    (head cs : List ℕ) (n : ℕ)
    → length head ≡ 8
    → take 4 head ≡ palette_magic
    → 8 ≤ n
    → All IsU16 cs
    → get_elem? cs 0 ≡ some 0
    → open_palette (take n (head ++ put_colors cs))
      ≡ load_palette (head ++ put_colors (entries_left n cs)) (entries_left n cs)
unfolding open_palette
old_file head cs n e m le h z =
    rw
      (
        take-append_past n (n - 8) head (put_colors cs) (omega (arith, e)),
        open_palette,
        le→ltb_false (length (head ++ body)) 8 (omega (arith, length-append head body)),
        take-append_le 4 head body (omega (arith, e)),
        m,
        same_bytes_refl palette_magic,
        front,
        after,
      )
      (open_body-take head (n - 8) cs h z)
  where
    body : List ℕ
    body = take (n - 8) (put_colors cs)

    front : take 8 (head ++ body) ≡ head
    front = ap (λ k. take k (head ++ body)) (sym e) ∙ take-append_self head body

    after : drop 8 (head ++ body) ≡ body
    after = ap (λ k. drop k (head ++ body)) (sym e) ∙ drop-append_self head body

-- For a palette and the first n bytes of the file of its entries: `openPalette` succeeds, and gives a
-- palette whose entries are the first of these, as many as stand whole in the bytes and at least
-- entry 0.
pub open_palette-take :
    (p : Palette) (n : ℕ) (k : IsPalette p)
    → Opened (open_palette (take n (k.head ++ put_colors p.colors))) (entries_left n p.colors)
open_palette-take p n k = elim (Bool-cases (ltb n 8)) [
  | inl c ↦
      subst (λ o. Opened o (entries_left n p.colors))
        (sym (
          new_file n p.colors (take n (k.head ++ put_colors p.colors)) (ground arith)
            (ground (arith, length-take n (k.head ++ put_colors p.colors))) k.zero_is))
        (left-Opened (palette_magic ++ replicate 4 0) p.colors n refl refl k.few k.words k.zero_is)
  | inr c ↦
      subst (λ o. Opened o (entries_left n p.colors))
        (sym (old_file k.head p.colors n k.head_is k.magic_is (ground arith) k.words k.zero_is))
        (left-Opened k.head p.colors n k.head_is k.magic_is k.few k.words k.zero_is)
]
