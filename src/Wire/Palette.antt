-- ===== src/Wire/Palette.antt =====
-- TSP3 palettes: EncodePalette and DecodePalette of internal/core/wire/tile.go.
mod Tests
use time_shade_db.Prelude.{
  ℕ, zero, suc, ◌+◌, ◌*◌, ◌/◌, ◌%◌, ◌^◌, ◌≤◌, ◌<◌, ◌≡◌, refl, sym, ap, ◌∙◌, arith, ltb, ◌==◌,
  ==_iff, not, ◌&&◌, ◌||◌, if◌then◌else◌,
}
use time_shade_db.Prelude.{
  Bool, true, false, Bool-cases, inl, inr, Option, none, some, List, [], ◌∷◌, ◌++◌, All, length,
  length-append, take, drop, get_or, length-drop, subst,
}
use time_shade_db.Prelude.Words.{
  IsByte, IsU16, IsU32, put_u16, put_u32, get_u16, get_u32, get_u16-put_u16, get_u32-put_u32,
}
use time_shade_db.Prelude.Maps.{some_inj}
use time_shade_db.Core.Keys.{same_bytes}
use time_shade_db.Core.Keys.Escape.{same_bytes→eq}
use mathlib.Core.Path.{ap₂}

-- `MagicPalette`
abbrev pub magic_palette : List ℕ
magic_palette = b'T' ∷ b'S' ∷ b'P' ∷ b'3' ∷ []

-- The loop of `EncodePalette` over the colours.
unfoldable pub put_colours : List ℕ → List ℕ
put_colours [] = []
put_colours (c ∷ cs) = put_u16 c ++ put_colours cs

-- `EncodePalette`
unfoldable pub encode_palette : List ℕ → List ℕ
encode_palette cs = magic_palette ++ (put_u32 (length cs % 2 ^ 32) ++ put_colours cs)

-- The loop of `DecodePalette` over n colours.
unfoldable pub get_colours : ℕ → List ℕ → List ℕ
get_colours zero b = []
get_colours (suc n) b = get_u16 b ∷ get_colours n (drop 2 b)

-- `DecodePalette`; `none` is ErrFormat.
unfoldable pub decode_palette : List ℕ → Option (List ℕ)
decode_palette b =
    if ltb (length b) 8 || not (same_bytes (take 4 b) magic_palette)
    then none
    else let n = get_u32 (drop 4 b) in
      if ltb n 1 || (ltb 65536 n || not (length b == 8 + 2 * n))
      then none
      else let cs = get_colours n (drop 8 b) in if not (get_or cs 0 0 == 0) then none else some cs

length-put_colours : (cs : List ℕ) → length (put_colours cs) ≡ 2 * length cs
unfolding put_colours
length-put_colours [] = omega arith
length-put_colours (c ∷ cs) = omega (arith, length-put_colours cs)

get_colours-put_colours :
    (cs : List ℕ) → All IsU16 cs → get_colours (length cs) (put_colours cs) ≡ cs
unfolding get_colours put_colours
get_colours-put_colours [] h = refl
get_colours-put_colours (c ∷ cs) h =
    rw (get_u16-put_u16 c (put_colours cs) h.0, get_colours-put_colours cs h.1)

-- What `DecodePalette` accepts.
record IsAccepted (b cs : List ℕ) : Type 0 where
  count : ℕ
  long : length b ≡ 8 + 2 * count
  magic : same_bytes (take 4 b) magic_palette ≡ true
  count_is : get_u32 (drop 4 b) ≡ count
  positive : 1 ≤ count
  bounded : count ≤ 65536
  colours_are : get_colours count (drop 8 b) ≡ cs
  first_is : get_or cs 0 0 ≡ 0

ltb_no : (a b : ℕ) → b ≤ a → ltb a b ≡ false
ltb_no a b h = ground arith

decode_palette-IsAccepted : (b cs : List ℕ) → IsAccepted b cs → decode_palette b ≡ some cs
unfolding decode_palette
decode_palette-IsAccepted b cs a = rw (
  decode_palette,
  ltb_no (length b) 8 (omega (arith, a.long)),
  a.magic,
  a.count_is,
  ltb_no a.count 1 a.positive,
  ltb_no 65536 a.count a.bounded,
  (==_iff (length b) (8 + 2 * a.count)).1 a.long,
  a.colours_are,
  (==_iff (get_or cs 0 0) 0).1 a.first_is,
)

-- `DecodePalette` reads back every palette that `EncodePalette` wrote, of at most 65,536 16-bit
-- colours with colour 0 first.
pub decode_palette-encode_palette :
    (cs : List ℕ)
    → All IsU16 cs
    → length cs < 65536
    → decode_palette (encode_palette (0 ∷ cs)) ≡ some (0 ∷ cs)
unfolding decode_palette encode_palette same_bytes
decode_palette-encode_palette cs h l =
    decode_palette-IsAccepted (encode_palette (0 ∷ cs)) (0 ∷ cs) (record {
      count = suc (length cs);
      long = omega (arith, length-put_colours (0 ∷ cs));
      magic = refl;
      count_is =
          get_u32-put_u32 (suc (length cs) % 2 ^ 32) (put_colours (0 ∷ cs)) (omega arith)
          ∙ omega arith;
      positive = omega arith;
      bounded = omega arith;
      colours_are = get_colours-put_colours (0 ∷ cs) (omega arith, h);
      first_is = refl;
    })

IsAccepted-decode_palette : (b cs : List ℕ) → decode_palette b ≡ some cs → IsAccepted b cs
unfolding decode_palette
IsAccepted-decode_palette b cs h =
    elim (Bool-cases (ltb (length b) 8 || not (same_bytes (take 4 b) magic_palette))) [
      | inl x ↦ cc
      | inr x ↦
          let n = get_u32 (drop 4 b) in
          elim (Bool-cases (ltb n 1 || (ltb 65536 n || not (length b == 8 + 2 * n)))) [
            | inl y ↦ cc
            | inr y ↦ elim (Bool-cases (not (get_or (get_colours n (drop 8 b)) 0 0 == 0))) [
              | inl z ↦ cc
              | inr z ↦
                  let e : get_colours n (drop 8 b) ≡ cs =
                    some_inj _ _ (rw (decode_palette, x, y, z) at h) in
                  record {
                    count = n;
                    long = ground arith;
                    magic = ground arith;
                    count_is = refl;
                    positive = ground arith;
                    bounded = ground arith;
                    colours_are = e;
                    first_is = ap (λ c. get_or c 0 0) (sym e) ∙ ground arith;
                  }
            ]
          ]
    ]

put_u16-get_u16 : (a b : ℕ) → IsByte a → IsByte b → put_u16 (a + 256 * b) ≡ a ∷ b ∷ []
put_u16-get_u16 a b h k = ap₂ (λ x y. x ∷ y ∷ []) (omega arith) (omega arith)

put_colours-get_colours :
    (n : ℕ) (b : List ℕ) → All IsByte b → length b ≡ 2 * n → put_colours (get_colours n b) ≡ b
unfolding put_colours get_colours
put_colours-get_colours zero [] h l = refl
put_colours-get_colours zero (x ∷ b) h l = absurd (omega (arith, l))
put_colours-get_colours (suc n) [] h l = absurd (omega (arith, l))
put_colours-get_colours (suc n) (x ∷ []) h l = absurd (omega (arith, l))
put_colours-get_colours (suc n) (x ∷ y ∷ b) h l =
    ap₂ (λ p q. p ++ q) (put_u16-get_u16 x y h.0 h.1.0)
      (put_colours-get_colours n b h.1.1 (omega (arith, l)))

length-get_colours : (n : ℕ) (b : List ℕ) → length (get_colours n b) ≡ n
unfolding get_colours
length-get_colours zero b = refl
length-get_colours (suc n) b = ap suc (length-get_colours n (drop 2 b))

take-drop : (n : ℕ) (b : List ℕ) → take n b ++ drop n b ≡ b
take-drop zero b = refl
take-drop (suc n) [] = refl
take-drop (suc n) (x ∷ b) = ap (λ t. x ∷ t) (take-drop n b)

All-drop : (n : ℕ) (b : List ℕ) → All IsByte b → All IsByte (drop n b)
All-drop zero b h = h
All-drop (suc n) [] h = tt
All-drop (suc n) (x ∷ b) h = All-drop n b h.1

drop-drop : (b : List ℕ) → drop 4 (drop 4 b) ≡ drop 8 b
drop-drop [] = refl
drop-drop (x ∷ []) = refl
drop-drop (x ∷ y ∷ []) = refl
drop-drop (x ∷ y ∷ z ∷ []) = refl
drop-drop (x ∷ y ∷ z ∷ w ∷ b) = refl

put_u32-get_u32 :
    (b : List ℕ) (n : ℕ)
    → All IsByte b
    → 4 ≤ length b
    → get_u32 b ≡ n
    → put_u32 (n % 2 ^ 32) ++ drop 4 b ≡ b
put_u32-get_u32 [] n h l e = absurd (omega arith)
put_u32-get_u32 (x ∷ []) n h l e = absurd (omega arith)
put_u32-get_u32 (x ∷ y ∷ []) n h l e = absurd (omega arith)
put_u32-get_u32 (x ∷ y ∷ z ∷ []) n h l e = absurd (omega arith)
put_u32-get_u32 (x ∷ y ∷ z ∷ w ∷ b) n h l e =
    let v = x + 256 * y + 65536 * z + 16777216 * w in
    let (hx, (hy, (hz, (hw, _)))) = h in
    let i : v % 2 ^ 32 % 256 ≡ x = omega arith in
    let j : v % 2 ^ 32 / 256 % 256 ≡ y = omega arith in
    let k : v % 2 ^ 32 / 65536 % 256 ≡ z = omega arith in
    let m : v % 2 ^ 32 / 16777216 % 256 ≡ w = omega arith in
    subst (λ t. put_u32 (t % 2 ^ 32) ++ b ≡ x ∷ y ∷ z ∷ w ∷ b) e (λ p. i p ∷ j p ∷ k p ∷ m p ∷ b)

-- A body that `DecodePalette` accepts is the one that `EncodePalette` writes for what it returns.
pub encode_palette-decode_palette :
    (b cs : List ℕ) → All IsByte b → decode_palette b ≡ some cs → encode_palette cs ≡ b
unfolding encode_palette
encode_palette-decode_palette b cs h d =
    let a = IsAccepted-decode_palette b cs d in
    let long : length (drop 4 b) ≡ 4 + 2 * a.count = omega (arith, length-drop 4 b, a.long) in
    let rest : length (drop 8 b) ≡ 2 * a.count = omega (arith, length-drop 8 b, a.long) in
    let count : length cs ≡ a.count =
      ap length (sym a.colours_are) ∙ length-get_colours a.count (drop 8 b) in
    let colours : put_colours cs ≡ drop 8 b =
      ap put_colours (sym a.colours_are)
      ∙ put_colours-get_colours a.count (drop 8 b) (All-drop 8 b h) rest in
    ap₂ (λ p q. p ++ q) (sym (same_bytes→eq (take 4 b) magic_palette a.magic))
      (rw (count, colours, ← drop-drop b)
        (put_u32-get_u32 (drop 4 b) a.count (All-drop 4 b h) (omega (arith, long)) a.count_is))
    ∙ take-drop 4 b
