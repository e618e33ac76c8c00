-- ===== src/Core/Keys/Escape.antt =====
-- Round trips of `EscapeName` and `UnescapeName`.
use time_shade_db.Prelude.{ℕ, ◌/◌, ◌%◌, ◌<◌, ◌≡◌, ◌≢◌, refl, ap, ◌∙◌, arith}
use time_shade_db.Prelude.{true, false, List, [], ◌∷◌, All, Bool-cases, inl, inr}
use time_shade_db.Prelude.Words.{IsByte}
use time_shade_db.Core.Keys.{ok, is_kept, hex, unhex, unhex_pair, escape_byte, escape_name}
use time_shade_db.Core.Keys.{unescape_loop, unescape_name, same_bytes}

unhex-hex : (n : ℕ) → n < 16 → unhex (hex n) ≡ ok n
unfolding unhex hex
unhex-hex n h = ground arith

unhex_pair-hex : (c : ℕ) → c < 256 → unhex_pair (hex (c / 16)) (hex (c % 16)) ≡ ok c
unfolding unhex_pair
unhex_pair-hex c h =
    rw (unhex-hex (c / 16) (omega arith), unhex-hex (c % 16) (omega arith)) (ap ok (omega arith))

-- A kept byte is not "~" and not ".".
kept-ne : (c : ℕ) → is_kept c ≡ true → (c ≢ b'~') × (c ≢ b'.')
unfolding is_kept
kept-ne c h = ground arith

unescape-kept :
    (c : ℕ) (s : List ℕ) {t : List ℕ}
    → is_kept c ≡ true
    → unescape_loop s ≡ ok t
    → unescape_loop (c ∷ s) ≡ ok (c ∷ t)
unfolding unescape_loop
unescape-kept c [] h e = ground arith
unescape-kept c (a ∷ []) h e = rw h (rw e)
unescape-kept c (a ∷ b ∷ s) h e = rw h (rw e)

unescape-tilde :
    (h l : ℕ) (s : List ℕ) {b : ℕ} {t : List ℕ}
    → unhex_pair h l ≡ ok b
    → unescape_loop s ≡ ok t
    → unescape_loop (b'~' ∷ h ∷ l ∷ s) ≡ ok (b ∷ t)
unfolding unescape_loop is_kept
unescape-tilde h l s e f = rw (e, f)

escape_byte-kept : (c : ℕ) → is_kept c ≡ true → escape_byte c ≡ c ∷ []
unfolding escape_byte
escape_byte-kept c k = rw k

escape_byte-other :
    (c : ℕ) → is_kept c ≡ false → escape_byte c ≡ b'~' ∷ hex (c / 16) ∷ hex (c % 16) ∷ []
unfolding escape_byte
escape_byte-other c k = rw k

unescape_loop-escape_name : (s : List ℕ) → All IsByte s → unescape_loop (escape_name s) ≡ ok s
unfolding escape_name
unescape_loop-escape_name [] h = unfold unescape_loop in refl
unescape_loop-escape_name (c ∷ s) h =
    let ih = unescape_loop-escape_name s h.1 in
    elim (Bool-cases (is_kept c)) [
      | inl k ↦ rw (escape_byte-kept c k) (unescape-kept c (escape_name s) k ih)
      | inr k ↦
          rw (escape_byte-other c k) (unescape-tilde _ _ (escape_name s) (unhex_pair-hex c h.0) ih)
    ]

escape_name-ne_nil :
    (c : ℕ) (s : List ℕ) → unescape_name (escape_name (c ∷ s)) ≡ unescape_loop (escape_name (c ∷ s))
unfolding unescape_name escape_name
escape_name-ne_nil c s = elim (Bool-cases (is_kept c)) [
  | inl k ↦ rw (escape_byte-kept c k)
  | inr k ↦ rw (escape_byte-other c k)
]

-- For a non-empty string of bytes, `UnescapeName` reads back what `EscapeName` wrote.
pub unescape_name-escape_name :
    (s : List ℕ) → All IsByte s → s ≢ [] → unescape_name (escape_name s) ≡ ok s
unescape_name-escape_name [] h n = absurd (n refl)
unescape_name-escape_name (c ∷ s) h n = escape_name-ne_nil c s ∙ unescape_loop-escape_name (c ∷ s) h

hex_ne : (n : ℕ) → n < 16 → hex n ≢ b'.'
unfolding hex
hex_ne n h = ground arith

abbrev pub NoDot : List ℕ → Type 0
NoDot s = All (λ c. c ≢ b'.') s

pub escape_name-NoDot : (s : List ℕ) → All IsByte s → NoDot (escape_name s)
unfolding escape_name
escape_name-NoDot [] h = tt
escape_name-NoDot (c ∷ s) h =
    let ih = escape_name-NoDot s h.1 in
    elim (Bool-cases (is_kept c)) [
      | inl k ↦ rw (escape_byte-kept c k) ((kept-ne c k).1, ih)
      | inr k ↦ rw (escape_byte-other c k) (
        λ e. absurd (omega (arith, e)),
        (hex_ne (c / 16) (omega arith), (hex_ne (c % 16) (omega arith), ih)),
      )
    ]

pub same_bytes→eq : (xs ys : List ℕ) → same_bytes xs ys ≡ true → xs ≡ ys
unfolding same_bytes
same_bytes→eq [] [] h = refl
same_bytes→eq [] (y ∷ ys) h = cc
same_bytes→eq (x ∷ xs) [] h = cc
same_bytes→eq (x ∷ xs) (y ∷ ys) h = ground (arith, same_bytes→eq xs ys)

pub same_bytes_refl : (xs : List ℕ) → same_bytes xs xs ≡ true
unfolding same_bytes
same_bytes_refl [] = refl
same_bytes_refl (x ∷ xs) = ground (arith, same_bytes_refl xs)
