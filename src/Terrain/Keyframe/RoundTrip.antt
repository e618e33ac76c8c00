-- ===== src/Terrain/Keyframe/RoundTrip.antt =====
-- `decodeKeyframe` gives back the image that `encodeKeyframe` wrote.
use time_shade_db.Prelude.{
  ℕ, zero, suc, ◌+◌, ◌*◌, ◌^◌, ◌≤◌, ◌<◌, ◌≡◌, refl, sym, ap, ◌∙◌, arith, ltb, leb, ◌==◌, ==_iff,
  lt→leb_false, if◌then◌else◌, inl, inr, Bool-cases, ◌&&◌,
}
use time_shade_db.Prelude.{
  Bool, true, false, some, List, [], ◌∷◌, ◌++◌, All, length, get_elem?, get_elem?-append_left,
  get_elem?-append_last,
}
use time_shade_db.Core.Grid.{tile_pixel_count}
use time_shade_db.Core.Image.{Image, put_pixel}
use time_shade_db.Terrain.Codec.{index_of, indices_of, places_below, put_indices, raw_index}
use time_shade_db.Terrain.Codec.RoundTrip.{length-put_indices}
use time_shade_db.Terrain.Codec.Diff.{length-indices_of, length-places_below}
use time_shade_db.Terrain.Palette.Table.{IsLut, lut_le, get_elem?_lt}
use time_shade_db.Terrain.Commit.Apply.{
  Fits, raw_index-put_indices, get_elem?-indices_of, get_or-get_elem?, index_place,
}
use time_shade_db.Terrain.Commit.Places.{places_below-All}
use time_shade_db.Terrain.Commit.Window.{indices_of-All}
use time_shade_db.Terrain.Keyframe.{max_code, is_wide_code, encode_keyframe, fill, decode_keyframe}

get_elem?-places_below : (n i : ℕ) → i < n → get_elem? (places_below n) i ≡ some i
unfolding places_below
get_elem?-places_below zero i h = absurd (omega arith)
get_elem?-places_below (suc n) i h = elim (Bool-cases (i == n)) [
  | inl c ↦
      ap (λ (k : ℕ). get_elem? (places_below n ++ (n ∷ [])) k) (at_end c)
      ∙ get_elem?-append_last (places_below n) n
      ∙ ap some (sym ((==_iff i n).0 c))
  | inr c ↦
      get_elem?-append_left (places_below n) (n ∷ []) i (ground (arith, length-places_below n))
      ∙ get_elem?-places_below n i (ground arith)
]
  where
    at_end : (i == n) ≡ true → i ≡ length (places_below n)
    at_end c = ground (arith, length-places_below n)

max_code_le : (n : ℕ) (pal : ℕ → ℕ) (im : Image) (i : ℕ) → i < n → pal (im i) ≤ max_code n pal im
unfolding max_code
max_code_le zero pal im i h = absurd (omega arith)
max_code_le (suc n) pal im i h = elim (Bool-cases (i == n)) [
  | inl c ↦ ground (arith, ap (λ (j : ℕ). pal (im j)) ((==_iff i n).0 c))
  | inr c ↦ ground (arith, max_code_le n pal im i (ground arith))
]

max_code_bound :
    (n b : ℕ) (pal : ℕ → ℕ) (im : Image) → ((c : ℕ) → pal c ≤ b) → max_code n pal im ≤ b
unfolding max_code
max_code_bound zero b pal im h = omega arith
max_code_bound (suc n) b pal im h = ground (arith, max_code_bound n b pal im h, h (im n))

join_at :
    (i k n x y z : ℕ)
    → (i ≡ k → y ≡ x)
    → (if leb (suc i) k && ltb k (suc i + n) then x else (if i == k then y else z))
      ≡ (if leb i k && ltb k (i + suc n) then x else z)
join_at i k n x y z h = ground (arith, h)

code-Fits :
    (pal : List ℕ) (lut : ℕ → ℕ) (c : ℕ)
    → IsLut pal lut
    → length pal ≤ 2 ^ 16
    → 0 < lut c
    → lut c ≤ 256
    → Fits false (index_of lut c)
code-Fits pal lut c l few k h = omega arith

-- An image whose pixels at the indices of the tile are those of another one.
abbrev pub Holds : Image → Bool × Image → Type 0
Holds im out = (out.0 ≡ true) × ((k : ℕ) → k < tile_pixel_count → out.1 k ≡ im k)

module _ (pal : List ℕ) (lut : ℕ → ℕ) (is_lut : IsLut pal lut) (few : length pal ≤ 2 ^ 16) where
  fill_step :
      (tested wide : Bool) (p : List ℕ) (n i c : ℕ) (im : Image)
      → get_elem? pal (raw_index wide p i) ≡ some c
      → fill pal tested wide p (suc n) i im ≡ fill pal tested wide p n (suc i) (put_pixel i c im)
  unfolding fill
  fill_step tested wide p n i c im h =
      rw
        (
          fill,
          get_or-get_elem? pal (raw_index wide p i) c h,
          lt→leb_false (length pal) (raw_index wide p i)
              (get_elem?_lt pal (raw_index wide p i) c h),
          and_false tested,
        )
        refl
    where
      and_false : (b : Bool) → (b && false) ≡ false
      and_false true = refl
      and_false false = refl

  -- The loop sets the pixels that it goes over.
  fill_at :
      (tested wide : Bool) (p : List ℕ) (n i : ℕ) (im new : Image)
      → ((k : ℕ) → i ≤ k → k < i + n → get_elem? pal (raw_index wide p k) ≡ some (new k))
      → ((fill pal tested wide p n i im).0 ≡ true)
        × ((k : ℕ)
            → (fill pal tested wide p n i im).1 k
              ≡ (if leb i k && ltb k (i + n) then new k else im k))
  unfolding fill put_pixel
  fill_at tested wide p zero i im new h = (refl, λ k. ground arith)
  fill_at tested wide p (suc n) i im new h =
      let here = fill_step tested wide p n i (new i) im (h i (omega arith) (omega arith)) in
      let (is_ok, at) =
        fill_at tested wide p n (suc i) (put_pixel i (new i) im) new
          (λ k a b. h k (omega arith) (omega arith)) in
      (
        ap (λ r. r.0) here ∙ is_ok,
        λ k. ap (λ r. r.1 k) here ∙ at k ∙ join_at i k n (new k) (new i) (im k) (λ e. ap new e),
      )

  index_at :
      (wide : Bool) (im : Image) (k : ℕ)
      → All (Fits wide) (indices_of lut im (places_below tile_pixel_count))
      → 0 < lut (im k)
      → k < tile_pixel_count
      → get_elem? pal
          (raw_index wide (put_indices wide (indices_of lut im (places_below tile_pixel_count))) k)
        ≡ some (im k)
  index_at wide im k fits known h =
      ap (get_elem? pal) (
        raw_index-put_indices wide (indices_of lut im (places_below tile_pixel_count)) k
          (index_of lut (im k)) fits
          (get_elem?-indices_of lut im (places_below tile_pixel_count) k k
            (get_elem?-places_below tile_pixel_count k h)))
      ∙ index_place pal lut is_lut few (im k) known

  keyframe_length :
      (wide : Bool) (im : Image)
      → length (put_indices wide (indices_of lut im (places_below tile_pixel_count)))
        ≡ tile_pixel_count * (if wide then 2 else 1)
  keyframe_length wide im =
      length-put_indices wide (indices_of lut im (places_below tile_pixel_count))
      ∙ ap (λ (n : ℕ). n * (if wide then 2 else 1))
          (length-indices_of lut im (places_below tile_pixel_count)
            ∙ length-places_below tile_pixel_count)

  indices_fit :
      (im : Image) (ps : List ℕ)
      → ((k : ℕ) → k < tile_pixel_count → 0 < lut (im k))
      → All (λ p. p < tile_pixel_count) ps
      → is_wide_code (max_code tile_pixel_count lut im) ≡ false
      → All (Fits false) (indices_of lut im ps)
  unfolding indices_of
  indices_fit im [] known h e = tt
  indices_fit im (p ∷ ps) known (h, hs) e = (
    code-Fits pal lut (im p) is_lut few (known p h) (
        ground (
          arith,
          max_code_le tile_pixel_count lut im p h,
          known p h,
          max_code_bound tile_pixel_count (length pal) lut im (λ c. lut_le pal lut c is_lut),
        )),
    indices_fit im ps known hs e,
  )

  fill-Holds :
      (tested wide : Bool) (im before : Image)
      → ((k : ℕ) → k < tile_pixel_count → 0 < lut (im k))
      → All (Fits wide) (indices_of lut im (places_below tile_pixel_count))
      → Holds im (
          fill pal tested wide
            (put_indices wide (indices_of lut im (places_below tile_pixel_count)))
            tile_pixel_count
            0
            before)
  fill-Holds tested wide im before known fits =
      let (is_ok, at) =
        fill_at tested wide (put_indices wide (indices_of lut im (places_below tile_pixel_count)))
          tile_pixel_count 0 before im
          (λ k a b. index_at wide im k fits (known k (omega arith)) (omega arith)) in
      (is_ok, λ k h. at k ∙ inside k h)
    where
      inside :
          (k : ℕ)
          → k < tile_pixel_count
          → (if leb 0 k && ltb k (0 + tile_pixel_count) then im k else before k) ≡ im k
      inside k h = ground arith

  decode-Holds :
      (wide : Bool) (im before : Image)
      → ((k : ℕ) → k < tile_pixel_count → 0 < lut (im k))
      → All (Fits wide) (indices_of lut im (places_below tile_pixel_count))
      → Holds im (
          decode_keyframe before
            (put_indices wide (indices_of lut im (places_below tile_pixel_count)))
            wide
            pal)
  unfolding decode_keyframe
  decode-Holds true im before known fits =
      rw (decode_keyframe, keyframe_length true im) (fill-Holds true true im before known fits)
  decode-Holds false im before known fits =
      rw (decode_keyframe, keyframe_length false im)
        (fill-Holds (ltb (length pal) 256) false im before known fits)

  -- For a palette of at most 2^16 colours with its lookup table, and an image of known colours:
  -- `decodeKeyframe` of what `encodeKeyframe` wrote, into any image, succeeds and gives the pixel of
  -- the image at every index of the tile, whether an index has one byte or two.
  pub decode_keyframe-encode_keyframe :
      (im before : Image)
      → ((k : ℕ) → k < tile_pixel_count → 0 < lut (im k))
      → Holds im (decode_keyframe before (encode_keyframe im lut).0 (encode_keyframe im lut).1 pal)
  unfolding encode_keyframe
  decode_keyframe-encode_keyframe im before known =
      decode-Holds (is_wide_code (max_code tile_pixel_count lut im)) im before known
        (fits (is_wide_code (max_code tile_pixel_count lut im)) refl)
    where
      fits :
          (wide : Bool)
          → is_wide_code (max_code tile_pixel_count lut im) ≡ wide
          → All (Fits wide) (indices_of lut im (places_below tile_pixel_count))
      fits true e = indices_of-All lut im (places_below tile_pixel_count)
      fits false e =
          indices_fit im (places_below tile_pixel_count) known
            (places_below-All tile_pixel_count tile_pixel_count (omega arith)) e
