-- ===== src/Core/Image/Downsample.antt =====
-- The two downsampling functions: they agree, and a parent's pixel is the average of four.
use time_shade_db.Prelude.{
  ℕ, zero, suc, ◌+◌, ◌-◌, ◌*◌, ◌/◌, ◌%◌, ◌≤◌, ◌<◌, ◌≡◌, refl, ap, ◌∙◌, arith,
}
use time_shade_db.Prelude.{ltb, leb, ◌==◌, if◌then◌else◌, ◌&&◌, List, [], ◌∷◌, All}
use time_shade_db.Prelude.{Option, none, some, length, le→leb, lt→ltb}
use time_shade_db.Prelude.Words.{IsU16}
use time_shade_db.Core.Grid.{tile_pixel_count}
use time_shade_db.Core.Pixels.{packed_average}
use time_shade_db.Core.Pixels.Average.{packed_average-average4}
use time_shade_db.Core.Image.{
  Image, put_pixel, down_pixel, down_row, down_rows, down_children, slice, slice_at, set_slice,
  pack_row, downsample_rows, downsample_into, pyramid_children,
}
use time_shade_db.Core.Image.{core_downsample, pyramid_downsample, new_tile_image}

-- Every pixel of a child, where there is one, is a colour.
abbrev pub IsColoured : Option Image → Type 0
IsColoured none = Unit {0}
IsColoured (some im) = (i : ℕ) → i < tile_pixel_count → IsU16 (im i)

-- The rows of the slices hold the four pixels of a square.
squares :
    (x y : ℕ)
    → (2 * y * 512 + (2 * x + 1) ≡ 2 * y * 512 + 2 * x + 1)
      × (((2 * y + 1) * 512 + 2 * x) ≡ 2 * y * 512 + 2 * x + 512)
      × (((2 * y + 1) * 512 + (2 * x + 1)) ≡ 2 * y * 512 + 2 * x + 512 + 1)
squares x y = (omega arith, omega arith, omega arith)

packed-down_pixel :
    (child : Image) (x y : ℕ)
    → IsColoured (some child)
    → x < 256
    → y < 256
    → packed_average
        (child (2 * y * 512 + 2 * x))
        (child (2 * y * 512 + (2 * x + 1)))
        (child ((2 * y + 1) * 512 + 2 * x))
        (child ((2 * y + 1) * 512 + (2 * x + 1)))
      ≡ down_pixel child x y
unfolding down_pixel
packed-down_pixel child x y h hx hy =
    let (a, b, c) = squares x y in
    rw (a, b, c)
      (packed_average-average4 _ _ _ _ (h _ (omega arith)) (h _ (omega arith)) (h _ (omega arith))
        (h _ (omega arith)))

slice_is :
    (from to n : ℕ)
    → from + n ≡ to
    → to ≤ tile_pixel_count
    → slice from to ≡ some (record { from = from; len = n })
unfolding slice
slice_is from to n e h =
    rw (slice, le→leb from to (omega arith), le→leb to 262144 h)
      (λ i. some (record { from = from; len = (let d : to - from ≡ n = omega arith in d) i }))

slice_at_is :
    (im : Image) (from n i : ℕ)
    → i < n
    → slice_at im (record { from = from; len = n }) i ≡ some (im (from + i))
unfolding slice_at
slice_at_is im from n i h = rw (slice_at, lt→ltb i n h) refl

set_slice_is :
    (from n i v : ℕ) (im : Image)
    → i < n
    → set_slice (record { from = from; len = n }) i v im ≡ some (put_pixel (from + i) v im)
unfolding set_slice
set_slice_is from n i v im h = rw (set_slice, lt→ltb i n h) refl

pack_row-down_row :
    (n : ℕ) (child : Image) (ox oy y : ℕ) (out : Image)
    → IsColoured (some child)
    → n ≤ 256
    → y < 256
    → pack_row n child
        (record { from = 2 * y * 512; len = 512 })
        (record { from = (2 * y + 1) * 512; len = 512 })
        (record { from = (oy + y) * 512 + ox; len = 256 })
        out
      ≡ some (down_row n child ox oy y out)
unfolding down_row pack_row
pack_row-down_row zero child ox oy y out h hn hy = refl
pack_row-down_row (suc n) child ox oy y out h hn hy =
    rw
      (
        pack_row-down_row n child ox oy y out h (omega arith) hy,
        slice_at_is child (2 * y * 512) 512 (2 * n) (omega arith),
        slice_at_is child (2 * y * 512) 512 (2 * n + 1) (omega arith),
        slice_at_is child ((2 * y + 1) * 512) 512 (2 * n) (omega arith),
        slice_at_is child ((2 * y + 1) * 512) 512 (2 * n + 1) (omega arith),
      )
      (set_slice_is ((oy + y) * 512 + ox) 256 n _ (down_row n child ox oy y out) (omega arith)
        ∙ ap (λ v. some (put_pixel ((oy + y) * 512 + ox + n) v (down_row n child ox oy y out)))
            (packed-down_pixel child n y h (omega arith) hy))

downsample_rows-down_rows :
    (n : ℕ) (child : Image) (ox oy : ℕ) (out : Image)
    → IsColoured (some child)
    → n ≤ 256
    → ox ≤ 256
    → oy ≤ 256
    → downsample_rows n out child ox oy ≡ some (down_rows n child ox oy out)
unfolding down_rows downsample_rows
downsample_rows-down_rows zero child ox oy out h hn hx hy = refl
downsample_rows-down_rows (suc n) child ox oy out h hn hx hy =
    rw
      (
        downsample_rows-down_rows n child ox oy out h (omega arith) hx hy,
        slice_is (2 * n * 512) ((2 * n + 1) * 512) 512 (omega arith) (omega arith),
        slice_is ((2 * n + 1) * 512) ((2 * n + 2) * 512) 512 (omega arith) (omega arith),
        slice_is ((oy + n) * 512 + ox) ((oy + n) * 512 + ox + 256) 256 refl (omega arith),
      )
      (pack_row-down_row 256 child ox oy n (down_rows n child ox oy out) h (omega arith)
        (omega arith))

pyramid_children-down_children :
    (cs : List (Option Image)) (q : ℕ) (out : Image)
    → All IsColoured cs
    → q + length cs ≤ 4
    → pyramid_children cs q out ≡ some (down_children cs q out)
unfolding down_children pyramid_children downsample_into
pyramid_children-down_children [] q out h l = refl
pyramid_children-down_children (none ∷ cs) q out h l =
    pyramid_children-down_children cs (suc q) out h.1 (omega arith)
pyramid_children-down_children (some child ∷ cs) q out h l =
    rw
      (downsample_rows-down_rows 256 child (q % 2 * 256) (q / 2 * 256) out h.0 (omega arith)
        (omega arith) (omega arith))
      (pyramid_children-down_children cs (suc q) _ h.1 (omega arith))

-- For at most four children whose pixels are 16-bit colours, the pyramid's `downsample` slices and
-- indexes within bounds, and builds the same image as `Downsample`.
pub pyramid_downsample-core_downsample :
    (cs : List (Option Image))
    → All IsColoured cs
    → length cs ≤ 4
    → pyramid_downsample cs ≡ some (core_downsample cs)
unfolding pyramid_downsample core_downsample
pyramid_downsample-core_downsample cs h l =
    pyramid_children-down_children cs 0 new_tile_image h (omega arith)

same_index :
    (x y u v : ℕ) → x < 512 → u < 512 → ((y * 512 + x) == (v * 512 + u)) ≡ ((y == v) && (x == u))
same_index x y u v hx hu = ground arith

down_row_at :
    (n : ℕ) (child : Image) (ox oy y : ℕ) (out : Image) (u v : ℕ)
    → u < 512
    → ox + n ≤ 512
    → down_row n child ox oy y out (v * 512 + u) ≡ (
        if ((oy + y) == v) && (leb ox u && ltb u (ox + n))
        then down_pixel child (u - ox) y
        else out (v * 512 + u))
unfolding down_row put_pixel
down_row_at zero child ox oy y out u v hu hn = ground arith
down_row_at (suc n) child ox oy y out u v hu hn =
    ground (arith, down_row_at n child ox oy y out u v hu)

down_rows_at :
    (n : ℕ) (child : Image) (ox oy : ℕ) (out : Image) (u v : ℕ)
    → u < 512
    → ox ≤ 256
    → down_rows n child ox oy out (v * 512 + u) ≡ (
        if (leb oy v && ltb v (oy + n)) && (leb ox u && ltb u (ox + 256))
        then down_pixel child (u - ox) (v - oy)
        else out (v * 512 + u))
unfolding down_rows
down_rows_at zero child ox oy out u v hu hx = ground arith
down_rows_at (suc n) child ox oy out u v hu hx = ground (
  arith,
  down_rows_at n child ox oy out u v hu hx,
  down_row_at 256 child ox oy n (down_rows n child ox oy out) u v hu (omega arith),
)

-- What a pixel of the parent becomes when the q-th child is written over `old`.
abbrev overlay_at : Option Image → ℕ → ℕ → ℕ → ℕ → ℕ → ℕ → ℕ
overlay_at none q old m n x y = old
overlay_at (some child) q old m n x y =
    if (m == q % 2) && (n == q / 2) then down_pixel child x y else old

abbrev overlay : Option Image → ℕ → ℕ → ℕ → ℕ → ℕ
overlay o q old u v = overlay_at o q old (u / 256) (v / 256) (u % 256) (v % 256)

child_at :
    (child : Image) (q : ℕ) (out : Image) (u v : ℕ)
    → q < 4
    → u < 512
    → v < 512
    → down_rows 256 child (q % 2 * 256) (q / 2 * 256) out (v * 512 + u)
      ≡ overlay (some child) q (out (v * 512 + u)) u v
child_at child q out u v hq hu hv =
    down_rows_at 256 child (q % 2 * 256) (q / 2 * 256) out u v hu (omega arith)
    ∙ quadrant (q % 2) (q / 2) (omega arith) (omega arith)
  where
    quadrant :
        (m n : ℕ)
        → m < 2
        → n < 2
        → (if (leb (n * 256) v && ltb v (n * 256 + 256))
              && (leb (m * 256) u && ltb u (m * 256 + 256))
            then down_pixel child (u - m * 256) (v - n * 256)
            else out (v * 512 + u))
          ≡ (if (u / 256 == m) && (v / 256 == n)
              then down_pixel child (u % 256) (v % 256)
              else out (v * 512 + u))
    quadrant m n hm hn = ground arith

-- One step of the loop over the children, on one pixel.
children_step :
    (o : Option Image) (cs : List (Option Image)) (q : ℕ) (out : Image) (u v : ℕ) (rest : ℕ → ℕ)
    → q < 4
    → u < 512
    → v < 512
    → ((out' : Image) → down_children cs (suc q) out' (v * 512 + u) ≡ rest (out' (v * 512 + u)))
    → down_children (o ∷ cs) q out (v * 512 + u) ≡ rest (overlay o q (out (v * 512 + u)) u v)
unfolding down_children
children_step none cs q out u v rest hq hu hv h = h out
children_step (some child) cs q out u v rest hq hu hv h =
    h (down_rows 256 child (q % 2 * 256) (q / 2 * 256) out)
    ∙ ap rest (child_at child q out u v hq hu hv)

-- The child whose quadrant holds a pixel of the parent, and the pixel that it gives.
abbrev pub quadrant_pixel : Option Image → ℕ → ℕ → ℕ
quadrant_pixel none x y = 0
quadrant_pixel (some child) x y = down_pixel child x y

abbrev pub pick : Option Image → Option Image → Option Image → Option Image → ℕ → ℕ → Option Image
pick a b c d zero zero = a
pick a b c d (suc x) zero = b
pick a b c d zero (suc y) = c
pick a b c d (suc x) (suc y) = d

-- Of the four writes only the one of the pixel's own quadrant is seen.
corner :
    (a b c d : Option Image) (m n x y : ℕ)
    → m < 2
    → n < 2
    → overlay_at d 3
        (overlay_at c 2 (overlay_at b 1 (overlay_at a 0 0 m n x y) m n x y) m n x y)
        m
        n
        x
        y
      ≡ quadrant_pixel (pick a b c d m n) x y
corner none none none none zero zero x y hm hn = refl
corner a b c d zero zero x y hm hn = ground arith
corner a b c d (suc zero) zero x y hm hn = ground arith
corner a b c d zero (suc zero) x y hm hn = ground arith
corner a b c d (suc zero) (suc zero) x y hm hn = ground arith
corner a b c d (suc (suc m)) n x y hm hn = absurd (omega arith)
corner a b c d zero (suc (suc n)) x y hm hn = absurd (omega arith)
corner a b c d (suc zero) (suc (suc n)) x y hm hn = absurd (omega arith)

-- For u and v below 512, the pixel (u, v) of `Downsample` is the `Average4` of the four pixels that
-- it covers in the child of its quadrant, and 0 where that child is missing.
pub core_downsample_at :
    (a b c d : Option Image) (u v : ℕ)
    → u < 512
    → v < 512
    → core_downsample (a ∷ b ∷ c ∷ d ∷ []) (v * 512 + u)
      ≡ quadrant_pixel (pick a b c d (u / 256) (v / 256)) (u % 256) (v % 256)
unfolding core_downsample
core_downsample_at a b c d u v hu hv =
    children_step a (b ∷ c ∷ d ∷ []) 0 new_tile_image u v
      (λ w. overlay d 3 (overlay c 2 (overlay b 1 w u v) u v) u v) (omega arith) hu hv
      (λ o1.
        children_step b (c ∷ d ∷ []) 1 o1 u v (λ w. overlay d 3 (overlay c 2 w u v) u v)
          (omega arith) hu hv
          (λ o2.
            children_step c (d ∷ []) 2 o2 u v (λ w. overlay d 3 w u v) (omega arith) hu hv
              (λ o3.
                children_step d [] 3 o3 u v (λ w. w) (omega arith) hu hv
                  (λ o4. unfold down_children in refl))))
    ∙ unfold new_tile_image in
      corner a b c d (u / 256) (v / 256) (u % 256) (v % 256) (omega arith) (omega arith)
