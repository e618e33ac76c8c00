-- ===== src/Core/Pixels/Average.antt =====
-- The packed average of the pyramid is `Average4`, and `Average4` rounds each channel half up.
use time_shade_db.Prelude.{ℕ, ◌+◌, ◌*◌, ◌/◌, ◌%◌, ◌^◌, ◌<◌, ◌≡◌, arith}
use time_shade_db.Prelude.{bit_and, bit_or}
use time_shade_db.Prelude.Bits.{
  bit_and_split, bit_or_split, or_fields, or_fields_low, or_zero, and_31, and_63, and_zero,
}
use time_shade_db.Prelude.Words.{IsU16}
use time_shade_db.Core.Pixels.{channel, average4, spread, packed_average}

-- The three channels of a colour.
abbrev pub red : ℕ → ℕ
red v = v / 2 ^ 11 % 32

abbrev pub green : ℕ → ℕ
green v = v / 2 ^ 5 % 64

abbrev pub blue : ℕ → ℕ
blue v = v % 32

-- The mean of four numbers, rounded half up.
abbrev pub mean4 : ℕ → ℕ → ℕ → ℕ → ℕ
mean4 a b c d = (a + b + c + d + 2) / 4

abbrev pub pack565 : ℕ → ℕ → ℕ → ℕ
pack565 r g b = r * 2 ^ 11 + g * 2 ^ 5 + b

-- `|` of a red, a green and a blue part.
pub or_565 :
    (r g b : ℕ) → g < 64 → b < 32 → bit_or (bit_or (r * 2 ^ 11) (g * 2 ^ 5)) b ≡ pack565 r g b
or_565 r g b hg hb =
    rw (or_fields 11 r (g * 2 ^ 5) (omega arith)) (ground (arith, or_fields 5 (r * 2 ^ 6 + g) b))

channel-red : (a b c d : ℕ) → channel 11 31 a b c d ≡ mean4 (red a) (red b) (red c) (red d) * 2 ^ 11
channel-red a b c d =
    omega
      (arith, and_31 (a / 2 ^ 11), and_31 (b / 2 ^ 11), and_31 (c / 2 ^ 11), and_31 (d / 2 ^ 11))

channel-green :
    (a b c d : ℕ) → channel 5 63 a b c d ≡ mean4 (green a) (green b) (green c) (green d) * 2 ^ 5
channel-green a b c d =
    omega (arith, and_63 (a / 2 ^ 5), and_63 (b / 2 ^ 5), and_63 (c / 2 ^ 5), and_63 (d / 2 ^ 5))

channel-blue : (a b c d : ℕ) → channel 0 31 a b c d ≡ mean4 (blue a) (blue b) (blue c) (blue d)
channel-blue a b c d =
    omega (arith, and_31 (a / 2 ^ 0), and_31 (b / 2 ^ 0), and_31 (c / 2 ^ 0), and_31 (d / 2 ^ 0))

-- Each channel of `Average4` of four colours is the mean of their channels, rounded half up.
pub average4_channels :
    (a b c d : ℕ)
    → average4 a b c d
      ≡ pack565
          (mean4 (red a) (red b) (red c) (red d))
          (mean4 (green a) (green b) (green c) (green d))
          (mean4 (blue a) (blue b) (blue c) (blue d))
unfolding average4
average4_channels a b c d =
    rw (channel-red a b c d, channel-green a b c d, channel-blue a b c d)
      (or_565 _ _ _ (omega arith) (omega arith))

-- The two masks of `spread`, over a colour in fields.
and_f81f : (r g b : ℕ) → g < 64 → b < 32 → bit_and (pack565 r g b) 0xf81f ≡ r % 32 * 2 ^ 11 + b
and_f81f r g b hg hb = ground (
  arith,
  bit_and_split 5 (r * 2 ^ 6 + g) 0x7c0 b 31 hb (omega arith),
  bit_and_split 6 r 31 g 0 hg (omega arith),
  and_31 r,
  and_31 b,
  and_zero g,
)

and_07e0 : (r g b : ℕ) → g < 64 → b < 32 → bit_and (pack565 r g b) 0x07e0 ≡ g * 2 ^ 5
and_07e0 r g b hg hb = ground (
  arith,
  bit_and_split 5 (r * 2 ^ 6 + g) 63 b 0 hb (omega arith),
  and_63 (r * 2 ^ 6 + g),
  and_zero b,
)

colour_fields : (v : ℕ) → IsU16 v → pack565 (red v) (green v) (blue v) ≡ v
colour_fields v h = omega arith

-- `spread` moves the green channel above the other two, with room above each.
spread_eq : (v : ℕ) → IsU16 v → spread v ≡ green v * 2 ^ 21 + (red v * 2 ^ 11 + blue v)
unfolding spread
spread_eq v h = ground (
  arith,
  colour_fields v h,
  and_f81f (red v) (green v) (blue v) (omega arith) (omega arith),
  and_07e0 (red v) (green v) (blue v) (omega arith) (omega arith),
  or_fields_low 21 (green v) (red v * 2 ^ 11 + blue v) (omega arith),
)

-- The channel sums of four colours, with the rounding added.
abbrev sums : ℕ → ℕ → ℕ → ℕ
sums r g b = g * 2 ^ 21 + (r * 2 ^ 11 + b)

quarter :
    (r g b : ℕ)
    → r < 128
    → b < 128
    → sums r g b / 4 ≡ pack565 (g * 2 ^ 8 + r / 4) (r % 4 * 16) (b / 4)
quarter r g b hr hb = omega arith

top_green : (r g b : ℕ) → r < 127 → b < 128 → sums r g b / 2 ^ 18 ≡ pack565 0 (g / 4) (g % 4 * 8)
top_green r g b hr hb = omega arith

or_565_low : (r g b : ℕ) → g < 64 → b < 32 → bit_or (r * 2 ^ 11 + b) (g * 2 ^ 5) ≡ pack565 r g b
or_565_low r g b hg hb = ground (
  arith,
  bit_or_split 11 r 0 b (g * 2 ^ 5) (omega arith) (omega arith),
  or_zero r,
  or_fields_low 5 g b hb,
)

low_red : (g r : ℕ) → r < 127 → (g * 2 ^ 8 + r / 4) % 32 ≡ r / 4
low_red g r h = omega arith

-- Sums of spread colours stay in their fields, and do not wrap.
add_sums : (r g b r' g' b' : ℕ) → sums r g b + sums r' g' b' ≡ sums (r + r') (g + g') (b + b')
add_sums r g b r' g' b' = omega arith

no_wrap : (r g b : ℕ) → r < 127 → g < 255 → b < 127 → sums r g b % 2 ^ 32 ≡ sums r g b
no_wrap r g b hr hg hb = omega arith

packed_sums :
    (r g b : ℕ)
    → r < 127
    → g < 255
    → b < 127
    → bit_or (bit_and (sums r g b / 4) 0xf81f) (bit_and (sums r g b / 2 ^ 18) 0x07e0) % 2 ^ 16
      ≡ pack565 (r / 4) (g / 4) (b / 4)
packed_sums r g b hr hg hb =
    rw
      (
        quarter r g b (omega arith) (omega arith),
        top_green r g b hr (omega arith),
        and_f81f (g * 2 ^ 8 + r / 4) (r % 4 * 16) (b / 4) (omega arith) (omega arith),
        and_07e0 0 (g / 4) (g % 4 * 8) (omega arith) (omega arith),
        low_red g r hr,
        or_565_low (r / 4) (g / 4) (b / 4) (omega arith) (omega arith),
      )
      (omega arith)

-- For four 16-bit colours, the packed average of the pyramid is `Average4`, bit for bit.
pub packed_average-average4 :
    (a b c d : ℕ)
    → IsU16 a
    → IsU16 b
    → IsU16 c
    → IsU16 d
    → packed_average a b c d ≡ average4 a b c d
unfolding packed_average
packed_average-average4 a b c d ha hb hc hd =
    let r = red a + red b + red c + red d + 2 in
    let g = green a + green b + green c + green d + 2 in
    let b' = blue a + blue b + blue c + blue d + 2 in
    rw
      (
        spread_eq a ha,
        spread_eq b hb,
        spread_eq c hc,
        spread_eq d hd,
        average4_channels a b c d,
        add_sums (red a) (green a) (blue a) (red b) (green b) (blue b),
        add_sums (red a + red b) (green a + green b) (blue a + blue b) (red c) (green c) (blue c),
        add_sums (red a + red b + red c) (green a + green b + green c) (blue a + blue b + blue c)
            (red d) (green d) (blue d),
        add_sums (red a + red b + red c + red d) (green a + green b + green c + green d)
            (blue a + blue b + blue c + blue d) 2 2 2,
        no_wrap r g b' (omega arith) (omega arith) (omega arith),
      )
      (packed_sums r g b' (omega arith) (omega arith) (omega arith))
