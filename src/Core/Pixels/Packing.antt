-- ===== src/Core/Pixels/Packing.antt =====
-- `RGB565ToRGB` and `RGB565`: a colour survives the way to 8-bit channels and back.
use time_shade_db.Prelude.{ℕ, ◌*◌, ◌/◌, ◌%◌, ◌^◌, ◌<◌, ◌≡◌, arith, bit_or}
use time_shade_db.Prelude.Bits.{or_fields, and_31, and_63}
use time_shade_db.Prelude.Words.{IsU16}
use time_shade_db.Core.Pixels.{rgb565, rgb565_to_rgb}
use time_shade_db.Core.Pixels.Average.{red, green, blue, or_565}

-- The replicated channel has the channel as its high bits.
widen5 : (c : ℕ) → c < 32 → bit_or (c * 8 % 256) (c / 4) / 8 ≡ c
widen5 c h = ground (arith, or_fields 3 c (c / 4))

widen6 : (c : ℕ) → c < 64 → bit_or (c * 4 % 256) (c / 16) / 4 ≡ c
widen6 c h = ground (arith, or_fields 2 c (c / 16))

-- `RGB565` gives every 16-bit colour back from the three channels that `RGB565ToRGB` makes of it.
pub rgb565-rgb565_to_rgb :
    (v : ℕ) → IsU16 v → rgb565 (rgb565_to_rgb v).0 (rgb565_to_rgb v).1 (rgb565_to_rgb v).2 ≡ v
unfolding rgb565 rgb565_to_rgb
rgb565-rgb565_to_rgb v h =
    rw
      (
        and_31 (v / 2 ^ 11),
        and_63 (v / 2 ^ 5),
        and_31 v,
        widen5 (red v) (omega arith),
        widen6 (green v) (omega arith),
        widen5 (blue v) (omega arith),
        or_565 (red v) (green v) (blue v) (omega arith) (omega arith),
      )
      (omega arith)
