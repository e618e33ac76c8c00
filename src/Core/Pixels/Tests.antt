-- ===== src/Core/Pixels/Tests.antt =====
-- The colours at concrete values.
use time_shade_db.Prelude.{◌≡◌, refl, arith}
use time_shade_db.Core.Pixels.{average4, packed_average}
use time_shade_db.Core.Pixels.Average.{packed_average-average4}

packed_average_test : packed_average 0xffff 0 0xf800 0x1f ≡ 0x8210
unfolding packed_average
packed_average_test = refl

packed_average-average4_example :
    packed_average 0xffff 0 0xf800 0x1f ≡ average4 0xffff 0 0xf800 0x1f
packed_average-average4_example =
    packed_average-average4 0xffff 0 0xf800 0x1f (omega arith) (omega arith) (omega arith)
      (omega arith)
