-- ===== src/Core/Image/Tests.antt =====
-- The images at a concrete block and pixel.
use time_shade_db.Prelude.{◌+◌, ◌%◌, ◌^◌, ◌≡◌, arith}
use time_shade_db.Prelude.{List, [], ◌∷◌, All, Option, none, some}
use time_shade_db.Core.Image.{Image, ChunkPixels, core_downsample, pyramid_downsample}
use time_shade_db.Core.Image.Downsample.{IsColoured, pyramid_downsample-core_downsample}

abbrev ramp : ChunkPixels
ramp p = p + 1

abbrev shade : Image
shade i = i % 2 ^ 16

abbrev quarters : List (Option Image)
quarters = some shade ∷ none ∷ none ∷ some shade ∷ []

quarters-IsColoured : All IsColoured quarters
quarters-IsColoured = ((λ i lt. omega arith), (tt, (tt, ((λ i lt. omega arith), tt))))

pyramid_downsample-core_downsample_example :
    pyramid_downsample quarters ≡ some (core_downsample quarters)
pyramid_downsample-core_downsample_example =
    pyramid_downsample-core_downsample quarters quarters-IsColoured (omega arith)
