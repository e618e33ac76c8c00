-- ===== src/Terrain/Codec/Tests.antt =====
-- Delta blocks of two changes, one by gaps and one of a whole chunk, and a chunk with one new pixel.
use time_shade_db.Prelude.{
  ◌≡◌, refl, arith, inl, inr, Bool, true, false, none, some, List, [], ◌∷◌, ◌++◌, replicate, map,
}
use time_shade_db.Prelude.{if◌then◌else◌, ◌==◌}
use time_shade_db.Core.Image.{ChunkPixels}
use time_shade_db.Terrain.Codec.{ChunkChange, Visit, encode_delta, walk_delta}
use time_shade_db.Terrain.Codec.RoundTrip.{IsChange, visit_of, visit_all, walk_delta-encode_delta}

abbrev two_pixels : ChunkChange
two_pixels = record { block = 4; pos = some (3 ∷ 700 ∷ []); idx = 1 ∷ 2 ∷ [] }

abbrev whole_chunk : ChunkChange
whole_chunk = record { block = 9; pos = none; idx = replicate 1024 5 }

two_pixels-IsChange : IsChange two_pixels
two_pixels-IsChange = record {
  block_is = omega arith;
  some_is = omega arith;
  pos_is = inr (
    3 ∷ 700 ∷ [],
    (refl, ((omega arith, omega arith, (omega arith, omega arith, tt)), (refl, omega arith))),
  );
}

whole_chunk-IsChange : IsChange whole_chunk
whole_chunk-IsChange = record {
  block_is = omega arith;
  some_is = omega arith;
  pos_is = inl (refl, refl);
}

abbrev collect_visit : Visit → List Visit → Bool × List Visit
collect_visit v vs = (true, vs ++ (v ∷ []))

walk_delta-encode_delta_example :
    walk_delta collect_visit false (encode_delta false (two_pixels ∷ whole_chunk ∷ [])) []
    ≡ visit_all collect_visit (map (visit_of false) (two_pixels ∷ whole_chunk ∷ [])) []
walk_delta-encode_delta_example =
    walk_delta-encode_delta collect_visit false (two_pixels ∷ whole_chunk ∷ []) []
      (omega arith, two_pixels-IsChange, (omega arith, whole_chunk-IsChange, tt))

-- A chunk with one pixel of colour 7.
abbrev one_pixel : ChunkPixels
one_pixel p = if p == 5 then 7 else 0
