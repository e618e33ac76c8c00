-- ===== src/Wire/Header/Tests.antt =====
-- The header of a coarse tile.
use time_shade_db.Prelude.{◌≡◌, refl, arith, [], ◌∷◌, none, true}
use time_shade_db.Prelude.Int.{pos, negsuc}
use time_shade_db.Wire.Header.{TileHeader, IsHeader, decode_tile_header}

abbrev coarse : TileHeader
coarse = record {
  format = 3;
  z = negsuc 2;
  live = true;
  x = negsuc 69999;
  y = pos 5;
  version = 300;
  palette_version = 0;
}

coarse-IsHeader : IsHeader coarse
coarse-IsHeader = record {
  format_low = omega arith;
  format_high = omega arith;
  z_fits = omega arith;
  x_fits = omega arith;
  y_fits = omega arith;
  version_fits = omega arith;
  palette_fits = omega arith;
}

short_test : decode_tile_header (b'T' ∷ b'S' ∷ b'V' ∷ b'3' ∷ []) ≡ none
unfolding decode_tile_header
short_test = refl
