-- ===== src/Terrain/Wal/Varint.antt =====
-- Signed varints are read back.
use time_shade_db.Prelude.{ℕ, ◌^◌, ◌<◌, ◌≡◌, arith, some, List, ◌++◌}
use time_shade_db.Prelude.Int.{ℤ, pos, negsuc, IsI64}
use time_shade_db.Terrain.Codec.Varint.{uvarint-put_uvarint}
use time_shade_db.Terrain.Wal.{zigzag, unzigzag, put_varint, varint}

unzigzag-zigzag : (z : ℤ) → IsI64 z → unzigzag (zigzag z) ≡ z
unfolding unzigzag zigzag
unzigzag-zigzag (pos n) h = ground arith
unzigzag-zigzag (negsuc n) h = ground arith

zigzag_bound : (z : ℤ) → zigzag z < 2 ^ 64
unfolding zigzag
zigzag_bound (pos n) = ground arith
zigzag_bound (negsuc n) = ground arith

pub varint-put_varint : (z : ℤ) (r : List ℕ) → IsI64 z → varint (put_varint z ++ r) ≡ some (z, r)
unfolding varint
varint-put_varint z r h =
    rw (varint, uvarint-put_uvarint (zigzag z) r (zigzag_bound z), unzigzag-zigzag z h)
