-- ===== src/Series/File/Writing.antt =====
-- `WriteAt` at the end of a file appends.
use time_shade_db.Prelude.{
  ℕ, ◌+◌, ◌≡◌, refl, arith, List, ◌++◌, length, take_all, drop_all, append-nil,
}
use time_shade_db.Series.File.{write_at}

pub write_at-length :
    (off : ℕ) (bytes file : List ℕ) → off ≡ length file → write_at off bytes file ≡ file ++ bytes
unfolding write_at
write_at-length off bytes file e =
    rw
      (
        write_at,
        take_all off file (omega arith),
        drop_all (off + length bytes) file (omega arith),
        append-nil bytes,
      )
      refl
