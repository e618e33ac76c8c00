-- ===== src/Series/File/Reopen.antt =====
-- The fuel of the scan of `recover`.
use time_shade_db.Prelude.{
  ℕ, zero, suc, ◌+◌, ◌≤◌, ◌<◌, ◌≡◌, refl, arith, lt→ltb, inl, inr, Option-cases,
}
use time_shade_db.Prelude.{Option, none, some, List, length, length-take, length-drop, take, drop}
use time_shade_db.Prelude.Int.{ℤ}
use time_shade_db.Memstore.Series.{}
use time_shade_db.Series.Format.{parse_header, entry_t_end, entry_end}
use time_shade_db.Series.File.{read_at}
use time_shade_db.Series.File.Recover.{scan, found_entry}

module _ (crc : List ℕ → ℕ) where
  read_at_beyond :
      (off n : ℕ) (blk : List ℕ) → length blk < off + n → 0 < n → read_at off n blk ≡ none
  unfolding read_at
  read_at_beyond off n blk h p =
      rw
        (
          read_at,
          lt→ltb (length (take n (drop off blk))) n
              (omega (arith, length-take n (drop off blk), length-drop off blk)),
        )
        refl

  -- From any position on, where the rest of the file is no longer than the fuel, the scan of
  -- `recover` with more fuel finds the same records and ends at the same position, so it always
  -- ends.
  pub scan_enough :
      (fuel n : ℕ) (blk : List ℕ) (last : Option ℤ) (at_pos : ℕ)
      → length blk ≤ fuel + at_pos
      → fuel ≤ n
      → scan crc n blk last at_pos ≡ scan crc fuel blk last at_pos
  unfolding scan
  scan_enough zero zero blk last at_pos h k = refl
  scan_enough zero (suc n) blk last at_pos h k =
      rw (scan, read_at_beyond at_pos 32 blk (omega arith) (omega arith)) refl
  scan_enough (suc fuel) zero blk last at_pos h k = absurd (omega arith)
  scan_enough (suc fuel) (suc n) blk last at_pos h k = elim (Option-cases (read_at at_pos 32 blk)) [
    | inl q ↦ rw (scan, q) refl
    | inr (hb, q) ↦ elim (Option-cases (parse_header crc hb)) [
      | inl p ↦ rw (scan, q, p) refl
      | inr (hd, p) ↦
          let e = found_entry at_pos hd in
          let rest =
            scan_enough fuel n blk (some (entry_t_end e)) (entry_end e) (omega arith)
              (omega arith) in
          rw (scan, q, p, rest) refl
    ]
  ]
