-- ===== src/Series/File/Scan.antt =====
-- The scan of `recover` finds every whole record and stops at a torn one.
use time_shade_db.Prelude.{
  ℕ, zero, suc, ◌+◌, ◌≤◌, ◌<◌, ◌≡◌, refl, sym, ap, ◌∙◌, arith, ltb, lt→ltb, le→ltb_false, inl, inr,
  ◌⊎◌,
}
use time_shade_db.Prelude.{
  true, false, Bool-cases, Option, none, some, List, [], ◌∷◌, ◌++◌, All, length, length-append,
  length-take, take, append_assoc, append-nil, le→leb, drop-append_self, take-take,
}
use time_shade_db.Prelude.Int.{ℤ}
use time_shade_db.Prelude.Words.{IsU32}
use time_shade_db.Memstore.Series.{LogRecord, t_end}
use time_shade_db.Series.Format.{Header, Entry, entry_t_end, parse_header, put_header}
use time_shade_db.Series.Format.RoundTrip.{parse_header-put_header, length-put_header}
use time_shade_db.Series.File.{read_at, is_before}
use time_shade_db.Series.File.Recover.{scan, is_sound}
use time_shade_db.Series.File.Records.{header_of, record_bytes}
use time_shade_db.Series.File.Layout.{
  IsStorable, IsOrdered, read_at-append, header_of-IsHeader, length-record_bytes,
}
use time_shade_db.Series.File.Layout.{check_record-entry_at, entry_at, blk_bytes, entries_at}

module _ (crc : List ℕ → ℕ) (crc32 : (b : List ℕ) → IsU32 (crc b)) where
  -- A tail of a file that is too short to be the record that it begins.
  pub record IsTorn (tail : List ℕ) : Type 0 where
    pub next : LogRecord
    pub storable : IsStorable next
    pub cut : ℕ
    pub short : cut < length (record_bytes crc next)
    pub tail_is : tail ≡ take cut (record_bytes crc next)

  -- There is no tail, or it is torn.
  abbrev pub IsTail : List ℕ → Type 0
  IsTail tail = (tail ≡ []) ⊎ IsTorn tail

  read_at_short :
      (before tail : List ℕ) (n : ℕ)
      → length tail < n
      → read_at (length before) n (before ++ tail) ≡ none
  unfolding read_at
  read_at_short before tail n h = rw (
    read_at,
    drop-append_self before tail,
    lt→ltb (length (take n tail)) n (omega (arith, length-take n tail)),
  )

  read_at_front :
      (before tail : List ℕ) (n : ℕ)
      → n ≤ length tail
      → read_at (length before) n (before ++ tail) ≡ some (take n tail)
  unfolding read_at
  read_at_front before tail n h = rw (
    read_at,
    drop-append_self before tail,
    le→ltb_false (length (take n tail)) n (omega (arith, length-take n tail)),
  )

  take-record_bytes :
      (r : LogRecord) → take 32 (record_bytes crc r) ≡ put_header crc (header_of crc r)
  unfolding put_header
  take-record_bytes r = refl

  parse_header-front :
      (r : LogRecord)
      → IsStorable r
      → parse_header crc (take 32 (record_bytes crc r)) ≡ some (header_of crc r)
  parse_header-front r s =
      ap (parse_header crc)
        (take-record_bytes r ∙ sym (append-nil (put_header crc (header_of crc r))))
      ∙ parse_header-put_header crc (header_of crc r) [] (crc32 _)
          (header_of-IsHeader crc crc32 r s)

  is_sound-beyond :
      (blk : List ℕ) (last : Option ℤ) (at_pos : ℕ) (h : Header)
      → length blk < at_pos + 32 + h.plen
      → is_sound crc blk last at_pos h ≡ false
  unfolding is_sound
  is_sound-beyond blk last at_pos h lt = ground arith

  -- The scan stops at a tail.
  scan_stops :
      (fuel : ℕ) (before tail : List ℕ) (last : Option ℤ)
      → IsTail tail
      → scan crc fuel (before ++ tail) last (length before) ≡ ([], length before)
  unfolding scan
  scan_stops zero before tail last t = refl
  scan_stops (suc fuel) before tail last (inl e) =
      rw (scan, read_at_short before tail 32 (omega (arith, ap length e)))
  scan_stops (suc fuel) before tail last (inr t) = elim (Bool-cases (ltb (length tail) 32)) [
    | inl s ↦ rw (scan, read_at_short before tail 32 (ground arith))
    | inr s ↦
        let long : 32 ≤ length tail = ground arith in
        rw (scan, read_at_front before tail 32 long, header long, unsound long)
  ]
    where
      header : 32 ≤ length tail → parse_header crc (take 32 tail) ≡ some (header_of crc t.next)
      header long =
          ap (parse_header crc) (
            ap (take 32) t.tail_is
            ∙ take-take 32 t.cut (record_bytes crc t.next)
                (omega (arith, ap length t.tail_is, length-take t.cut (record_bytes crc t.next))))
          ∙ parse_header-front t.next t.storable

      unsound :
          32 ≤ length tail
          → is_sound crc (before ++ tail) last (length before) (header_of crc t.next) ≡ false
      unsound long = is_sound-beyond (before ++ tail) last (length before) (header_of crc t.next) (
          omega (
            arith,
            length-append before tail,
            ap length t.tail_is,
            length-take t.cut (record_bytes crc t.next),
            length-record_bytes crc crc32 t.next,
            t.short,
          ))

  is_sound-record :
      (before after : List ℕ) (last : Option ℤ) (r : LogRecord)
      → IsStorable r
      → is_before (t_end r.meta) last ≡ false
      → is_sound crc
          (before ++ (record_bytes crc r ++ after))
          last
          (length before)
          (header_of crc r)
        ≡ true
  unfolding is_sound entry_t_end t_end
  is_sound-record before after last r s o = rw (
    is_sound,
    le→leb (length before + 32 + length r.payload)
        (length (before ++ (record_bytes crc r ++ after)))
        (omega (
          arith,
          length-append before (record_bytes crc r ++ after),
          length-append (record_bytes crc r) after,
          length-record_bytes crc crc32 r,
        )),
    o,
    check_record-entry_at crc crc32 before after (length before) 0 r refl s,
  )

  -- One round of the scan.
  scan_step :
      (fuel : ℕ) (blk : List ℕ) (last : Option ℤ) (at_pos : ℕ) (r : LogRecord) (hb : List ℕ)
      (es : List Entry) (end : ℕ)
      → read_at at_pos 32 blk ≡ some hb
      → parse_header crc hb ≡ some (header_of crc r)
      → is_sound crc blk last at_pos (header_of crc r) ≡ true
      → scan crc fuel blk (some (t_end r.meta)) (at_pos + 32 + length r.payload) ≡ (es, end)
      → scan crc (suc fuel) blk last at_pos ≡ (entry_at crc crc32 at_pos 0 r ∷ es, end)
  unfolding scan entry_t_end t_end
  scan_step fuel blk last at_pos r hb es end a b c d = rw (scan, a, b, c, d)

  -- The scan finds the records that stand whole in the file, up to the tail.
  pub scan-records :
      (zs : List LogRecord) (fuel : ℕ) (before tail blk : List ℕ) (last : Option ℤ) (at_pos : ℕ)
      → blk ≡ before ++ (blk_bytes crc crc32 zs ++ tail)
      → at_pos ≡ length before
      → All IsStorable zs
      → IsOrdered last zs
      → IsTail tail
      → length zs ≤ fuel
      → scan crc fuel blk last at_pos
        ≡ (entries_at crc crc32 at_pos zs, at_pos + length (blk_bytes crc crc32 zs))
  unfolding scan blk_bytes entries_at
  scan-records [] fuel before tail blk last at_pos e p s o t h =
      rw (e, p, scan_stops fuel before tail last t) (ap (λ n. ([], n)) (omega arith))
  scan-records (r ∷ zs) zero before tail blk last at_pos e p s o t h = absurd (omega arith)
  scan-records (r ∷ zs) (suc fuel) before tail blk last at_pos e p (s, ss) (o, os) t h =
      scan_step fuel blk last at_pos r front _ _ read parse sound (
        scan-records zs fuel (before ++ record_bytes crc r) tail blk (some (t_end r.meta))
          (at_pos + 32 + length r.payload)
          (e ∙ regroup ∙ sym (append_assoc before (record_bytes crc r) after)) next_pos ss os t
          (omega arith))
      ∙ ap (λ n. (entries_at crc crc32 at_pos (r ∷ zs), n)) end_is
    where
      after : List ℕ
      after = blk_bytes crc crc32 zs ++ tail

      front : List ℕ
      front = put_header crc (header_of crc r)

      regroup :
          before ++ ((record_bytes crc r ++ blk_bytes crc crc32 zs) ++ tail)
          ≡ before ++ (record_bytes crc r ++ after)
      regroup =
          ap (λ t. before ++ t) (append_assoc (record_bytes crc r) (blk_bytes crc crc32 zs) tail)

      next_pos : at_pos + 32 + length r.payload ≡ length (before ++ record_bytes crc r)
      next_pos =
          omega (arith, length-append before (record_bytes crc r), length-record_bytes crc crc32 r)

      end_is :
          at_pos + 32 + length r.payload + length (blk_bytes crc crc32 zs)
          ≡ at_pos + length (record_bytes crc r ++ blk_bytes crc crc32 zs)
      end_is = omega (
        arith,
        length-append (record_bytes crc r) (blk_bytes crc crc32 zs),
        length-record_bytes crc crc32 r,
      )

      read : read_at at_pos 32 blk ≡ some front
      read =
          ap (read_at at_pos 32)
            (e ∙ regroup ∙ ap (λ t. before ++ t) (append_assoc front r.payload after))
          ∙ read_at-append before front (r.payload ++ after) at_pos 32 p
              (sym (length-put_header crc (header_of crc r)))

      parse : parse_header crc front ≡ some (header_of crc r)
      parse =
          ap (parse_header crc) (sym (append-nil front))
          ∙ parse_header-put_header crc (header_of crc r) [] (crc32 _)
              (header_of-IsHeader crc crc32 r s)

      sound : is_sound crc blk last at_pos (header_of crc r) ≡ true
      sound = rw (e ∙ regroup, p) (is_sound-record before after last r s o)
