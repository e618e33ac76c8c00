-- ===== src/Terrain/Wal/Replay/Crash.antt =====
-- The replay of a segment that was cut anywhere.
use time_shade_db.Prelude.{
  ℕ, zero, suc, ◌+◌, ◌-◌, ◌≤◌, ◌<◌, ◌≡◌, refl, sym, ap, ◌∙◌, arith, ltb, leb, ◌==◌, lt→ltb,
  le→ltb_false, leb→le, ==_iff, inl, inr, Bool-cases,
}
use time_shade_db.Prelude.{
  true, false, Option, some, List, [], ◌∷◌, ◌++◌, All, map, length, length-append, length-take,
  take, drop, take-append_self, take-length, take-append_le, take-append_past, drop-append_self,
  subst, ◌||◌,
}
use time_shade_db.Prelude.Int.{ℤ}
use time_shade_db.Prelude.Words.{put_u32, get_u32, get_u32-put_u32}
use time_shade_db.Memstore.Terrain.{ChunkUpdate}
use time_shade_db.Terrain.Wal.{
  WalUpdate, put_raw, put_frame, decode_wal_frame, wal_frame_header, wal_max_payload,
}
use time_shade_db.Terrain.Wal.Frame.{
  IsPacking, IsBatch, logged, length-put_raw, decode_wal_frame-encode_all,
}
use time_shade_db.Terrain.Wal.Replay.{
  torn, whole, SegReplay, read_frame, replay_from, replay_segment, newest,
}
use time_shade_db.Terrain.Wal.Replay.Segment.{seg_bytes, fits, fits_all, newest_in}

module _ (encode_all : List ℕ → List ℕ) (decode_all : List ℕ → Option (List ℕ)) (crc : List ℕ → ℕ)
    (z : IsPacking encode_all decode_all crc) where
  -- The replay that finds some batches from a place on.
  abbrev pub found : ℕ → ℤ → List (List ChunkUpdate) → SegReplay
  found pos m bs = record {
    is_ok = true;
    frames = map (map logged) bs;
    end = pos + length (seg_bytes (put_frame encode_all crc) bs);
    max_t = newest_in m (map (map logged) bs);
  }

  pub length-put_frame :
      (b : List ChunkUpdate)
      → length (put_frame encode_all crc b) ≡ 8 + length (encode_all (put_raw b))
  unfolding put_frame
  length-put_frame b = omega arith

  frame_parts :
      (b : List ChunkUpdate) (r : List ℕ)
      → put_frame encode_all crc b ++ r
        ≡ put_u32 (length (encode_all (put_raw b)))
          ++ (put_u32 (crc (encode_all (put_raw b))) ++ (encode_all (put_raw b) ++ r))
  unfolding put_frame
  frame_parts b r = refl

  whole_read :
      (q : List ℕ) (n : ℕ) (p : List ℕ) (ups : List WalUpdate)
      → get_u32 q ≡ n
      → take n (drop 8 q) ≡ p
      → get_u32 (drop 4 q) ≡ crc p
      → 0 < n
      → n ≤ wal_max_payload
      → 8 + n ≤ length q
      → decode_wal_frame decode_all p ≡ some ups
      → read_frame decode_all crc q ≡ whole ups (8 + n)
  unfolding read_frame
  whole_read q n p ups a b c lo hi len d =
      rw
        (
          read_frame,
          a,
          b,
          c,
          d,
          a,
          le→ltb_false (length q) 8 (omega arith),
          not_zero,
          le→ltb_false wal_max_payload n hi,
          le→ltb_false (length q) (8 + n) len,
          (==_iff (crc p) (crc p)).1 refl,
        )
        refl
    where
      not_zero : (n == 0) ≡ false
      not_zero = ground arith

  read_frame_parts :
      (p r : List ℕ) (ups : List WalUpdate)
      → 0 < length p
      → length p ≤ wal_max_payload
      → decode_wal_frame decode_all p ≡ some ups
      → read_frame decode_all crc (put_u32 (length p) ++ (put_u32 (crc p) ++ (p ++ r)))
        ≡ whole ups (8 + length p)
  read_frame_parts p r ups lo hi d =
      whole_read _ (length p) p ups
        (get_u32-put_u32 (length p) (put_u32 (crc p) ++ (p ++ r)) (omega arith))
        (take-append_self p r) (get_u32-put_u32 (crc p) (p ++ r) (z.crc32 p)) lo hi
        (omega (arith, length-append p r)) d

  read_frame-put_frame :
      (b : List ChunkUpdate) (r : List ℕ)
      → IsBatch b
      → read_frame decode_all crc (put_frame encode_all crc b ++ r)
        ≡ whole (map logged b) (length (put_frame encode_all crc b))
  read_frame-put_frame b r h =
      ap (read_frame decode_all crc) (frame_parts b r)
      ∙ read_frame_parts (encode_all (put_raw b)) r (map logged b) (z.some_bytes (put_raw b))
          (z.few_bytes (put_raw b) (length-put_raw b h.0))
          (decode_wal_frame-encode_all encode_all decode_all crc b z h)
      ∙ ap (whole (map logged b)) (sym (length-put_frame b))

  short_read : (p : List ℕ) → length p < 8 + get_u32 p → read_frame decode_all crc p ≡ torn
  unfolding read_frame
  short_read p h =
      elim (Bool-cases
        (ltb (length p) wal_frame_header || (get_u32 p == 0 || ltb wal_max_payload (get_u32 p)))) [
          | inl c ↦ rw (read_frame, c) refl
          | inr c ↦ rw (read_frame, c, lt→ltb (length p) (8 + get_u32 p) h) refl
        ]

  -- The first bytes of a frame are torn.
  read_frame-take :
      (k : ℕ) (b : List ChunkUpdate)
      → IsBatch b
      → k < length (put_frame encode_all crc b)
      → read_frame decode_all crc (take k (put_frame encode_all crc b)) ≡ torn
  unfolding put_frame
  read_frame-take k b h lt = elim (Bool-cases (ltb k 8)) [
    | inl c ↦
        few_bytes_read (take k (put_frame encode_all crc b))
          (ground (arith, length-take k (put_frame encode_all crc b)))
    | inr c ↦
        subst (λ j. read_frame decode_all crc (take j (put_frame encode_all crc b)) ≡ torn) (back c)
          (long (k - 8) (ground (arith, length-put_frame b)))
  ]
    where
      few_bytes_read : (p : List ℕ) → length p < 8 → read_frame decode_all crc p ≡ torn
      few_bytes_read p l = short_read p (omega arith)

      back : ltb k 8 ≡ false → 8 + (k - 8) ≡ k
      back c = ground arith

      payload : List ℕ
      payload = encode_all (put_raw b)

      front :
          (j : ℕ)
          → take (8 + j) (put_frame encode_all crc b)
            ≡ put_u32 (length payload) ++ (put_u32 (crc payload) ++ take j payload)
      front j =
          take-append_past (8 + j) j (put_u32 (length payload) ++ put_u32 (crc payload)) payload
            refl

      long :
          (j : ℕ)
          → j < length payload
          → read_frame decode_all crc (take (8 + j) (put_frame encode_all crc b)) ≡ torn
      long j l =
          ap (read_frame decode_all crc) (front j)
          ∙ short_read _ (
              omega (
                arith,
                length-take j payload,
                get_u32-put_u32 (length payload) (put_u32 (crc payload) ++ take j payload)
                    (omega (arith, z.few_bytes (put_raw b) (length-put_raw b h.0))),
              ))

  -- The replay stops at what is no whole frame, and at the end.
  replay_stops :
      (fuel : ℕ) (p : List ℕ) (pos : ℕ) (m : ℤ)
      → read_frame decode_all crc p ≡ torn
      → replay_from decode_all crc fuel p pos m
        ≡ record { is_ok = true; frames = []; end = pos; max_t = m }
  unfolding replay_from
  replay_stops zero p pos m e = refl
  replay_stops (suc fuel) [] pos m e = refl
  replay_stops (suc fuel) (c ∷ p) pos m e = rw (replay_from, e) refl

  replay_step :
      (fuel : ℕ) (q : List ℕ) (pos : ℕ) (m : ℤ) (ups : List WalUpdate) (n : ℕ) (rest : SegReplay)
      → 0 < length q
      → read_frame decode_all crc q ≡ whole ups n
      → replay_from decode_all crc fuel (drop n q) (pos + n) (newest m ups) ≡ rest
      → replay_from decode_all crc (suc fuel) q pos m ≡ record {
        is_ok = rest.is_ok;
        frames = ups ∷ rest.frames;
        end = rest.end;
        max_t = rest.max_t;
      }
  unfolding replay_from
  replay_step fuel [] pos m ups n rest l e r = absurd (omega arith)
  replay_step fuel (c ∷ p) pos m ups n rest l e r = rw (replay_from, e, r) refl

  ending :
      (pos pos' : ℕ) (m : ℤ) (fs : List (List WalUpdate))
      → pos ≡ pos'
      → ◌≡◌ {A = SegReplay}
          record { is_ok = true; frames = fs; end = pos; max_t = m }
          record { is_ok = true; frames = fs; end = pos'; max_t = m }
  ending pos pos' m fs e =
      ap (λ (p : ℕ). record { is_ok = true; frames = fs; end = p; max_t = m }) e

  take_nil : (k : ℕ) → take {A = ℕ} k [] ≡ []
  take_nil zero = refl
  take_nil (suc k) = refl

  -- The replay of first bytes that hold the first frame.
  replay_more :
      (b : List ChunkUpdate) (fuel pos : ℕ) (m : ℤ) (p : List ℕ) (bs : List (List ChunkUpdate))
      → IsBatch b
      → length (put_frame encode_all crc b ++ p) ≤ suc fuel
      → replay_from decode_all crc fuel p
          (pos + length (put_frame encode_all crc b))
          (newest m (map logged b))
        ≡ found (pos + length (put_frame encode_all crc b)) (newest m (map logged b)) bs
      → replay_from decode_all crc (suc fuel) (put_frame encode_all crc b ++ p) pos m
        ≡ found pos m (b ∷ bs)
  unfolding seg_bytes newest_in
  replay_more b fuel pos m p bs h l e =
      replay_step fuel (front ++ p) pos m (map logged b) (length front)
        (found (pos + length front) (newest m (map logged b)) bs)
        (omega (arith, length-append front p, length-put_frame b)) (read_frame-put_frame b p h)
        (rw (drop-append_self front p) e)
      ∙ ending (pos + length front + length (seg_bytes (put_frame encode_all crc) bs)) _ _ _
          (omega (arith, length-append front (seg_bytes (put_frame encode_all crc) bs)))
    where
      front : List ℕ
      front = put_frame encode_all crc b

  replay_from-take :
      (bs : List (List ChunkUpdate)) (fuel k pos : ℕ) (m : ℤ)
      → All IsBatch bs
      → length (take k (seg_bytes (put_frame encode_all crc) bs)) ≤ fuel
      → replay_from decode_all crc fuel (take k (seg_bytes (put_frame encode_all crc) bs)) pos m
        ≡ found pos m (fits (put_frame encode_all crc) k bs)
  unfolding seg_bytes fits newest_in read_frame
  replay_from-take [] fuel k pos m h l =
      rw (take_nil k) (replay_stops fuel [] pos m refl ∙ ending pos (pos + 0) m [] (omega arith))
  replay_from-take (b ∷ bs) fuel k pos m (h, hs) l = elim (Bool-cases (leb (length front) k)) [
    | inl c ↦
        rw (fits, c, whole_front c)
          (more
            (λ n.
              replay_from-take bs n (k - length front) (pos + length front)
                (newest m (map logged b)) hs)
            fuel (rw (whole_front c) at l))
    | inr c ↦
        rw
          (fits, c, take-append_le k front (seg_bytes (put_frame encode_all crc) bs) (ground arith))
          (replay_stops fuel (take k front) pos m (read_frame-take k b h (ground arith))
            ∙ ending pos (pos + 0) m [] (omega arith))
  ]
    where
      front : List ℕ
      front = put_frame encode_all crc b

      after : List ℕ
      after = take (k - length front) (seg_bytes (put_frame encode_all crc) bs)

      whole_front :
          leb (length front) k ≡ true
          → take k (front ++ seg_bytes (put_frame encode_all crc) bs) ≡ front ++ after
      whole_front c =
          take-append_past k (k - length front) front (seg_bytes (put_frame encode_all crc) bs)
            (omega (arith, leb→le (length front) k c))

      more :
          ((n : ℕ)
            → length after ≤ n
            → replay_from decode_all crc n after (pos + length front) (newest m (map logged b))
              ≡ found
                  (pos + length front)
                  (newest m (map logged b))
                  (fits (put_frame encode_all crc) (k - length front) bs))
          → (n : ℕ) → length (front ++ after) ≤ n
          → replay_from decode_all crc n (front ++ after) pos m
            ≡ found pos m (b ∷ fits (put_frame encode_all crc) (k - length front) bs)
      more rest zero n_is = absurd (omega (arith, length-append front after, length-put_frame b))
      more rest (suc n) n_is =
          replay_more b n pos m after (fits (put_frame encode_all crc) (k - length front) bs) h n_is
            (rest n (omega (arith, length-append front after, length-put_frame b)))

  -- For a log whose payloads can be unpacked, batches of at most 1024 updates each and the first k
  -- bytes of a segment of their frames: `replay` of the segment ends without an error, passes on
  -- exactly the batches whose frames stand whole in these bytes, in order, and stops where the last of
  -- them ends, where it cuts the segment; its newest time is that of these batches.
  pub replay_segment-take :
      (bs : List (List ChunkUpdate)) (k : ℕ) (m : ℤ)
      → All IsBatch bs
      → replay_segment decode_all crc (take k (seg_bytes (put_frame encode_all crc) bs)) m
        ≡ found 0 m (fits (put_frame encode_all crc) k bs)
  replay_segment-take bs k m h =
      replay_from-take bs (length (take k (seg_bytes (put_frame encode_all crc) bs))) k 0 m h
        (omega arith)

  pub replay_segment-seg_bytes :
      (bs : List (List ChunkUpdate)) (m : ℤ)
      → All IsBatch bs
      → replay_segment decode_all crc (seg_bytes (put_frame encode_all crc) bs) m ≡ found 0 m bs
  replay_segment-seg_bytes bs m h =
      ap (λ f. replay_segment decode_all crc f m)
        (sym (take-length (seg_bytes (put_frame encode_all crc) bs)))
      ∙ replay_segment-take bs (length (seg_bytes (put_frame encode_all crc) bs)) m h
      ∙ ap (found 0 m) (
          fits_all (put_frame encode_all crc) bs (length (seg_bytes (put_frame encode_all crc) bs))
            (omega arith))
