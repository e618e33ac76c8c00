-- ===== src/Terrain/Wal/Log/Reopen.antt =====
-- Replay after a crash: the batches that the log held come back.
use time_shade_db.Prelude.{
  ℕ, suc, ◌+◌, ◌≡◌, refl, sym, ap, ◌∙◌, arith, ltb, le→ltb_false, if◌then◌else◌, inl, inr,
  Bool-cases,
}
use time_shade_db.Prelude.{
  true, false, Option, some, List, [], ◌∷◌, ◌++◌, All, map, length, take, take-take, take_all,
  append_assoc, append-nil,
}
use time_shade_db.Prelude.Int.{ℤ}
use time_shade_db.Prelude.Maps.{Map, lookup, insert, lookup-insert_self, nat_Eq}
use time_shade_db.Memstore.Terrain.{ChunkUpdate, no_horizon}
use time_shade_db.Terrain.Wal.{WalUpdate, put_frame}
use time_shade_db.Terrain.Wal.Frame.{IsPacking, IsBatch, logged}
use time_shade_db.Terrain.Wal.Replay.{WalSeg, replay, replay_segment, SegReplay}
use time_shade_db.Terrain.Wal.Replay.Segment.{seg_bytes, fits, fits-fits, fits_le}
use time_shade_db.Terrain.Wal.Replay.Crash.{found, replay_segment-take, replay_segment-seg_bytes}
use time_shade_db.Terrain.Wal.Log.{Wal}
use time_shade_db.Terrain.Wal.Log.Kept.{Held, Holds, IsSegs, IsSegs-insert, IsKept}

-- The batches of some segments, one list.
unfoldable pub all_batches : List (List (List ChunkUpdate)) → List (List ChunkUpdate)
all_batches [] = []
all_batches (s ∷ ss) = s ++ all_batches ss

-- What a replay passes on for some batches.
abbrev pub replayed : List (List ChunkUpdate) → List (List WalUpdate)
replayed bs = map (map logged) bs

-- A segment as `openWAL` lists it.
abbrev pub listed : ℕ → WalSeg
listed seq = record { seq = seq; max_t = no_horizon; size = 0 }

abbrev pub listed_held : Held → WalSeg
listed_held (sg, bs) = listed sg.seq

abbrev pub held_batches : Held → List (List ChunkUpdate)
held_batches (sg, bs) = bs

module _ (encode_all : List ℕ → List ℕ) (decode_all : List ℕ → Option (List ℕ)) (crc : List ℕ → ℕ)
    (z : IsPacking encode_all decode_all crc) where
  -- One round of `replay`.
  replay_round :
      (files : Map ℕ (List ℕ)) (seq : ℕ) (sgs : List WalSeg) (file : List ℕ) (r : SegReplay)
      → lookup seq files ≡ some file
      → replay_segment decode_all crc file no_horizon ≡ r
      → r.is_ok ≡ true
      → (cut : Map ℕ (List ℕ))
      → (if ltb r.end (length file) then insert seq (take r.end file) files else files) ≡ cut
      → ((replay decode_all crc files (listed seq ∷ sgs)).0 ≡ (replay decode_all crc cut sgs).0)
        × ((replay decode_all crc files (listed seq ∷ sgs)).1
            ≡ r.frames ++ (replay decode_all crc cut sgs).1)
        × ((replay decode_all crc files (listed seq ∷ sgs)).2 ≡ (replay decode_all crc cut sgs).2)
  unfolding replay
  replay_round files seq sgs file r f s o cut c = rw (replay, f, s, c, o) (refl, refl, refl)

  -- A replay that ends without an error, passes on some batches, and leaves a file.
  pub record Replays (files : Map ℕ (List ℕ)) (sgs : List WalSeg) (bs : List (List ChunkUpdate))
      (seq : ℕ) (file : List ℕ) : Type 0 where
    pub ok_is : (replay decode_all crc files sgs).0 ≡ true
    pub frames_are : (replay decode_all crc files sgs).1 ≡ replayed bs
    pub file_is : lookup seq (replay decode_all crc files sgs).2 ≡ some file

  map-append : (xs ys : List (List ChunkUpdate)) → replayed (xs ++ ys) ≡ replayed xs ++ replayed ys
  map-append [] ys = refl
  map-append (x ∷ xs) ys = ap (λ t. map logged x ∷ t) (map-append xs ys)

  -- A whole segment before others.
  whole-Replays :
      (files : Map ℕ (List ℕ)) (seq size : ℕ) (max_t : ℤ) (bs : List (List ChunkUpdate))
      (sgs : List WalSeg) (rest : List (List ChunkUpdate)) (last : ℕ) (file : List ℕ)
      → Holds (put_frame encode_all crc) files seq size max_t bs
      → Replays files sgs rest last file
      → Replays files (listed seq ∷ sgs) (bs ++ rest) last file
  whole-Replays files seq size max_t bs sgs rest last file h r =
      let round =
        replay_round files seq sgs (seg_bytes (put_frame encode_all crc) bs)
          (found encode_all decode_all crc z 0 no_horizon bs) h.file_is
          (replay_segment-seg_bytes encode_all decode_all crc z bs no_horizon h.batches) refl files
          (rw
            (le→ltb_false (0 + length (seg_bytes (put_frame encode_all crc) bs))
              (length (seg_bytes (put_frame encode_all crc) bs)) (omega arith))
            refl) in
      record {
        ok_is = round.0 ∙ r.ok_is;
        frames_are = round.1 ∙ ap (λ t. replayed bs ++ t) r.frames_are ∙ sym (map-append bs rest);
        file_is = ap (lookup last) round.2 ∙ r.file_is;
      }

  -- A segment that was cut anywhere.
  cut-Replays :
      (files : Map ℕ (List ℕ)) (seq k : ℕ) (bs : List (List ChunkUpdate))
      → All IsBatch bs
      → lookup seq files ≡ some (take k (seg_bytes (put_frame encode_all crc) bs))
      → Replays files
          (listed seq ∷ [])
          (fits (put_frame encode_all crc) k bs)
          seq
          (seg_bytes (put_frame encode_all crc) (fits (put_frame encode_all crc) k bs))
  unfolding replay
  cut-Replays files seq k bs h f =
      let left = fits (put_frame encode_all crc) k bs in
      let end = length (seg_bytes (put_frame encode_all crc) left) in
      let first = take k (seg_bytes (put_frame encode_all crc) bs) in
      let is_cut : take (0 + end) first ≡ seg_bytes (put_frame encode_all crc) left =
        ap (λ (n : ℕ). take n first) (omega arith)
        ∙ take-take end k (seg_bytes (put_frame encode_all crc) bs)
            (fits_le (put_frame encode_all crc) bs k)
        ∙ fits-fits (put_frame encode_all crc) bs k in
      let round =
        replay_round files seq [] first (found encode_all decode_all crc z 0 no_horizon left) f
          (replay_segment-take encode_all decode_all crc z bs k no_horizon h) refl _ refl in
      record {
        ok_is = round.0;
        frames_are = round.1 ∙ append-nil (replayed left);
        file_is = ap (lookup seq) round.2 ∙ elim (Bool-cases (ltb (0 + end) (length first))) [
          | inl c ↦ rw (c) (lookup-insert_self seq (take (0 + end) first) files ∙ ap some is_cut)
          | inr c ↦ rw (c) (f ∙ ap some (sym (take_all (0 + end) first (ground arith)) ∙ is_cut))
        ];
      }

  -- The closed segments, and then those that follow them.
  closed-Replays :
      (files : Map ℕ (List ℕ)) (lo hi : ℕ) (gs : List Held) (sgs : List WalSeg)
      (rest : List (List ChunkUpdate)) (last : ℕ) (file : List ℕ)
      → IsSegs (put_frame encode_all crc) files lo hi gs
      → Replays files sgs rest last file
      → Replays files
          (map listed_held gs ++ sgs)
          (all_batches (map held_batches gs) ++ rest)
          last
          file
  unfolding all_batches
  closed-Replays files lo hi [] sgs rest last file h r = r
  closed-Replays files lo hi ((sg, bs) ∷ gs) sgs rest last file (l, c, h) r =
      rw (append_assoc bs (all_batches (map held_batches gs)) rest) (
        whole-Replays files sg.seq sg.size sg.max_t bs _ _ last file c
          (closed-Replays files (suc sg.seq) hi gs sgs rest last file h r))

  -- For an open log whose segments hold batches, when a crash leaves any first bytes of the file of
  -- the current segment: `replay` of the segments in the order of their numbers ends without an error,
  -- passes on all the batches of the closed segments and then those of the current one whose frames
  -- stand whole in these bytes, in order, and leaves the current file with exactly these frames.
  pub crash-Replays :
      (w : Wal) (gs : List Held) (cur : List (List ChunkUpdate)) (k : ℕ)
      → IsKept (put_frame encode_all crc) w gs cur
      → w.opened ≡ true
      → Replays
          (insert w.cur_seq (take k (seg_bytes (put_frame encode_all crc) cur)) w.files)
          (map listed_held gs ++ (listed w.cur_seq ∷ []))
          (all_batches (map held_batches gs) ++ fits (put_frame encode_all crc) k cur)
          w.cur_seq
          (seg_bytes (put_frame encode_all crc) (fits (put_frame encode_all crc) k cur))
  crash-Replays w gs cur k kept o = elim kept.current_is [
    | inr (c, d) ↦ absurd (true_false (sym o ∙ c))
    | inl (c, (n, h)) ↦
        closed-Replays files 0 w.cur_seq gs _ _ _ _
          (IsSegs-insert (put_frame encode_all crc) w.files w.cur_seq _ 0 gs
            (rw (sym n) kept.closed_are))
          (cut-Replays files w.cur_seq k cur h.batches (lookup-insert_self w.cur_seq _ w.files))
  ]
    where
      files : Map ℕ (List ℕ)
      files = insert w.cur_seq (take k (seg_bytes (put_frame encode_all crc) cur)) w.files

      true_false : true ≡ false → ⊥
      true_false p = cc
