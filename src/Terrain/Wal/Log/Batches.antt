-- ===== src/Terrain/Wal/Log/Batches.antt =====
-- `walBatch`: the updates of a batch, in frames of at most 1024, appended to the log.
use time_shade_db.Prelude.{ℕ, zero, suc, ◌≤◌, ◌≡◌, refl, ap, ◌∙◌, arith}
use time_shade_db.Prelude.{
  Option, List, [], ◌∷◌, ◌++◌, All, All-take, All-drop, length, length-take, length-drop, take,
  drop, take_and_drop,
}
use time_shade_db.Prelude.Int.{ℤ, ◌≤ℤ◌}
use time_shade_db.Memstore.Terrain.{ChunkUpdate, no_horizon}
use time_shade_db.Terrain.Wal.{put_frame, wal_frame_updates}
use time_shade_db.Terrain.Wal.Frame.{IsPacking, IsBatch, IsLoggable}
use time_shade_db.Terrain.Wal.Replay.{newer}
use time_shade_db.Terrain.Wal.Replay.Segment.{seg_bytes}
use time_shade_db.Terrain.Wal.Log.{Wal, append, wal_frames, wal_batch, newest_update}
use time_shade_db.Terrain.Wal.Log.Kept.{Held, IsKept, IsUpTo}
use time_shade_db.Terrain.Wal.Log.Append.{append-IsKept, after_append}

-- The updates in pieces of at most 1024.
unfoldable pub pieces : ℕ → List ChunkUpdate → List (List ChunkUpdate)
pieces zero us = []
pieces (suc fuel) [] = []
pieces (suc fuel) (u ∷ us) =
    take wal_frame_updates (u ∷ us) ∷ pieces fuel (drop wal_frame_updates (u ∷ us))

unfoldable pub join : List (List ChunkUpdate) → List ChunkUpdate
join [] = []
join (b ∷ bs) = b ++ join bs

-- Enough fuel leaves no update.
pub join-pieces : (fuel : ℕ) (us : List ChunkUpdate) → length us ≤ fuel → join (pieces fuel us) ≡ us
unfolding join pieces
join-pieces zero [] h = refl
join-pieces zero (u ∷ us) h = absurd (omega arith)
join-pieces (suc fuel) [] h = refl
join-pieces (suc fuel) (u ∷ us) h =
    ap (λ t. take wal_frame_updates (u ∷ us) ++ t)
      (join-pieces fuel (drop wal_frame_updates (u ∷ us))
        (omega (arith, length-drop wal_frame_updates (u ∷ us))))
    ∙ take_and_drop wal_frame_updates (u ∷ us)

pieces-IsBatch :
    (fuel : ℕ) (us : List ChunkUpdate) → All IsLoggable us → All IsBatch (pieces fuel us)
unfolding pieces
pieces-IsBatch zero us h = tt
pieces-IsBatch (suc fuel) [] h = tt
pieces-IsBatch (suc fuel) (u ∷ us) h = (
  (
    omega (arith, length-take wal_frame_updates (u ∷ us)),
    All-take IsLoggable wal_frame_updates (u ∷ us) h,
  ),
  pieces-IsBatch fuel (drop wal_frame_updates (u ∷ us))
      (All-drop IsLoggable wal_frame_updates (u ∷ us) h),
)

pieces-IsUpTo :
    (m : ℤ) (fuel : ℕ) (us : List ChunkUpdate) → All (λ u. u.t ≤ℤ m) us → IsUpTo m (pieces fuel us)
unfolding pieces
pieces-IsUpTo m zero us h = tt
pieces-IsUpTo m (suc fuel) [] h = tt
pieces-IsUpTo m (suc fuel) (u ∷ us) h = (
  All-take (λ u. u.t ≤ℤ m) wal_frame_updates (u ∷ us) h,
  pieces-IsUpTo m fuel (drop wal_frame_updates (u ∷ us))
      (All-drop (λ u. u.t ≤ℤ m) wal_frame_updates (u ∷ us) h),
)

newer_le : (t m : ℤ) → (t ≤ℤ newer t m) × (m ≤ℤ newer t m)
newer_le t m = ground arith

newest_update_le : (m : ℤ) (us : List ChunkUpdate) → m ≤ℤ newest_update m us
unfolding newest_update
newest_update_le m [] = omega arith
newest_update_le m (u ∷ us) = omega (arith, newest_update_le (newer u.t m) us, (newer_le u.t m).1)

-- No update is newer than the newest.
newest_update-All : (m : ℤ) (us : List ChunkUpdate) → All (λ u. u.t ≤ℤ newest_update m us) us
unfolding newest_update
newest_update-All m [] = tt
newest_update-All m (u ∷ us) = (
  omega (arith, newest_update_le (newer u.t m) us, (newer_le u.t m).0),
  newest_update-All (newer u.t m) us,
)

module _ (encode_all : List ℕ → List ℕ) (decode_all : List ℕ → Option (List ℕ)) (crc : List ℕ → ℕ)
    (z : IsPacking encode_all decode_all crc) where
  wal_frames-pieces :
      (fuel : ℕ) (us : List ChunkUpdate)
      → wal_frames (put_frame encode_all crc) fuel us
        ≡ seg_bytes (put_frame encode_all crc) (pieces fuel us)
  unfolding wal_frames pieces seg_bytes
  wal_frames-pieces zero us = refl
  wal_frames-pieces (suc fuel) [] = refl
  wal_frames-pieces (suc fuel) (u ∷ us) =
      ap (λ t. put_frame encode_all crc (take wal_frame_updates (u ∷ us)) ++ t)
        (wal_frames-pieces fuel (drop wal_frame_updates (u ∷ us)))

  -- For a log whose segments hold batches and any number of updates in the ranges of their types,
  -- each deleted or with pixels: `append` of what `walBatch` makes of them keeps what the log holds,
  -- and adds, unless it fails, batches that are together exactly these updates in order.
  pub append-wal_batch :
      (w : Wal) (gs : List Held) (cur : List (List ChunkUpdate)) (fault : Option ℕ)
      (us : List ChunkUpdate)
      → IsKept (put_frame encode_all crc) w gs cur
      → All IsLoggable us
      → (join (pieces (length us) us) ≡ us)
        × IsKept
            (put_frame encode_all crc)
            (append fault (wal_batch encode_all crc us).0 (wal_batch encode_all crc us).1 w).1
            gs
            (after_append
              (append fault (wal_batch encode_all crc us).0 (wal_batch encode_all crc us).1 w).0
              cur
              (pieces (length us) us))
  append-wal_batch w gs cur fault us k h = (
    join-pieces (length us) us (omega arith),
    rw (wal_frames-pieces (length us) us) (
        append-IsKept (put_frame encode_all crc) w gs cur (pieces (length us) us) fault
          (newest_update no_horizon us) k (pieces-IsBatch (length us) us h)
          (pieces-IsUpTo (newest_update no_horizon us) (length us) us
            (newest_update-All no_horizon us))),
  )
