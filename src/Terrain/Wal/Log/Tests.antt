-- ===== src/Terrain/Wal/Log/Tests.antt =====
-- A log with a batch of a deleted chunk and a chunk of one colour, under a packing that puts a byte in
-- front of a payload.
use time_shade_db.Prelude.{
  ℕ, ◌%◌, ◌^◌, ◌≤◌, ◌≡◌, refl, arith, inl, inr, true, false, Option, none, some, List, [], ◌∷◌,
  ◌++◌, All, length, take, map,
}
use time_shade_db.Prelude.Int.{pos, negsuc}
use time_shade_db.Prelude.Maps.{insert, keys, nat_Eq}
use time_shade_db.Memstore.Terrain.{ChunkUpdate, no_horizon}
use time_shade_db.Terrain.Wal.{put_frame, put_raw, decode_wal_frame, wal_max_raw}
use time_shade_db.Terrain.Wal.Frame.{
  IsPacking, IsBatch, IsLoggable, logged, decode_wal_frame-encode_all, length-put_raw,
}
use time_shade_db.Terrain.Wal.Replay.{replay_segment}
use time_shade_db.Terrain.Wal.Replay.Segment.{seg_bytes, fits}
use time_shade_db.Terrain.Wal.Replay.Crash.{found, replay_segment-take}
use time_shade_db.Terrain.Wal.Log.{
  Wal, Faults, open_wal, start, append, rotate, wal_batch, list_segs,
}
use time_shade_db.Terrain.Wal.Log.Kept.{IsKept, start-IsKept}
use time_shade_db.Terrain.Wal.Log.Append.{append-IsKept, after_append}
use time_shade_db.Terrain.Wal.Log.Rotate.{Rotated, contents}
use time_shade_db.Terrain.Wal.Log.Horizon.{rotate-Rotated}
use time_shade_db.Terrain.Wal.Log.Listed.{IsListed, append-IsListed}
use time_shade_db.Terrain.Wal.Log.Directory.{open_wal-Replays}
use time_shade_db.Terrain.Wal.Log.Reopen.{Replays, held_batches, all_batches}
use time_shade_db.Terrain.Wal.Log.Batches.{append-wal_batch, join, pieces}

abbrev encode_all : List ℕ → List ℕ
encode_all raw = 0 ∷ raw

abbrev decode_all : List ℕ → Option (List ℕ)
decode_all [] = none
decode_all (b ∷ raw) = some raw

abbrev crc : List ℕ → ℕ
crc b = length b % 2 ^ 32

abbrev packing : IsPacking encode_all decode_all crc
packing = record {
  unpack = λ raw h. refl;
  some_bytes = λ raw. omega arith;
  few_bytes = λ raw h. omega arith;
  crc32 = λ b. omega arith;
}

abbrev gone : ChunkUpdate
gone = record {
  ds = record { map_name = []; surface = []; force = [] };
  chunk = record { x = pos 3; y = negsuc 4 };
  t = pos 1000;
  deleted = true;
  pixels = none;
}

abbrev chart : ChunkUpdate
chart = record {
  ds = record { map_name = []; surface = []; force = [] };
  chunk = record { x = pos 3; y = pos 5 };
  t = pos 2000;
  deleted = false;
  pixels = some (λ j. 7);
}

abbrev batch : List ChunkUpdate
batch = gone ∷ chart ∷ []

gone-IsLoggable : IsLoggable gone
gone-IsLoggable = record {
  t_is = (omega arith, omega arith);
  x_is = (omega arith, omega arith);
  y_is = (omega arith, omega arith);
  chart_is = inl refl;
}

chart-IsLoggable : IsLoggable chart
chart-IsLoggable = record {
  t_is = (omega arith, omega arith);
  x_is = (omega arith, omega arith);
  y_is = (omega arith, omega arith);
  chart_is = inr (refl, (_, (refl, λ i. omega arith)));
}

batch-All : All IsLoggable batch
batch-All = (gone-IsLoggable, (chart-IsLoggable, tt))

batch-IsBatch : IsBatch batch
batch-IsBatch = (omega arith, batch-All)

length-put_raw_example : length (put_raw batch) ≤ wal_max_raw
length-put_raw_example = length-put_raw batch (omega arith)

decode_wal_frame-encode_all_example :
    decode_wal_frame decode_all (encode_all (put_raw batch)) ≡ some (map logged batch)
decode_wal_frame-encode_all_example =
    decode_wal_frame-encode_all encode_all decode_all crc batch packing batch-IsBatch

-- A crash 30 bytes into the segment.
replay_segment-take_example :
    replay_segment decode_all crc
      (take 30 (seg_bytes (put_frame encode_all crc) (batch ∷ batch ∷ [])))
      no_horizon
    ≡ found encode_all decode_all crc packing 0 no_horizon
        (fits (put_frame encode_all crc) 30 (batch ∷ batch ∷ []))
replay_segment-take_example =
    replay_segment-take encode_all decode_all crc packing (batch ∷ batch ∷ []) 30 no_horizon
      (batch-IsBatch, (batch-IsBatch, tt))

abbrev started : Wal
started = (start false (open_wal false [])).1

started-IsKept : IsKept (put_frame encode_all crc) started [] []
unfolding list_segs keys
started-IsKept =
    start-IsKept (put_frame encode_all crc) false (open_wal false []) [] refl
      (record { hi = 0; segs_are = list; closed_are = omega arith; current_is = inr (refl, refl) })
  where
    list : (open_wal false []).segs ≡ []
    list = refl

append-wal_batch_example :
    (join (pieces (length batch) batch) ≡ batch)
    × IsKept
        (put_frame encode_all crc)
        (append
          (some 3)
          (wal_batch encode_all crc batch).0
          (wal_batch encode_all crc batch).1
          started).1
        []
        (after_append
          (append
            (some 3)
            (wal_batch encode_all crc batch).0
            (wal_batch encode_all crc batch).1
            started).0
          []
          (pieces (length batch) batch))
append-wal_batch_example =
    append-wal_batch encode_all decode_all crc packing started [] [] (some 3) batch started-IsKept
      batch-All

abbrev filled : Wal
filled = (append none (seg_bytes (put_frame encode_all crc) (batch ∷ [])) (pos 2000) started).1

filled-IsKept : IsKept (put_frame encode_all crc) filled [] (batch ∷ [])
unfolding append
filled-IsKept =
    append-IsKept (put_frame encode_all crc) started [] [] (batch ∷ []) none (pos 2000)
      started-IsKept (batch-IsBatch, tt) ((omega arith, (omega arith, tt)), tt)

filled_opened : filled.opened ≡ true
unfolding append
filled_opened = refl

abbrev no_faults : Faults
no_faults = record {
  sync_fails = false;
  close_fails = false;
  open_fails = false;
  remove_fails = λ seq. false;
}

rotate-Rotated_example :
    Rotated
      (put_frame encode_all crc)
      (pos 3000)
      (rotate no_faults (pos 3000) filled).1
      (contents [] (batch ∷ []))
rotate-Rotated_example =
    rotate-Rotated (put_frame encode_all crc) no_faults (pos 3000) filled [] (batch ∷ [])
      filled-IsKept

started-IsListed : IsListed started
unfolding list_segs keys insert
started-IsListed = refl

filled-IsListed : IsListed filled
unfolding append
filled-IsListed =
    append-IsListed (put_frame encode_all crc) none
      (seg_bytes (put_frame encode_all crc) (batch ∷ [])) (pos 2000) started [] [] started-IsKept
      started-IsListed

open_wal-Replays_example :
    Replays encode_all decode_all crc packing
      (insert filled.cur_seq
        (take 9 (seg_bytes (put_frame encode_all crc) (batch ∷ [])))
        filled.files)
      (open_wal true (
        insert filled.cur_seq
          (take 9 (seg_bytes (put_frame encode_all crc) (batch ∷ [])))
          filled.files)).segs
      (all_batches (map held_batches []) ++ fits (put_frame encode_all crc) 9 (batch ∷ []))
      filled.cur_seq
      (seg_bytes (put_frame encode_all crc) (fits (put_frame encode_all crc) 9 (batch ∷ [])))
open_wal-Replays_example =
    open_wal-Replays encode_all decode_all crc packing filled [] (batch ∷ []) 9 true filled-IsKept
      filled_opened filled-IsListed
