-- ===== src/Terrain/Wal/Replay.antt =====
-- internal/terrain/wal.go: replay of the segments of the write-ahead log. The directory is a map from
-- the numbers of the segments to their bytes. A segment that cannot be opened is an error; reads and
-- cuts within an open file do not fail. `crc` and `decode_all` are as in the frames.
pub mod Segment
pub mod Crash
use time_shade_db.Prelude.{ℕ, zero, suc, ◌+◌, ◌-◌, ltb, leb, ◌==◌, if◌then◌else◌, not, ◌||◌, ◌&&◌}
use time_shade_db.Prelude.{
  Bool, true, false, Option, none, some, List, [], ◌∷◌, ◌++◌, length, take, drop,
}
use time_shade_db.Prelude.Int.{ℤ, ltb_ℤ}
use time_shade_db.Prelude.Maps.{Map, lookup, insert, erase, keys, nat_Eq}
use time_shade_db.Prelude.Words.{get_u32}
use time_shade_db.Memstore.Terrain.{no_horizon}
use time_shade_db.Series.File.{write_at}
use time_shade_db.Terrain.Wal.{WalUpdate, wal_frame_header, wal_max_payload, decode_wal_frame}

-- `walSeg`
pub record WalSeg : Type 0 where
  pub seq : ℕ
  pub max_t : ℤ
  pub size : ℕ

-- What the bytes at a place of a segment begin with: a frame with its updates and its length.
pub data FrameRead : Type 0 where
  torn : FrameRead
  undecodable : FrameRead
  whole : List WalUpdate → ℕ → FrameRead

-- The time of the newest update so far.
abbrev pub newer : ℤ → ℤ → ℤ
newer t m = if ltb_ℤ m t then t else m

unfoldable pub newest : ℤ → List WalUpdate → ℤ
newest m [] = m
newest m (u ∷ us) = newest (newer u.t m) us

-- What the replay of a segment found: whether it ended without an error, the frames that it passed
-- on, where it stopped, and the newest time.
pub record SegReplay : Type 0 where
  pub is_ok : Bool
  pub frames : List (List WalUpdate)
  pub end : ℕ
  pub max_t : ℤ

module _ (decode_all : List ℕ → Option (List ℕ)) (crc : List ℕ → ℕ) where
  -- One round of the loop of `replay` on the bytes from pos on.
  unfoldable pub read_frame : List ℕ → FrameRead
  read_frame p =
      let n = get_u32 p in
      let payload = take n (drop 8 p) in
      if ltb (length p) wal_frame_header || (n == 0 || ltb wal_max_payload n)
      then torn
      else (if ltb (length p) (wal_frame_header + n) || not (crc payload == get_u32 (drop 4 p))
          then torn
          else elim (decode_wal_frame decode_all payload) [
            | none ↦ undecodable
            | some ups ↦ whole ups (wal_frame_header + n)
          ])

  -- The loop of `replay` over a segment; a round takes at least eight bytes.
  unfoldable pub replay_from : ℕ → List ℕ → ℕ → ℤ → SegReplay
  replay_from zero p pos m = record { is_ok = true; frames = []; end = pos; max_t = m }
  replay_from (suc fuel) [] pos m = record { is_ok = true; frames = []; end = pos; max_t = m }
  replay_from (suc fuel) (c ∷ p) pos m = elim (read_frame (c ∷ p)) [
    | torn ↦ record { is_ok = true; frames = []; end = pos; max_t = m }
    | undecodable ↦ record { is_ok = false; frames = []; end = pos; max_t = m }
    | whole ups n ↦
        let rest = replay_from fuel (drop n (c ∷ p)) (pos + n) (newest m ups) in
        record {
          is_ok = rest.is_ok;
          frames = ups ∷ rest.frames;
          end = rest.end;
          max_t = rest.max_t;
        }
  ]

  abbrev pub replay_segment : List ℕ → ℤ → SegReplay
  replay_segment file m = replay_from (length file) file 0 m

  -- The loop of `replay` over the segments: whether it ended without an error, the frames that it
  -- passed on, and the directory and the segments after it.
  unfoldable pub replay :
      Map ℕ (List ℕ) → List WalSeg → Bool × List (List WalUpdate) × Map ℕ (List ℕ) × List WalSeg
  replay files [] = (true, [], files, [])
  replay files (sg ∷ sgs) = elim (lookup sg.seq files) [
    | none ↦ (false, [], files, sg ∷ sgs)
    | some file ↦
        let r = replay_segment file sg.max_t in
        let cut =
          if ltb r.end (length file) then insert sg.seq (take r.end file) files else files in
        let (is_ok, frames, files', sgs') = replay cut sgs in
        if r.is_ok
        then (
          is_ok,
          r.frames ++ frames,
          files',
          record { seq = sg.seq; max_t = r.max_t; size = r.end } ∷ sgs',
        )
        else (
          false,
          r.frames,
          files,
          record { seq = sg.seq; max_t = r.max_t; size = sg.size } ∷ sgs,
        )
  ]
