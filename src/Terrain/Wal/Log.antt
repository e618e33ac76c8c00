-- ===== src/Terrain/Wal/Log.antt =====
-- internal/terrain/wal.go: the operations of the write-ahead log. The directory is a map from the
-- numbers of the segments to their bytes, so that `segName` and its parse are left out. The faults
-- of the file system are arguments: an operation fails where its fault says so, and the cut after a
-- failed write is made.
pub mod Kept
pub mod Append
pub mod Rotate
pub mod Horizon
pub mod Reopen
pub mod Batches
pub mod Listed
pub mod Directory
mod Tests
use time_shade_db.Prelude.{ℕ, zero, suc, ◌+◌, ◌-◌, ltb, leb, ◌==◌, if◌then◌else◌, not, ◌||◌, ◌&&◌}
use time_shade_db.Prelude.{
  Bool, true, false, Option, none, some, List, [], ◌∷◌, ◌++◌, length, take, drop,
}
use time_shade_db.Prelude.Int.{ℤ, ltb_ℤ}
use time_shade_db.Prelude.Maps.{Map, lookup, insert, erase, keys, nat_Eq}
use time_shade_db.Prelude.Words.{get_u32}
use time_shade_db.Memstore.Terrain.{ChunkUpdate, no_horizon}
use time_shade_db.Series.File.{write_at}
use time_shade_db.Terrain.Wal.{wal_frame_updates, put_frame}
use time_shade_db.Terrain.Wal.Replay.{WalSeg, newer}

-- `wal` with its directory; `opened` tells that cur is not nil.
pub record Wal : Type 0 where
  pub no_sync : Bool
  pub files : Map ℕ (List ℕ)
  pub opened : Bool
  pub cur_seq : ℕ
  pub cur_size : ℕ
  pub cur_max_t : ℤ
  pub dirty : Bool
  pub segs : List WalSeg

pub data WalError : Type 0 where
  closed_error : WalError
  io_error : WalError

abbrev pub is_some {ℓ} : {A : Type ℓ} → Option A → Bool
is_some none = false
is_some (some a) = true

-- `openWAL`: the segments in the order of their numbers.
unfoldable pub insert_seg : WalSeg → List WalSeg → List WalSeg
insert_seg s [] = s ∷ []
insert_seg s (x ∷ xs) =
    let rest = insert_seg s xs in if ltb s.seq x.seq then s ∷ x ∷ xs else x ∷ rest

unfoldable pub list_segs : List ℕ → List WalSeg
list_segs [] = []
list_segs (n ∷ ns) = insert_seg (record { seq = n; max_t = no_horizon; size = 0 }) (list_segs ns)

abbrev pub open_wal : Bool → Map ℕ (List ℕ) → Wal
open_wal no_sync files = record {
  no_sync = no_sync;
  files = files;
  opened = false;
  cur_seq = 0;
  cur_size = 0;
  cur_max_t = no_horizon;
  dirty = false;
  segs = list_segs (keys files);
}

-- `openSegLocked`, where opening fails or not.
abbrev pub open_seg : Bool → ℕ → Wal → Option WalError × Wal
open_seg fails seq w = if fails then (some io_error, w) else (
  none,
  record {
    no_sync = w.no_sync;
    files = insert seq [] w.files;
    opened = true;
    cur_seq = seq;
    cur_size = 0;
    cur_max_t = no_horizon;
    dirty = false;
    segs = w.segs;
  },
)

-- The number after that of the last segment.
unfoldable pub next_seq : ℕ → List WalSeg → ℕ
next_seq n [] = n
next_seq n (sg ∷ sgs) = next_seq (suc sg.seq) sgs

-- `start`
abbrev pub start : Bool → Wal → Option WalError × Wal
start fails w = open_seg fails (next_seq 1 w.segs) w

abbrev pub cur_file : Wal → List ℕ
cur_file w = elim (lookup w.cur_seq w.files) [ none ↦ [] | some file ↦ file ]

abbrev pub with_file : List ℕ → Wal → Wal
with_file file w = record {
  no_sync = w.no_sync;
  files = insert w.cur_seq file w.files;
  opened = w.opened;
  cur_seq = w.cur_seq;
  cur_size = w.cur_size;
  cur_max_t = w.cur_max_t;
  dirty = w.dirty;
  segs = w.segs;
}

-- `walBatch` of internal/terrain/store.go: frames of at most 1024 updates. A round takes at least one.
unfoldable pub wal_frames : (List ChunkUpdate → List ℕ) → ℕ → List ChunkUpdate → List ℕ
wal_frames frame zero us = []
wal_frames frame (suc fuel) [] = []
wal_frames frame (suc fuel) (u ∷ us) =
    frame (take wal_frame_updates (u ∷ us))
    ++ wal_frames frame fuel (drop wal_frame_updates (u ∷ us))

unfoldable pub newest_update : ℤ → List ChunkUpdate → ℤ
newest_update m [] = m
newest_update m (u ∷ us) = newest_update (newer u.t m) us

abbrev pub wal_batch : (List ℕ → List ℕ) → (List ℕ → ℕ) → List ChunkUpdate → List ℕ × ℤ
wal_batch encode_all crc us =
    (wal_frames (put_frame encode_all crc) (length us) us, newest_update no_horizon us)

-- `append`; a write can fail after some bytes.
unfoldable pub append : Option ℕ → List ℕ → ℤ → Wal → Option WalError × Wal
append fault frame max_t w = if not w.opened then (some closed_error, w) else elim fault [
  | some k ↦ (
    some io_error,
    with_file (take w.cur_size (write_at w.cur_size (take k frame) (cur_file w))) w,
  )
  | none ↦ (
    none,
    record {
      no_sync = w.no_sync;
      files = insert w.cur_seq (write_at w.cur_size frame (cur_file w)) w.files;
      opened = true;
      cur_seq = w.cur_seq;
      cur_size = w.cur_size + length frame;
      cur_max_t = newer max_t w.cur_max_t;
      dirty = true;
      segs = w.segs;
    },
  )
]

-- `syncLocked`, where the fsync fails or not.
abbrev pub sync : Bool → Wal → Option WalError × Wal
sync fails w = if not w.opened || not w.dirty then (none, w) else (
  if w.no_sync || not fails then none else some io_error,
  record {
    no_sync = w.no_sync;
    files = w.files;
    opened = w.opened;
    cur_seq = w.cur_seq;
    cur_size = w.cur_size;
    cur_max_t = w.cur_max_t;
    dirty = false;
    segs = w.segs;
  },
)

-- `rotate` and `close` meet these faults.
pub record Faults : Type 0 where
  pub sync_fails : Bool
  pub close_fails : Bool
  pub open_fails : Bool
  pub remove_fails : ℕ → Bool

-- The loop of `rotate` that deletes old segments; a file that does not exist counts as deleted.
unfoldable pub delete_old :
    (ℕ → Bool) → ℤ → List WalSeg → Map ℕ (List ℕ) → Bool × List WalSeg × Map ℕ (List ℕ)
delete_old fails horizon [] files = (true, [], files)
delete_old fails horizon (sg ∷ sgs) files =
    let old = ltb_ℤ sg.max_t horizon in
    let removed = old && not (is_some (lookup sg.seq files) && fails sg.seq) in
    let (is_ok, keep, files') =
      delete_old fails horizon sgs (if removed then erase sg.seq files else files) in
    if removed then (is_ok, keep, files') else (is_ok && not old, sg ∷ keep, files')

-- The end of `rotate`.
abbrev pub prune : (ℕ → Bool) → ℤ → Wal → Option WalError × Wal
prune fails horizon w =
    let (is_ok, keep, files) = delete_old fails horizon w.segs w.files in
    (
      if is_ok then none else some io_error,
      record {
        no_sync = w.no_sync;
        files = files;
        opened = w.opened;
        cur_seq = w.cur_seq;
        cur_size = w.cur_size;
        cur_max_t = w.cur_max_t;
        dirty = w.dirty;
        segs = keep;
      },
    )

-- The current segment among the closed ones.
abbrev pub close_seg : Wal → Wal
close_seg w = record {
  no_sync = w.no_sync;
  files = w.files;
  opened = w.opened;
  cur_seq = w.cur_seq;
  cur_size = w.cur_size;
  cur_max_t = w.cur_max_t;
  dirty = w.dirty;
  segs = w.segs ++ (record { seq = w.cur_seq; max_t = w.cur_max_t; size = w.cur_size } ∷ []);
}

abbrev pub without_cur : Wal → Wal
without_cur w = record {
  no_sync = w.no_sync;
  files = w.files;
  opened = false;
  cur_seq = w.cur_seq;
  cur_size = w.cur_size;
  cur_max_t = w.cur_max_t;
  dirty = w.dirty;
  segs = w.segs;
}

-- `rotate`
unfoldable pub rotate : Faults → ℤ → Wal → Option WalError × Wal
rotate faults horizon w =
    let (sync_err, synced) = sync faults.sync_fails w in
    let closed = close_seg synced in
    let (open_err, fresh) = open_seg faults.open_fails (suc w.cur_seq) closed in
    if not w.opened
    then (some closed_error, w)
    else (if w.cur_size == 0
        then prune faults.remove_fails horizon w
        else (if is_some sync_err || faults.close_fails
            then (some io_error, synced)
            else (if is_some open_err
                then (some io_error, without_cur closed)
                else prune faults.remove_fails horizon fresh)))

unfoldable pub sum_sizes : List WalSeg → ℕ
sum_sizes [] = 0
sum_sizes (sg ∷ sgs) = sg.size + sum_sizes sgs

-- `size`
abbrev pub size : Wal → ℕ
size w = w.cur_size + sum_sizes w.segs

-- `close`; the removal of an empty segment is made.
unfoldable pub close : Faults → Wal → Option WalError × Wal
close faults w =
    let (sync_err, synced) = sync faults.sync_fails w in
    if not w.opened then (none, w) else (
      if is_some sync_err || faults.close_fails then some io_error else none,
      record {
        no_sync = w.no_sync;
        files = if w.cur_size == 0 then erase w.cur_seq w.files else w.files;
        opened = false;
        cur_seq = w.cur_seq;
        cur_size = w.cur_size;
        cur_max_t = w.cur_max_t;
        dirty = synced.dirty;
        segs = w.segs;
      },
    )
