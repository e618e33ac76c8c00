-- ===== src/Terrain/Wal/Log/Horizon.antt =====
-- `rotate` on every branch, with the faults of the file system.
use time_shade_db.Prelude.{
  ℕ, suc, ◌≡◌, refl, sym, ap, ◌∙◌, ◌==◌, if◌then◌else◌, inl, inr, Bool-cases, not, ◌||◌,
}
use time_shade_db.Prelude.{Bool, true, false, some, List, [], ◌∷◌, ◌++◌, map}
use time_shade_db.Prelude.Int.{ℤ}
use time_shade_db.Memstore.Terrain.{ChunkUpdate}
use time_shade_db.Terrain.Wal.Log.{
  Wal, Faults, prune, close_seg, without_cur, rotate, sync, open_seg, is_some, closed_error,
  io_error,
}
use time_shade_db.Terrain.Wal.Log.Kept.{
  Held, seg_of, Holds, IsSegs, IsKept, sync-IsKept, fresh-IsKept,
}
use time_shade_db.Terrain.Wal.Log.Rotate.{
  Survives-refl, Rotated, contents, prune-Rotated, closed_seg, IsSegs-append, map-append,
  contents-closed, Rotated-then,
}

module _ (frame : List ChunkUpdate → List ℕ) where
  unchanged-Rotated :
      (h : ℤ) (w : Wal) (gs : List Held) (cur : List (List ChunkUpdate))
      → IsKept frame w gs cur
      → Rotated frame h w (contents gs cur)
  unchanged-Rotated h w gs cur k = record {
    closed = gs;
    current = cur;
    kept = k;
    survives = Survives-refl h _;
  }

  -- The next segment opens, or not, and then the old ones are deleted.
  next-Rotated :
      (fails : Bool) (remove_fails : ℕ → Bool) (h : ℤ) (w : Wal) (gs : List Held)
      (cur : List (List ChunkUpdate))
      → w.segs ≡ map seg_of gs
      → IsSegs frame w.files 0 w.cur_seq gs
      → Holds frame w.files w.cur_seq w.cur_size w.cur_max_t cur
      → Rotated frame h
          (if is_some (open_seg fails (suc w.cur_seq) (close_seg w)).0
            then (some io_error, without_cur (close_seg w))
            else prune remove_fails h (open_seg fails (suc w.cur_seq) (close_seg w)).1).1
          (contents gs cur)
  next-Rotated fails remove_fails h w gs cur e closed current = by_open fails
    where
      gs' : List Held
      gs' = gs ++ ((closed_seg w, cur) ∷ [])

      segs_are : (close_seg w).segs ≡ map seg_of gs'
      segs_are =
          ap (λ t. t ++ (closed_seg w ∷ [])) e ∙ sym (map-append seg_of gs (closed_seg w, cur))

      closed_are : IsSegs frame w.files 0 (suc w.cur_seq) gs'
      closed_are = IsSegs-append frame w.files 0 gs (closed_seg w) cur current closed

      by_open :
          (b : Bool)
          → Rotated frame h
              (if is_some (open_seg b (suc w.cur_seq) (close_seg w)).0
                then (some io_error, without_cur (close_seg w))
                else prune remove_fails h (open_seg b (suc w.cur_seq) (close_seg w)).1).1
              (contents gs cur)
      by_open true = record {
        closed = gs';
        current = [];
        kept = record {
          hi = suc w.cur_seq;
          segs_are = segs_are;
          closed_are = closed_are;
          current_is = inr (refl, refl);
        };
        survives = contents-closed h gs (closed_seg w) cur;
      }
      by_open false = Rotated-then frame h _ _ _ (contents-closed h gs (closed_seg w) cur) (
          prune-Rotated frame remove_fails h _ gs' []
            (fresh-IsKept frame (suc w.cur_seq) (close_seg w) gs' segs_are closed_are))

  pub rotate_closed :
      (faults : Faults) (h : ℤ) (w : Wal)
      → w.opened ≡ false
      → rotate faults h w ≡ (some closed_error, w)
  unfolding rotate
  rotate_closed faults h w o = rw (rotate, o) refl

  -- `rotate` of an open log, over the log that `sync` leaves.
  pub rotate_open :
      (faults : Faults) (h : ℤ) (w : Wal)
      → w.opened ≡ true
      → rotate faults h w ≡ (
          if w.cur_size == 0
          then prune faults.remove_fails h w
          else (if is_some (sync faults.sync_fails w).0 || faults.close_fails
              then (some io_error, (sync faults.sync_fails w).1)
              else (if is_some
                    (open_seg faults.open_fails
                      (suc w.cur_seq)
                      (close_seg (sync faults.sync_fails w).1)).0
                  then (some io_error, without_cur (close_seg (sync faults.sync_fails w).1))
                  else prune faults.remove_fails h
                      (open_seg faults.open_fails
                        (suc w.cur_seq)
                        (close_seg (sync faults.sync_fails w).1)).1)))
  unfolding rotate
  rotate_open faults h w o = rw (rotate, o) refl

  pub sync_keeps :
      (fails : Bool) (w : Wal)
      → w.opened ≡ true
      → ((sync fails w).1.cur_seq ≡ w.cur_seq) × ((sync fails w).1.opened ≡ true)
  sync_keeps fails w o = elim (Bool-cases (not w.opened || not w.dirty)) [
    | inl c ↦ rw (c) (refl, o)
    | inr c ↦ rw (c) (refl, o)
  ]

  -- The segment is synced and closed.
  closing-Rotated :
      (faults : Faults) (h : ℤ) (w s : Wal) (failed : Bool) (gs : List Held)
      (cur : List (List ChunkUpdate))
      → s.opened ≡ true
      → s.cur_seq ≡ w.cur_seq
      → IsKept frame s gs cur
      → Rotated frame h
          (if failed
            then (some io_error, s)
            else (if is_some (open_seg faults.open_fails (suc w.cur_seq) (close_seg s)).0
                then (some io_error, without_cur (close_seg s))
                else prune faults.remove_fails h
                    (open_seg faults.open_fails (suc w.cur_seq) (close_seg s)).1)).1
          (contents gs cur)
  closing-Rotated faults h w s true gs cur o e k = unchanged-Rotated h s gs cur k
  closing-Rotated faults h w s false gs cur o e k = elim k.current_is [
    | inr (c, d) ↦ absurd (true_false (sym o ∙ c))
    | inl (c, (n, held)) ↦ rw (sym e) (
        next-Rotated faults.open_fails faults.remove_fails h s gs cur k.segs_are
          (rw (sym n) k.closed_are) held)
  ]
    where
      true_false : true ≡ false → ⊥
      true_false p = cc

  -- For a log whose segments hold batches, any horizon and any faults of fsync, close, open and
  -- remove: after `rotate` the segments of the log, the current one included, are those before it in
  -- the same order with the batches that they held, less some whose updates are all older than the
  -- horizon, and with empty ones where a segment was opened.
  pub rotate-Rotated :
      (faults : Faults) (h : ℤ) (w : Wal) (gs : List Held) (cur : List (List ChunkUpdate))
      → IsKept frame w gs cur
      → Rotated frame h (rotate faults h w).1 (contents gs cur)
  rotate-Rotated faults h w gs cur k = elim (Bool-cases w.opened) [
    | inr o ↦ rw (rotate_closed faults h w o) (unchanged-Rotated h w gs cur k)
    | inl o ↦ rw (rotate_open faults h w o) (elim (Bool-cases (w.cur_size == 0)) [
      | inl c ↦ rw (c) (prune-Rotated frame faults.remove_fails h w gs cur k)
      | inr c ↦ rw (c) (
          closing-Rotated faults h w (sync faults.sync_fails w).1 _ gs cur
            (sync_keeps faults.sync_fails w o).1 (sync_keeps faults.sync_fails w o).0
            (sync-IsKept frame faults.sync_fails w gs cur k))
    ])
  ]
