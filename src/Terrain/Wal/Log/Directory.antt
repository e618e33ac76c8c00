-- ===== src/Terrain/Wal/Log/Directory.antt =====
-- `openWAL` and replay of the directory of a log after a crash.
use time_shade_db.Prelude.{
  ℕ, suc, ◌≡◌, refl, sym, ap, ◌∙◌, arith, ◌==◌, lt→ltb, if◌then◌else◌, inl, inr, Bool-cases, subst,
}
use time_shade_db.Prelude.{
  Bool, true, false, Option, some, List, [], ◌∷◌, ◌++◌, map, append-nil, take,
}
use time_shade_db.Prelude.Int.{ℤ}
use time_shade_db.Prelude.Maps.{Map, insert, keys, nat_Eq}
use time_shade_db.Memstore.Terrain.{ChunkUpdate}
use time_shade_db.Terrain.Wal.{put_frame}
use time_shade_db.Terrain.Wal.Frame.{IsPacking}
use time_shade_db.Terrain.Wal.Replay.Segment.{seg_bytes, fits}
use time_shade_db.Terrain.Wal.Log.{
  Wal, Faults, sync, rotate, start, open_seg, close_seg, without_cur, prune, is_some, io_error,
  next_seq, insert_seg, list_segs, open_wal,
}
use time_shade_db.Terrain.Wal.Log.Kept.{
  Held, seg_of, IsSegs, IsKept, sync-IsKept, fresh-IsKept, next_seq-IsSegs,
}
use time_shade_db.Terrain.Wal.Log.Horizon.{rotate_closed, rotate_open, sync_keeps}
use time_shade_db.Terrain.Wal.Log.Rotate.{closed_seg, IsSegs-append, map-append}
use time_shade_db.Terrain.Wal.Log.Reopen.{
  listed, listed_held, held_batches, all_batches, Replays, crash-Replays,
}
use time_shade_db.Terrain.Wal.Log.Listed.{
  keys-insert_known, seqs, IsListed, Below, seqs-Below, prune-IsListed, sync-IsListed,
  fresh-IsListed, close_seg-keys,
}

module _ (frame : List ChunkUpdate → List ℕ) where
  closing-IsListed :
      (faults : Faults) (h : ℤ) (w s : Wal) (failed : Bool) (gs : List Held)
      (cur : List (List ChunkUpdate))
      → s.opened ≡ true
      → s.cur_seq ≡ w.cur_seq
      → IsKept frame s gs cur
      → IsListed s
      → IsListed
          (if failed
            then (some io_error, s)
            else (if is_some (open_seg faults.open_fails (suc w.cur_seq) (close_seg s)).0
                then (some io_error, without_cur (close_seg s))
                else prune faults.remove_fails h
                    (open_seg faults.open_fails (suc w.cur_seq) (close_seg s)).1)).1
  closing-IsListed faults h w s true gs cur o e k l = l
  closing-IsListed faults h w s false gs cur o e k l = elim k.current_is [
    | inr (c, d) ↦ absurd (true_false (sym o ∙ c))
    | inl (c, (n, held)) ↦ rw (sym e) (
        by_open faults.open_fails
          (IsSegs-append frame s.files 0 gs (closed_seg s) cur held (rw (sym n) k.closed_are)))
  ]
    where
      true_false : true ≡ false → ⊥
      true_false p = cc

      gs' : List Held
      gs' = gs ++ ((closed_seg s, cur) ∷ [])

      segs_are : (close_seg s).segs ≡ map seg_of gs'
      segs_are =
          ap (λ t. t ++ (closed_seg s ∷ [])) k.segs_are
          ∙ sym (map-append seg_of gs (closed_seg s, cur))

      by_open :
          (b : Bool)
          → IsSegs frame s.files 0 (suc s.cur_seq) gs'
          → IsListed
              (if is_some (open_seg b (suc s.cur_seq) (close_seg s)).0
                then (some io_error, without_cur (close_seg s))
                else prune faults.remove_fails h (open_seg b (suc s.cur_seq) (close_seg s)).1).1
      by_open true g = close_seg-keys frame s o l ∙ sym (append-nil (seqs (close_seg s).segs))
      by_open false g =
          prune-IsListed frame faults.remove_fails h
            (open_seg false (suc s.cur_seq) (close_seg s)).1 gs' []
            (fresh-IsKept frame (suc s.cur_seq) (close_seg s) gs' segs_are g)
            (fresh-IsListed frame (suc s.cur_seq) (close_seg s) (close_seg-keys frame s o l) (
              subst (λ segs. Below (suc s.cur_seq) (seqs segs)) (sym segs_are)
                (seqs-Below frame s.files 0 (suc s.cur_seq) gs' g)))

  pub rotate-IsListed :
      (faults : Faults) (h : ℤ) (w : Wal) (gs : List Held) (cur : List (List ChunkUpdate))
      → IsKept frame w gs cur
      → IsListed w
      → IsListed (rotate faults h w).1
  rotate-IsListed faults h w gs cur k l = elim (Bool-cases w.opened) [
    | inr o ↦ subst IsListed (ap (λ r. r.1) (sym (rotate_closed frame faults h w o))) l
    | inl o ↦
        subst IsListed (ap (λ r. r.1) (sym (rotate_open frame faults h w o)))
          (elim (Bool-cases (w.cur_size == 0)) [
            | inl c ↦ rw (c) (prune-IsListed frame faults.remove_fails h w gs cur k l)
            | inr c ↦ rw (c) (
                closing-IsListed faults h w (sync faults.sync_fails w).1 _ gs cur
                  (sync_keeps frame faults.sync_fails w o).1
                  (sync_keeps frame faults.sync_fails w o).0
                  (sync-IsKept frame faults.sync_fails w gs cur k)
                  (sync-IsListed frame faults.sync_fails w l))
          ])
  ]

  -- The first segment of a log has the only open file.
  pub start-IsListed :
      (fails : Bool) (w : Wal) (gs : List Held)
      → w.opened ≡ false
      → IsKept frame w gs []
      → IsListed w
      → IsListed (start fails w).1
  start-IsListed true w gs o k l = l
  start-IsListed false w gs o k l =
      fresh-IsListed frame (next_seq 1 w.segs) w
        (l
          ∙ ap (λ (b : Bool). seqs w.segs ++ (if b then w.cur_seq ∷ [] else [])) o
          ∙ append-nil (seqs w.segs))
        (subst (λ segs. Below (next_seq 1 segs) (seqs segs)) (sym k.segs_are)
          (seqs-Below frame w.files 0 (next_seq 1 (map seg_of gs)) gs
            (next_seq-IsSegs frame w.files 0 k.hi 1 gs (omega arith) k.closed_are)))

  -- The numbers of the segments rise, so that `openWAL` keeps their order.
  list_segs-held :
      (files : Map ℕ (List ℕ)) (lo last : ℕ) (gs : List Held)
      → IsSegs frame files lo last gs
      → list_segs (seqs (map seg_of gs) ++ (last ∷ [])) ≡ map listed_held gs ++ (listed last ∷ [])
  unfolding list_segs insert_seg
  list_segs-held files lo last [] h = refl
  list_segs-held files lo last ((sg, bs) ∷ gs) (l, c, hs) =
      ap (insert_seg (listed sg.seq)) (list_segs-held files (suc sg.seq) last gs hs)
      ∙ in_front gs hs
    where
      in_front :
          (xs : List Held)
          → IsSegs frame files (suc sg.seq) last xs
          → insert_seg (listed sg.seq) (map listed_held xs ++ (listed last ∷ []))
            ≡ listed sg.seq ∷ (map listed_held xs ++ (listed last ∷ []))
      in_front [] h = rw (insert_seg, lt→ltb sg.seq last (omega arith)) refl
      in_front ((sg', bs') ∷ xs) (l', h, h') =
          rw (insert_seg, lt→ltb sg.seq sg'.seq (omega arith)) refl

module _ (encode_all : List ℕ → List ℕ) (decode_all : List ℕ → Option (List ℕ)) (crc : List ℕ → ℕ)
    (z : IsPacking encode_all decode_all crc) where
  -- For an open log whose segments hold batches and whose directory has their files and no others, when
  -- a crash leaves any first bytes of the file of the current segment: `openWAL` and `replay` of the
  -- directory end without an error, pass on all the batches of the closed segments and then those
  -- of the current one whose frames stand whole in these bytes, in order, and leave the current file
  -- with exactly these frames.
  pub open_wal-Replays :
      (w : Wal) (gs : List Held) (cur : List (List ChunkUpdate)) (k : ℕ) (no_sync : Bool)
      → IsKept (put_frame encode_all crc) w gs cur
      → w.opened ≡ true
      → IsListed w
      → Replays encode_all decode_all crc z
          (insert w.cur_seq (take k (seg_bytes (put_frame encode_all crc) cur)) w.files)
          (open_wal no_sync
            (insert w.cur_seq (take k (seg_bytes (put_frame encode_all crc) cur)) w.files)).segs
          (all_batches (map held_batches gs) ++ fits (put_frame encode_all crc) k cur)
          w.cur_seq
          (seg_bytes (put_frame encode_all crc) (fits (put_frame encode_all crc) k cur))
  open_wal-Replays w gs cur k no_sync kept o l = elim kept.current_is [
    | inr (c, d) ↦ absurd (true_false (sym o ∙ c))
    | inl (c, (n, h)) ↦
        subst
          (λ sgs.
            Replays encode_all decode_all crc z files sgs
              (all_batches (map held_batches gs) ++ fits (put_frame encode_all crc) k cur) w.cur_seq
              (seg_bytes (put_frame encode_all crc) (fits (put_frame encode_all crc) k cur)))
          (sym (
            ap list_segs (keys-insert_known w.cur_seq _ _ w.files h.file_is ∙ names)
            ∙ list_segs-held (put_frame encode_all crc) w.files 0 w.cur_seq gs
                (rw (sym n) kept.closed_are)))
          (crash-Replays encode_all decode_all crc z w gs cur k kept o)
  ]
    where
      files : Map ℕ (List ℕ)
      files = insert w.cur_seq (take k (seg_bytes (put_frame encode_all crc) cur)) w.files

      names : keys w.files ≡ seqs (map seg_of gs) ++ (w.cur_seq ∷ [])
      names =
          l
          ∙ ap (λ (b : Bool). seqs w.segs ++ (if b then w.cur_seq ∷ [] else [])) o
          ∙ ap (λ sgs. seqs sgs ++ (w.cur_seq ∷ [])) kept.segs_are

      true_false : true ≡ false → ⊥
      true_false p = cc
