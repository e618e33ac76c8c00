-- ===== src/Terrain/Wal/Log/Append.antt =====
-- `append` on every branch, with a write that fails after some bytes.
use time_shade_db.Prelude.{ℕ, ◌+◌, ◌≡◌, refl, sym, ap, ◌∙◌, arith, inl, inr}
use time_shade_db.Prelude.{
  true, false, Option, none, some, List, [], ◌∷◌, ◌++◌, All, length, length-append, take,
  take-append_self, All-append,
}
use time_shade_db.Prelude.Int.{ℤ, ◌≤ℤ◌}
use time_shade_db.Prelude.Maps.{insert, lookup-insert_self, nat_Eq}
use time_shade_db.Memstore.Terrain.{ChunkUpdate}
use time_shade_db.Series.File.{write_at}
use time_shade_db.Series.File.Writing.{write_at-length}
use time_shade_db.Terrain.Wal.Frame.{IsBatch}
use time_shade_db.Terrain.Wal.Replay.{newer}
use time_shade_db.Terrain.Wal.Replay.Segment.{seg_bytes}
use time_shade_db.Terrain.Wal.Log.{Wal, WalError, closed_error, cur_file, append}
use time_shade_db.Terrain.Wal.Log.Kept.{
  IsUpTo, Held, Holds, IsKept, IsSegs-insert, seg_bytes-append,
}

-- The batches of the current segment after an append: the new ones only where it did not fail.
abbrev pub after_append :
    Option WalError → List (List ChunkUpdate) → List (List ChunkUpdate) → List (List ChunkUpdate)
after_append none cur new = cur ++ new
after_append (some e) cur new = cur

module _ (frame : List ChunkUpdate → List ℕ) where
  IsUpTo-later : (m m' : ℤ) (bs : List (List ChunkUpdate)) → m ≤ℤ m' → IsUpTo m bs → IsUpTo m' bs
  IsUpTo-later m m' [] le h = tt
  IsUpTo-later m m' (b ∷ bs) le (h, hs) = (each b h, IsUpTo-later m m' bs le hs)
    where
      each : (us : List ChunkUpdate) → All (λ u. u.t ≤ℤ m) us → All (λ u. u.t ≤ℤ m') us
      each [] k = tt
      each (u ∷ us) (k, ks) = (omega arith, each us ks)

  newer_le : (t m : ℤ) → (t ≤ℤ newer t m) × (m ≤ℤ newer t m)
  newer_le t m = ground arith

  cur_file-Holds :
      (w : Wal) (cur : List (List ChunkUpdate))
      → Holds frame w.files w.cur_seq w.cur_size w.cur_max_t cur
      → cur_file w ≡ seg_bytes frame cur
  cur_file-Holds w cur h = rw (cur_file, h.file_is) refl

  written_file :
      (w : Wal) (cur new : List (List ChunkUpdate))
      → Holds frame w.files w.cur_seq w.cur_size w.cur_max_t cur
      → write_at w.cur_size (seg_bytes frame new) (cur_file w) ≡ seg_bytes frame (cur ++ new)
  written_file w cur new h = rw (cur_file-Holds w cur h) (
      write_at-length w.cur_size (seg_bytes frame new) (seg_bytes frame cur) h.size_is
      ∙ sym (seg_bytes-append frame cur new))

  appended-Holds :
      (w : Wal) (cur new : List (List ChunkUpdate)) (max_t : ℤ)
      → Holds frame w.files w.cur_seq w.cur_size w.cur_max_t cur
      → All IsBatch new
      → IsUpTo max_t new
      → Holds frame
          (insert w.cur_seq (write_at w.cur_size (seg_bytes frame new) (cur_file w)) w.files)
          w.cur_seq
          (w.cur_size + length (seg_bytes frame new))
          (newer max_t w.cur_max_t)
          (cur ++ new)
  appended-Holds w cur new max_t h b u = record {
    file_is = lookup-insert_self w.cur_seq _ w.files ∙ ap some (written_file w cur new h);
    size_is = omega (
      arith,
      h.size_is,
      ap length (seg_bytes-append frame cur new),
      length-append (seg_bytes frame cur) (seg_bytes frame new),
    );
    batches = All-append IsBatch cur new h.batches b;
    up_to =
        All-append (λ b. All (λ u. u.t ≤ℤ newer max_t w.cur_max_t) b) cur new
          (IsUpTo-later w.cur_max_t (newer max_t w.cur_max_t) cur (newer_le max_t w.cur_max_t).1
            h.up_to)
          (IsUpTo-later max_t (newer max_t w.cur_max_t) new (newer_le max_t w.cur_max_t).0 u);
  }

  append_done :
      (w : Wal) (gs : List Held) (cur new : List (List ChunkUpdate)) (max_t : ℤ)
      (k : IsKept frame w gs cur)
      → w.opened ≡ true
      → k.hi ≡ w.cur_seq
      → Holds frame w.files w.cur_seq w.cur_size w.cur_max_t cur
      → All IsBatch new
      → IsUpTo max_t new
      → IsKept frame
          (append none (seg_bytes frame new) max_t w).1
          gs
          (after_append (append none (seg_bytes frame new) max_t w).0 cur new)
  unfolding append
  append_done w gs cur new max_t k o n h b u =
      rw (append, o)
        (record {
          hi = w.cur_seq;
          segs_are = k.segs_are;
          closed_are = IsSegs-insert frame w.files w.cur_seq _ 0 gs (rw (sym n) k.closed_are);
          current_is = inl (refl, (refl, appended-Holds w cur new max_t h b u));
        })

  append_cut :
      (w : Wal) (gs : List Held) (cur new : List (List ChunkUpdate)) (j : ℕ) (max_t : ℤ)
      (k : IsKept frame w gs cur)
      → w.opened ≡ true
      → k.hi ≡ w.cur_seq
      → Holds frame w.files w.cur_seq w.cur_size w.cur_max_t cur
      → IsKept frame
          (append (some j) (seg_bytes frame new) max_t w).1
          gs
          (after_append (append (some j) (seg_bytes frame new) max_t w).0 cur new)
  unfolding append
  append_cut w gs cur new j max_t k o n h =
      rw (append, o)
        (record {
          hi = w.cur_seq;
          segs_are = k.segs_are;
          closed_are = IsSegs-insert frame w.files w.cur_seq _ 0 gs (rw (sym n) k.closed_are);
          current_is = inl (
            refl,
            (
              refl,
              record {
                file_is = lookup-insert_self w.cur_seq _ w.files ∙ ap some back;
                size_is = h.size_is;
                batches = h.batches;
                up_to = h.up_to;
              },
            ),
          );
        })
    where
      old : List ℕ
      old = seg_bytes frame cur

      part : List ℕ
      part = take j (seg_bytes frame new)

      back : take w.cur_size (write_at w.cur_size part (cur_file w)) ≡ old
      back =
          ap (take w.cur_size) (
            ap (write_at w.cur_size part) (cur_file-Holds w cur h)
            ∙ write_at-length w.cur_size part old h.size_is)
          ∙ ap (λ n. take n (old ++ part)) h.size_is
          ∙ take-append_self old part

  pub append_closed :
      (w : Wal) (fault : Option ℕ) (frame : List ℕ) (max_t : ℤ)
      → w.opened ≡ false
      → append fault frame max_t w ≡ (some closed_error, w)
  unfolding append
  append_closed w fault frame max_t o = rw (append, o) refl

  -- For a log whose segments hold batches, new batches of at most 1024 updates each and a time that
  -- none of their updates is after: `append` of their frames keeps the closed segments; the current
  -- segment holds the new batches after the old ones where it succeeds, and holds the old ones alone
  -- where the log is closed or the write fails after any number of bytes.
  pub append-IsKept :
      (w : Wal) (gs : List Held) (cur new : List (List ChunkUpdate)) (fault : Option ℕ) (max_t : ℤ)
      → IsKept frame w gs cur
      → All IsBatch new
      → IsUpTo max_t new
      → IsKept frame
          (append fault (seg_bytes frame new) max_t w).1
          gs
          (after_append (append fault (seg_bytes frame new) max_t w).0 cur new)
  append-IsKept w gs cur new fault max_t k b u = elim k.current_is [
    | inr (c, e) ↦ rw (append_closed w fault (seg_bytes frame new) max_t c) k
    | inl (c, (n, h)) ↦ by_fault fault c n h
  ]
    where
      by_fault :
          (f : Option ℕ)
          → w.opened ≡ true
          → k.hi ≡ w.cur_seq
          → Holds frame w.files w.cur_seq w.cur_size w.cur_max_t cur
          → IsKept frame
              (append f (seg_bytes frame new) max_t w).1
              gs
              (after_append (append f (seg_bytes frame new) max_t w).0 cur new)
      by_fault none c n h = append_done w gs cur new max_t k c n h b u
      by_fault (some j) c n h = append_cut w gs cur new j max_t k c n h
