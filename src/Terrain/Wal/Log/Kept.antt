-- ===== src/Terrain/Wal/Log/Kept.antt =====
-- The invariant of the write-ahead log: what each segment holds. Starting and syncing keep it.
use time_shade_db.Prelude.{
  ℕ, suc, ◌≤◌, ◌<◌, ◌≡◌, refl, sym, ap, ◌∙◌, arith, ◌==◌, inl, inr, ◌⊎◌, Bool-cases, not, ◌||◌,
}
use time_shade_db.Prelude.{
  Bool, true, false, some, List, [], ◌∷◌, ◌++◌, All, map, length, append_assoc,
}
use time_shade_db.Prelude.Int.{ℤ, ◌≤ℤ◌}
use time_shade_db.Prelude.Maps.{Map, lookup, insert, lookup-insert_self, lookup-insert_ne, nat_Eq}
use time_shade_db.Memstore.Terrain.{ChunkUpdate}
use time_shade_db.Terrain.Wal.Frame.{IsBatch}
use time_shade_db.Terrain.Wal.Replay.{WalSeg}
use time_shade_db.Terrain.Wal.Replay.Segment.{seg_bytes}
use time_shade_db.Terrain.Wal.Log.{Wal, open_seg, next_seq, start, sync}

-- No update of the batches is newer than a time.
abbrev pub IsUpTo : ℤ → List (List ChunkUpdate) → Type 0
IsUpTo m bs = All (λ b. All (λ u. u.t ≤ℤ m) b) bs

-- A closed segment and the batches that it holds.
abbrev pub Held : Type 0
Held = WalSeg × List (List ChunkUpdate)

abbrev pub seg_of : Held → WalSeg
seg_of (sg, bs) = sg

module _ (frame : List ChunkUpdate → List ℕ) where
  -- A file holds batches.
  pub record Holds (files : Map ℕ (List ℕ)) (seq size : ℕ) (max_t : ℤ)
      (bs : List (List ChunkUpdate)) : Type 0 where
    pub file_is : lookup seq files ≡ some (seg_bytes frame bs)
    pub size_is : size ≡ length (seg_bytes frame bs)
    pub batches : All IsBatch bs
    pub up_to : IsUpTo max_t bs

  -- The closed segments, with numbers that rise from lo and stay below hi.
  abbrev pub IsSegs : Map ℕ (List ℕ) → ℕ → ℕ → List Held → Type 0
  IsSegs files lo hi [] = lo ≤ hi
  IsSegs files lo hi ((sg, bs) ∷ gs) =
      (lo ≤ sg.seq) × Holds files sg.seq sg.size sg.max_t bs × IsSegs files (suc sg.seq) hi gs

  -- The current segment, if one is open.
  abbrev pub IsCurrent : Wal → ℕ → List (List ChunkUpdate) → Type 0
  IsCurrent w hi cur =
      ((w.opened ≡ true) × ((hi ≡ w.cur_seq) × Holds w.files w.cur_seq w.cur_size w.cur_max_t cur))
      ⊎ ((w.opened ≡ false) × (cur ≡ []))

  -- The log holds the batches of the closed segments and of the current one.
  pub record IsKept (w : Wal) (gs : List Held) (cur : List (List ChunkUpdate)) : Type 0 where
    pub hi : ℕ
    pub segs_are : w.segs ≡ map seg_of gs
    pub closed_are : IsSegs w.files 0 hi gs
    pub current_is : IsCurrent w hi cur

  pub Holds-files :
      (files files' : Map ℕ (List ℕ)) (seq size : ℕ) (max_t : ℤ) (bs : List (List ChunkUpdate))
      → lookup seq files' ≡ lookup seq files
      → Holds files seq size max_t bs
      → Holds files' seq size max_t bs
  Holds-files files files' seq size max_t bs e h = record {
    file_is = e ∙ h.file_is;
    size_is = h.size_is;
    batches = h.batches;
    up_to = h.up_to;
  }

  pub segs_end :
      (files : Map ℕ (List ℕ)) (lo hi : ℕ) (gs : List Held) → IsSegs files lo hi gs → lo ≤ hi
  segs_end files lo hi [] h = h
  segs_end files lo hi ((sg, bs) ∷ gs) (l, h, hs) =
      omega (arith, segs_end files (suc sg.seq) hi gs hs)

  -- Only the files of the segments matter.
  pub IsSegs-files :
      (files files' : Map ℕ (List ℕ)) (lo hi : ℕ) (gs : List Held)
      → ((k : ℕ) → lo ≤ k → k < hi → lookup k files' ≡ lookup k files)
      → IsSegs files lo hi gs
      → IsSegs files' lo hi gs
  IsSegs-files files files' lo hi [] e h = h
  IsSegs-files files files' lo hi ((sg, bs) ∷ gs) e (l, h, hs) = (
    l,
    Holds-files files files' sg.seq sg.size sg.max_t bs
        (e sg.seq l (segs_end files (suc sg.seq) hi gs hs)) h,
    IsSegs-files files files' (suc sg.seq) hi gs (λ k a b. e k (omega arith) b) hs,
  )

  pub seg_bytes-append :
      (xs bs : List (List ChunkUpdate))
      → seg_bytes frame (xs ++ bs) ≡ seg_bytes frame xs ++ seg_bytes frame bs
  unfolding seg_bytes
  seg_bytes-append [] bs = refl
  seg_bytes-append (a ∷ xs) bs =
      ap (λ t. frame a ++ t) (seg_bytes-append xs bs) ∙ sym (append_assoc (frame a) _ _)

  -- The closed segments stay when the current file changes.
  pub IsSegs-insert :
      (files : Map ℕ (List ℕ)) (seq : ℕ) (file : List ℕ) (lo : ℕ) (gs : List Held)
      → IsSegs files lo seq gs
      → IsSegs (insert seq file files) lo seq gs
  IsSegs-insert files seq file lo gs h =
      IsSegs-files files (insert seq file files) lo seq gs
        (λ k a b. lookup-insert_ne k seq file files (other k b)) h
    where
      other : (k : ℕ) → k < seq → (seq == k) ≡ false
      other k b = ground arith

  -- Syncing changes no file.
  pub sync-IsKept :
      (fails : Bool) (w : Wal) (gs : List Held) (cur : List (List ChunkUpdate))
      → IsKept w gs cur
      → IsKept (sync fails w).1 gs cur
  sync-IsKept fails w gs cur k = elim (Bool-cases (not w.opened || not w.dirty)) [
    | inl c ↦ rw (c) k
    | inr c ↦ rw (c) (record {
      hi = k.hi;
      segs_are = k.segs_are;
      closed_are = k.closed_are;
      current_is = k.current_is;
    })
  ]

  -- The number of a new segment is after those of the others.
  pub next_seq-IsSegs :
      (files : Map ℕ (List ℕ)) (lo hi n : ℕ) (gs : List Held)
      → lo ≤ n
      → IsSegs files lo hi gs
      → IsSegs files lo (next_seq n (map seg_of gs)) gs
  unfolding next_seq
  next_seq-IsSegs files lo hi n [] le h = le
  next_seq-IsSegs files lo hi n ((sg, bs) ∷ gs) le (l, h, hs) =
      (l, h, next_seq-IsSegs files (suc sg.seq) hi (suc sg.seq) gs (omega arith) hs)

  -- A new segment is empty.
  pub fresh-IsKept :
      (seq : ℕ) (w : Wal) (gs : List Held)
      → w.segs ≡ map seg_of gs
      → IsSegs w.files 0 seq gs
      → IsKept (open_seg false seq w).1 gs []
  unfolding seg_bytes
  fresh-IsKept seq w gs e h = record {
    hi = seq;
    segs_are = e;
    closed_are = IsSegs-insert w.files seq [] 0 gs h;
    current_is = inl (
      refl,
      (
        refl,
        record {
          file_is = lookup-insert_self seq [] w.files;
          size_is = refl;
          batches = tt;
          up_to = tt;
        },
      ),
    );
  }

  open_seg-IsKept :
      (fails : Bool) (seq : ℕ) (w : Wal) (gs : List Held)
      → w.opened ≡ false
      → w.segs ≡ map seg_of gs
      → IsSegs w.files 0 seq gs
      → IsKept (open_seg fails seq w).1 gs []
  open_seg-IsKept true seq w gs o e h = record {
    hi = seq;
    segs_are = e;
    closed_are = h;
    current_is = inr (o, refl);
  }
  open_seg-IsKept false seq w gs o e h = fresh-IsKept seq w gs e h

  pub start-IsKept :
      (fails : Bool) (w : Wal) (gs : List Held)
      → w.opened ≡ false
      → IsKept w gs []
      → IsKept (start fails w).1 gs []
  start-IsKept fails w gs o k =
      open_seg-IsKept fails (next_seq 1 w.segs) w gs o k.segs_are
        (rw (k.segs_are) (next_seq-IsSegs w.files 0 k.hi 1 gs (omega arith) k.closed_are))
