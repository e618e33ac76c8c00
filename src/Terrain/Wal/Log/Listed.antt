-- ===== src/Terrain/Wal/Log/Listed.antt =====
-- The files of a log are those of its segments, in the order of their numbers, so that `openWAL` lists
-- the segments.
use time_shade_db.Prelude.{
  ℕ, suc, ◌≤◌, ◌<◌, ◌≡◌, refl, sym, ap, ◌∙◌, arith, ◌==◌, if◌then◌else◌, inl, inr, Bool-cases,
  subst, not, ◌&&◌, ◌||◌,
}
use time_shade_db.Prelude.{
  Bool, true, false, Option, none, some, List, [], ◌∷◌, ◌++◌, All, All-append, map, append_assoc,
}
use time_shade_db.Prelude.Int.{ℤ, ltb_ℤ}
use time_shade_db.Prelude.Maps.{Map, lookup, insert, erase, keys, nat_Eq}
use time_shade_db.Memstore.Terrain.{ChunkUpdate}
use time_shade_db.Terrain.Wal.Replay.{WalSeg}
use time_shade_db.Terrain.Wal.Replay.Segment.{seg_bytes}
use time_shade_db.Terrain.Wal.Log.{
  Wal, append, sync, open_seg, close_seg, prune, delete_old, is_some,
}
use time_shade_db.Terrain.Wal.Log.Kept.{Held, seg_of, IsSegs, IsKept, segs_end}
use time_shade_db.Terrain.Wal.Log.Append.{append_closed}
use time_shade_db.Terrain.Wal.Log.Rotate.{closed_seg}

module _ {V : Type 0} where
  pub keys-insert_known :
      (k : ℕ) (v x : V) (m : Map ℕ V) → lookup k m ≡ some v → keys (insert k x m) ≡ keys m
  unfolding keys insert lookup
  keys-insert_known k v x [] h = cc
  keys-insert_known k v x ((j, w) ∷ m) h = elim (Bool-cases (j == k)) [
    | inl s ↦ rw (s) refl
    | inr s ↦ rw (s) (ap (λ t. j ∷ t) (keys-insert_known k v x m (rw (s) at h)))
  ]

  pub keys-insert_new :
      (k : ℕ) (x : V) (m : Map ℕ V)
      → All (λ j. (j == k) ≡ false) (keys m)
      → keys (insert k x m) ≡ keys m ++ (k ∷ [])
  unfolding keys insert
  keys-insert_new k x [] h = refl
  keys-insert_new k x ((j, w) ∷ m) (h, hs) = rw (h) (ap (λ t. j ∷ t) (keys-insert_new k x m hs))

  -- Erasing the key between others leaves them.
  keys-erase_none :
      (k : ℕ) (m : Map ℕ V) → All (λ j. (j == k) ≡ false) (keys m) → keys (erase k m) ≡ keys m
  unfolding keys erase
  keys-erase_none k [] h = refl
  keys-erase_none k ((j, w) ∷ m) (h, hs) = rw (h) (ap (λ t. j ∷ t) (keys-erase_none k m hs))

unfoldable without : ℕ → List ℕ → List ℕ
without k [] = []
without k (j ∷ js) = let rest = without k js in if j == k then rest else j ∷ rest

keys-erase : {V : Type 0} (k : ℕ) (m : Map ℕ V) → keys (erase k m) ≡ without k (keys m)
unfolding keys erase without
keys-erase k [] = refl
keys-erase k ((j, w) ∷ m) = elim (Bool-cases (j == k)) [
  | inl s ↦ rw (s) (keys-erase k m)
  | inr s ↦ rw (s) (ap (λ t. j ∷ t) (keys-erase k m))
]

without_other : (k : ℕ) (js : List ℕ) → All (λ j. (j == k) ≡ false) js → without k js ≡ js
unfolding without
without_other k [] h = refl
without_other k (j ∷ js) (h, hs) = rw (h) (ap (λ t. j ∷ t) (without_other k js hs))

-- The key stands between others.
without_between :
    (k : ℕ) (pre post : List ℕ)
    → All (λ j. (j == k) ≡ false) pre
    → All (λ j. (j == k) ≡ false) post
    → without k (pre ++ (k ∷ post)) ≡ pre ++ post
unfolding without
without_between k [] post h g = rw (same) (without_other k post g)
  where
    same : (k == k) ≡ true
    same = ground arith
without_between k (j ∷ pre) post (h, hs) g =
    rw (h) (ap (λ t. j ∷ t) (without_between k pre post hs g))

-- Numbers below a bound, or from one on.
abbrev pub Below : ℕ → List ℕ → Type 0
Below n js = All (λ j. j < n) js

abbrev From : ℕ → List ℕ → Type 0
From n js = All (λ j. n ≤ j) js

Below-not : (n : ℕ) (js : List ℕ) → Below n js → All (λ j. (j == n) ≡ false) js
Below-not n [] h = tt
Below-not n (j ∷ js) (h, hs) = (ground arith, Below-not n js hs)

Below-later : (n m : ℕ) (js : List ℕ) → n ≤ m → Below n js → Below m js
Below-later n m [] le h = tt
Below-later n m (j ∷ js) le (h, hs) = (omega arith, Below-later n m js le hs)

From-not : (n m : ℕ) (js : List ℕ) → n < m → From m js → All (λ j. (j == n) ≡ false) js
From-not n m [] lt h = tt
From-not n m (j ∷ js) lt (h, hs) = (ground arith, From-not n m js lt hs)

From-earlier : (n m : ℕ) (js : List ℕ) → n ≤ m → From m js → From n js
From-earlier n m [] le h = tt
From-earlier n m (j ∷ js) le (h, hs) = (omega arith, From-earlier n m js le hs)

abbrev pub seqs : List WalSeg → List ℕ
seqs sgs = map (λ sg. sg.seq) sgs

abbrev pub current_seq : Wal → List ℕ
current_seq w = if w.opened then w.cur_seq ∷ [] else []

-- The files of the directory are those of the segments and of the current one.
abbrev pub IsListed : Wal → Type 0
IsListed w = keys w.files ≡ seqs w.segs ++ current_seq w

seqs-append : (xs : List WalSeg) (y : WalSeg) → seqs (xs ++ (y ∷ [])) ≡ seqs xs ++ (y.seq ∷ [])
seqs-append [] y = refl
seqs-append (x ∷ xs) y = ap (λ t. x.seq ∷ t) (seqs-append xs y)

module _ (frame : List ChunkUpdate → List ℕ) where
  pub seqs-From :
      (files : Map ℕ (List ℕ)) (lo hi : ℕ) (gs : List Held)
      → IsSegs frame files lo hi gs
      → From lo (seqs (map seg_of gs))
  seqs-From files lo hi [] h = tt
  seqs-From files lo hi ((sg, bs) ∷ gs) (l, h, hs) =
      (l, From-earlier lo (suc sg.seq) _ (omega arith) (seqs-From files (suc sg.seq) hi gs hs))

  pub seqs-Below :
      (files : Map ℕ (List ℕ)) (lo hi : ℕ) (gs : List Held)
      → IsSegs frame files lo hi gs
      → Below hi (seqs (map seg_of gs))
  seqs-Below files lo hi [] h = tt
  seqs-Below files lo hi ((sg, bs) ∷ gs) (l, h, hs) = (
    omega (arith, segs_end frame files (suc sg.seq) hi gs hs),
    seqs-Below files (suc sg.seq) hi gs hs,
  )

  -- The loop that deletes removes the files that it removes from the list.
  delete_old-keys :
      (fails : ℕ → Bool) (h : ℤ) (gs : List Held) (files files' : Map ℕ (List ℕ)) (lo hi : ℕ)
      (pre post : List ℕ)
      → IsSegs frame files lo hi gs
      → Below lo pre
      → From hi post
      → keys files' ≡ pre ++ (seqs (map seg_of gs) ++ post)
      → keys (delete_old fails h (map seg_of gs) files').2
        ≡ pre ++ (seqs (delete_old fails h (map seg_of gs) files').1 ++ post)
  unfolding delete_old
  delete_old-keys fails h [] files files' lo hi pre post s b f e = e
  delete_old-keys fails h ((sg, bs) ∷ gs) files files' lo hi pre post (l, c, hs) b f e =
      elim (Bool-cases (ltb_ℤ sg.max_t h && not (is_some (lookup sg.seq files') && fails sg.seq))) [
        | inl r ↦ rw (r) (
            delete_old-keys fails h gs files (erase sg.seq files') (suc sg.seq) hi pre post hs
              (Below-later lo (suc sg.seq) pre (omega arith) b) f gone)
        | inr r ↦ rw (r) (
            delete_old-keys fails h gs files files' (suc sg.seq) hi (pre ++ (sg.seq ∷ [])) post hs
              (All-append (λ j. j < suc sg.seq) pre (sg.seq ∷ [])
                (Below-later lo (suc sg.seq) pre (omega arith) b) (omega arith, tt))
              f (e ∙ sym (append_assoc pre (sg.seq ∷ []) (seqs (map seg_of gs) ++ post)))
            ∙ append_assoc pre (sg.seq ∷ []) _)
      ]
    where
      gone : keys (erase sg.seq files') ≡ pre ++ (seqs (map seg_of gs) ++ post)
      gone =
          keys-erase sg.seq files'
          ∙ ap (without sg.seq) e
          ∙ without_between sg.seq pre (seqs (map seg_of gs) ++ post)
              (Below-not sg.seq pre (Below-later lo sg.seq pre l b))
              (All-append (λ j. (j == sg.seq) ≡ false) (seqs (map seg_of gs)) post
                (From-not sg.seq (suc sg.seq) _ (omega arith)
                  (seqs-From files (suc sg.seq) hi gs hs))
                (From-not sg.seq hi post (omega (arith, segs_end frame files (suc sg.seq) hi gs hs))
                  f))

  current_seq-From :
      (w : Wal) (gs : List Held) (cur : List (List ChunkUpdate)) (k : IsKept frame w gs cur)
      → From k.hi (current_seq w)
  current_seq-From w gs cur k = elim k.current_is [
    | inl (o, (n, c)) ↦ rw (o) (omega (arith, n), tt)
    | inr (o, e) ↦ rw (o) tt
  ]

  pub prune-IsListed :
      (fails : ℕ → Bool) (h : ℤ) (w : Wal) (gs : List Held) (cur : List (List ChunkUpdate))
      → IsKept frame w gs cur
      → IsListed w
      → IsListed (prune fails h w).1
  prune-IsListed fails h w gs cur k e =
      subst
        (λ segs.
          keys w.files ≡ seqs segs ++ current_seq w
          → keys (delete_old fails h segs w.files).2
            ≡ seqs (delete_old fails h segs w.files).1 ++ current_seq w)
        (sym k.segs_are)
        (λ e'.
          delete_old-keys fails h gs w.files w.files 0 k.hi [] (current_seq w) k.closed_are tt
            (current_seq-From w gs cur k) e')
        e

  -- A write to the current file changes no name.
  pub append-IsListed :
      (fault : Option ℕ) (bytes : List ℕ) (max_t : ℤ) (w : Wal) (gs : List Held)
      (cur : List (List ChunkUpdate))
      → IsKept frame w gs cur
      → IsListed w
      → IsListed (append fault bytes max_t w).1
  unfolding append
  append-IsListed fault bytes max_t w gs cur k e = elim k.current_is [
    | inr (o, d) ↦
        subst IsListed (ap (λ r. r.1) (sym (append_closed frame w fault bytes max_t o))) e
    | inl (o, (n, c)) ↦ by_fault fault o c.file_is
  ]
    where
      with_current : w.opened ≡ true → keys w.files ≡ seqs w.segs ++ (w.cur_seq ∷ [])
      with_current o = e ∙ ap (λ (b : Bool). seqs w.segs ++ (if b then w.cur_seq ∷ [] else [])) o

      by_fault :
          (f : Option ℕ)
          → w.opened ≡ true
          → lookup w.cur_seq w.files ≡ some (seg_bytes frame cur)
          → IsListed (append f bytes max_t w).1
      by_fault none o c =
          rw (append, o) (keys-insert_known w.cur_seq _ _ w.files c ∙ with_current o)
      by_fault (some j) o c =
          rw (append, o) (keys-insert_known w.cur_seq _ _ w.files c ∙ with_current o)

  pub sync-IsListed : (fails : Bool) (w : Wal) → IsListed w → IsListed (sync fails w).1
  sync-IsListed fails w e = elim (Bool-cases (not w.opened || not w.dirty)) [
    | inl c ↦ rw (c) e
    | inr c ↦ rw (c) e
  ]

  -- A new segment has a new file.
  pub fresh-IsListed :
      (seq : ℕ) (w : Wal)
      → keys w.files ≡ seqs w.segs
      → Below seq (seqs w.segs)
      → IsListed (open_seg false seq w).1
  fresh-IsListed seq w e b =
      keys-insert_new seq [] w.files
        (subst (All (λ j. (j == seq) ≡ false)) (sym e) (Below-not seq (seqs w.segs) b))
      ∙ ap (λ t. t ++ (seq ∷ [])) e

  pub close_seg-keys :
      (w : Wal) → w.opened ≡ true → IsListed w → keys w.files ≡ seqs (close_seg w).segs
  close_seg-keys w o e =
      e
      ∙ ap (λ (b : Bool). seqs w.segs ++ (if b then w.cur_seq ∷ [] else [])) o
      ∙ sym (seqs-append w.segs (closed_seg w))
