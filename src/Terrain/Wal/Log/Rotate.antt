-- ===== src/Terrain/Wal/Log/Rotate.antt =====
-- Rotation deletes only segments whose updates are all older than the horizon.
use time_shade_db.Prelude.{
  ℕ, suc, ◌≤◌, ◌<◌, ◌≡◌, refl, sym, ap, ◌∙◌, arith, ◌==◌, inl, inr, ◌⊎◌, Bool-cases, not, ◌&&◌,
  subst,
}
use time_shade_db.Prelude.{Bool, false, List, [], ◌∷◌, ◌++◌, All, map}
use time_shade_db.Prelude.Int.{ℤ, ◌≤ℤ◌, ◌<ℤ◌, ltb_ℤ}
use time_shade_db.Prelude.Maps.{Map, lookup, erase, lookup-erase_ne, nat_Eq}
use time_shade_db.Memstore.Terrain.{ChunkUpdate}
use time_shade_db.Terrain.Wal.Replay.{WalSeg}
use time_shade_db.Terrain.Wal.Log.{Wal, delete_old, prune, is_some}
use time_shade_db.Terrain.Wal.Log.Kept.{
  IsUpTo, Held, seg_of, Holds, IsSegs, IsKept, Holds-files, IsSegs-files, segs_end,
}

-- Every update of the batches is older than a time.
abbrev pub IsOlder : ℤ → List (List ChunkUpdate) → Type 0
IsOlder h bs = All (λ b. All (λ u. u.t <ℤ h) b) bs

IsUpTo-IsOlder : (m h : ℤ) (bs : List (List ChunkUpdate)) → m <ℤ h → IsUpTo m bs → IsOlder h bs
IsUpTo-IsOlder m h [] lt u = tt
IsUpTo-IsOlder m h (b ∷ bs) lt (u, us) = (each b u, IsUpTo-IsOlder m h bs lt us)
  where
    each : (xs : List ChunkUpdate) → All (λ u. u.t ≤ℤ m) xs → All (λ u. u.t <ℤ h) xs
    each [] k = tt
    each (x ∷ xs) (k, ks) = (omega arith, each xs ks)

-- The current segment among the closed ones.
abbrev pub closed_seg : Wal → WalSeg
closed_seg w = record { seq = w.cur_seq; max_t = w.cur_max_t; size = w.cur_size }

pub map-append :
    {A B : Type 0} (f : A → B) (xs : List A) (y : A)
    → map f (xs ++ (y ∷ [])) ≡ map f xs ++ (f y ∷ [])
map-append f [] y = refl
map-append f (x ∷ xs) y = ap (λ t. f x ∷ t) (map-append f xs y)

-- Some of the segments are left, in their order; those that are gone hold older updates only, and
-- new ones are empty.
pub data Survives (h : ℤ)
    : List (List (List ChunkUpdate)) → List (List (List ChunkUpdate)) → Type 0 where
  all_gone : Survives h [] []
  left :
      {bs : List (List ChunkUpdate)} {xs ys : List (List (List ChunkUpdate))}
      → Survives h xs ys
      → Survives h (bs ∷ xs) (bs ∷ ys)
  deleted :
      {bs : List (List ChunkUpdate)} {xs ys : List (List (List ChunkUpdate))}
      → IsOlder h bs
      → Survives h xs ys
      → Survives h (bs ∷ xs) ys
  opened_empty :
      {xs ys : List (List (List ChunkUpdate))} → Survives h xs ys → Survives h xs ([] ∷ ys)

abbrev pub batches_of : Held → List (List ChunkUpdate)
batches_of (sg, bs) = bs

pub Survives-refl : (h : ℤ) (xs : List (List (List ChunkUpdate))) → Survives h xs xs
Survives-refl h [] = all_gone
Survives-refl h (x ∷ xs) = left (Survives-refl h xs)

Survives-append :
    (h : ℤ) {xs ys : List (List (List ChunkUpdate))} (us vs : List (List (List ChunkUpdate)))
    → Survives h xs ys
    → Survives h us vs
    → Survives h (xs ++ us) (ys ++ vs)
Survives-append h us vs all_gone k = k
Survives-append h us vs (left s) k = left (Survives-append h us vs s k)
Survives-append h us vs (deleted o s) k = deleted o (Survives-append h us vs s k)
Survives-append h us vs (opened_empty s) k = opened_empty (Survives-append h us vs s k)

-- The batches of the closed segments and of the current one.
abbrev pub contents : List Held → List (List ChunkUpdate) → List (List (List ChunkUpdate))
contents gs cur = map batches_of gs ++ (cur ∷ [])

-- A new segment after the current one.
pub contents-closed :
    (h : ℤ) (gs : List Held) (sg : WalSeg) (cur : List (List ChunkUpdate))
    → Survives h (contents gs cur) (contents (gs ++ ((sg, cur) ∷ [])) [])
contents-closed h gs sg cur =
    subst (λ ys. Survives h (contents gs cur) (ys ++ ([] ∷ [])))
      (sym (map-append batches_of gs (sg, cur))) (trailing (contents gs cur))
  where
    trailing : (xs : List (List (List ChunkUpdate))) → Survives h xs (xs ++ ([] ∷ []))
    trailing [] = opened_empty all_gone
    trailing (x ∷ xs) = left (trailing xs)

Survives-trans :
    (h : ℤ) {xs ys zs : List (List (List ChunkUpdate))}
    → Survives h xs ys
    → Survives h ys zs
    → Survives h xs zs
Survives-trans h all_gone t = t
Survives-trans h (left s) (left t) = left (Survives-trans h s t)
Survives-trans h (left s) (deleted o t) = deleted o (Survives-trans h s t)
Survives-trans h (left s) (opened_empty t) = opened_empty (Survives-trans h (left s) t)
Survives-trans h (deleted o s) t = deleted o (Survives-trans h s t)
Survives-trans h (opened_empty s) (left t) = opened_empty (Survives-trans h s t)
Survives-trans h (opened_empty s) (deleted o t) = Survives-trans h s t
Survives-trans h (opened_empty s) (opened_empty t) =
    opened_empty (Survives-trans h (opened_empty s) t)

module _ (frame : List ChunkUpdate → List ℕ) where
  -- What the loop that deletes leaves.
  record Deletes (h : ℤ) (files : Map ℕ (List ℕ)) (lo hi : ℕ) (gs : List Held)
      (out : Bool × List WalSeg × Map ℕ (List ℕ)) : Type 0 where
    gs_left : List Held
    segs_are : out.1 ≡ map seg_of gs_left
    closed_are : IsSegs frame out.2 lo hi gs_left
    survives : Survives h (map batches_of gs) (map batches_of gs_left)
    others : (k : ℕ) → (k < lo) ⊎ (hi ≤ k) → lookup k out.2 ≡ lookup k files

  IsSegs-lower :
      (files : Map ℕ (List ℕ)) (lo lo' hi : ℕ) (gs : List Held)
      → lo ≤ lo'
      → IsSegs frame files lo' hi gs
      → IsSegs frame files lo hi gs
  IsSegs-lower files lo lo' hi [] le h = omega arith
  IsSegs-lower files lo lo' hi ((sg, bs) ∷ gs) le (l, h, hs) = (omega arith, h, hs)

  not_same : (j k : ℕ) → (k < j) ⊎ (j < k) → (j == k) ≡ false
  not_same j k h = ground arith

  -- The first segment is deleted.
  deleted-Deletes :
      (h : ℤ) (files : Map ℕ (List ℕ)) (lo hi : ℕ) (sg : WalSeg) (bs : List (List ChunkUpdate))
      (gs : List Held) (out : Bool × List WalSeg × Map ℕ (List ℕ))
      → lo ≤ sg.seq
      → sg.seq < hi
      → IsOlder h bs
      → Deletes h (erase sg.seq files) (suc sg.seq) hi gs out
      → Deletes h files lo hi ((sg, bs) ∷ gs) out
  deleted-Deletes h files lo hi sg bs gs out le lt old d = record {
    gs_left = d.gs_left;
    segs_are = d.segs_are;
    closed_are = IsSegs-lower out.2 lo (suc sg.seq) hi d.gs_left (omega arith) d.closed_are;
    survives = deleted old d.survives;
    others = λ k outside.
        d.others k (ground arith)
        ∙ lookup-erase_ne k sg.seq files (not_same sg.seq k (ground arith));
  }

  -- The first segment is left.
  left-Deletes :
      (h : ℤ) (files : Map ℕ (List ℕ)) (lo hi : ℕ) (sg : WalSeg) (bs : List (List ChunkUpdate))
      (gs : List Held) (out : Bool × List WalSeg × Map ℕ (List ℕ)) (is_ok : Bool)
      → lo ≤ sg.seq
      → sg.seq < hi
      → Holds frame files sg.seq sg.size sg.max_t bs
      → Deletes h files (suc sg.seq) hi gs out
      → Deletes h files lo hi ((sg, bs) ∷ gs) (is_ok, sg ∷ out.1, out.2)
  left-Deletes h files lo hi sg bs gs out is_ok le lt holds d = record {
    gs_left = (sg, bs) ∷ d.gs_left;
    segs_are = ap (λ t. sg ∷ t) d.segs_are;
    closed_are = (
      le,
      Holds-files frame files out.2 sg.seq sg.size sg.max_t bs (d.others sg.seq (inl (omega arith)))
          holds,
      d.closed_are,
    );
    survives = left d.survives;
    others = λ k outside. d.others k (ground arith);
  }

  delete_old-Deletes :
      (fails : ℕ → Bool) (h : ℤ) (gs : List Held) (files : Map ℕ (List ℕ)) (lo hi : ℕ)
      → IsSegs frame files lo hi gs
      → Deletes h files lo hi gs (delete_old fails h (map seg_of gs) files)
  unfolding delete_old
  delete_old-Deletes fails h [] files lo hi le = record {
    gs_left = [];
    segs_are = refl;
    closed_are = le;
    survives = all_gone;
    others = λ k outside. refl;
  }
  delete_old-Deletes fails h ((sg, bs) ∷ gs) files lo hi (l, holds, hs) =
      elim (Bool-cases (ltb_ℤ sg.max_t h)) [
        | inr c ↦ rw (c) (
            left-Deletes h files lo hi sg bs gs _ _ l end holds
              (delete_old-Deletes fails h gs files (suc sg.seq) hi hs))
        | inl c ↦ elim (Bool-cases (not (is_some (lookup sg.seq files) && fails sg.seq))) [
          | inl r ↦
              rw (c, r)
                (deleted-Deletes h files lo hi sg bs gs _ l end
                  (IsUpTo-IsOlder sg.max_t h bs (ground arith) holds.up_to)
                  (delete_old-Deletes fails h gs (erase sg.seq files) (suc sg.seq) hi (
                    IsSegs-files frame files (erase sg.seq files) (suc sg.seq) hi gs
                      (λ k a b.
                        lookup-erase_ne k sg.seq files (not_same sg.seq k (inr (omega arith))))
                      hs)))
          | inr r ↦
              rw (c, r)
                (left-Deletes h files lo hi sg bs gs _ _ l end holds
                  (delete_old-Deletes fails h gs files (suc sg.seq) hi hs))
        ]
      ]
    where
      end : sg.seq < hi
      end = omega (arith, segs_end frame files (suc sg.seq) hi gs hs)

  -- A log that holds what survives.
  pub record Rotated (h : ℤ) (w : Wal) (before : List (List (List ChunkUpdate))) : Type 0 where
    pub closed : List Held
    pub current : List (List ChunkUpdate)
    pub kept : IsKept frame w closed current
    pub survives : Survives h before (contents closed current)

  pub prune-Rotated :
      (fails : ℕ → Bool) (h : ℤ) (w : Wal) (gs : List Held) (cur : List (List ChunkUpdate))
      → IsKept frame w gs cur
      → Rotated h (prune fails h w).1 (contents gs cur)
  prune-Rotated fails h w gs cur k =
      let d =
        subst (λ segs. Deletes h w.files 0 k.hi gs (delete_old fails h segs w.files))
          (sym k.segs_are) (delete_old-Deletes fails h gs w.files 0 k.hi k.closed_are) in
      record {
        closed = d.gs_left;
        current = cur;
        kept = record {
          hi = k.hi;
          segs_are = d.segs_are;
          closed_are = d.closed_are;
          current_is = elim k.current_is [
            | inr c ↦ inr c
            | inl (o, (n, c)) ↦ inl (
              o,
              (
                n,
                Holds-files frame w.files _ w.cur_seq w.cur_size w.cur_max_t cur
                    (d.others w.cur_seq (inr (omega (arith, n)))) c,
              ),
            )
          ];
        };
        survives = Survives-append h (cur ∷ []) (cur ∷ []) d.survives (Survives-refl h (cur ∷ []));
      }

  pub IsSegs-append :
      (files : Map ℕ (List ℕ)) (lo : ℕ) (gs : List Held) (sg : WalSeg)
      (bs : List (List ChunkUpdate))
      → Holds frame files sg.seq sg.size sg.max_t bs
      → IsSegs frame files lo sg.seq gs
      → IsSegs frame files lo (suc sg.seq) (gs ++ ((sg, bs) ∷ []))
  IsSegs-append files lo [] sg bs c h = (h, c, omega arith)
  IsSegs-append files lo ((sg', bs') ∷ gs) sg bs c (l, h, hs) =
      (l, h, IsSegs-append files (suc sg'.seq) gs sg bs c hs)

  pub Rotated-then :
      (h : ℤ) (w : Wal) (xs ys : List (List (List ChunkUpdate)))
      → Survives h xs ys
      → Rotated h w ys
      → Rotated h w xs
  Rotated-then h w xs ys s r = record {
    closed = r.closed;
    current = r.current;
    kept = r.kept;
    survives = Survives-trans h s r.survives;
  }
