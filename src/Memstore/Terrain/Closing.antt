-- ===== src/Memstore/Terrain/Closing.antt =====
-- The loop of `Commit` over the windows of one tile.
use time_shade_db.Prelude.{ℕ, ◌^◌, ◌<◌, ◌≡◌, refl, ap, subst, arith}
use time_shade_db.Prelude.{ltb→lt, lt→ltb, true, false, Bool-cases, inl, inr, ◌⊎◌}
use time_shade_db.Prelude.{List, [], ◌∷◌, All}
use time_shade_db.Prelude.Int.{
  ℤ, pos, pos_part, neg_part, ◌+ℤ◌, ◌≤ℤ◌, ◌<ℤ◌, ltb_ℤ, int64, int64_id, ◌==ℤ◌, ==ℤ_iff,
}
use time_shade_db.Prelude.Int.{int_laws, int_parts}
use time_shade_db.Prelude.Maps.{Map, Entries, erase-Entries_ne, keys, lookup, int_Eq, erase}
use time_shade_db.Core.Time.{multiples_apart}
use time_shade_db.Memstore.Terrain.{ChunkDelta, TerrainTile, Window, or_empty}
use time_shade_db.Memstore.Terrain.Commit.{add_version, close_window, close_windows, commit_tile}
use time_shade_db.Memstore.Terrain.Commit.{
  sort_starts, insert_start, starts_before, changed, sort_blocks,
}
use time_shade_db.Memstore.Terrain.Versions.{
  UpTo-mono, IsStart, IsTile, Extends, Extends-refl, Extends-trans,
}
use time_shade_db.Memstore.Terrain.Versions.{IsChain, add_version-IsChain}

abbrev Elem : ℤ → List ℤ → Type 0
Elem x [] = ⊥
Elem x (y ∷ ys) = (x ≡ y) ⊎ Elem x ys

abbrev Sorted : List ℤ → Type 0
Sorted [] = Unit {0}
Sorted (a ∷ as') = All (λ b. a ≤ℤ b) as' × Sorted as'

insert_start-All {ℓ} :
    (P : ℤ → Type ℓ) (a : ℤ) (bs : List ℤ) → P a → All P bs → All P (insert_start a bs)
unfolding insert_start
insert_start-All P a [] p h = (p, h)
insert_start-All P a (b ∷ bs) p h = elim (Bool-cases (ltb_ℤ a b)) [
  | inl s ↦ rw s (p, h)
  | inr s ↦ rw s (h.0, insert_start-All P a bs p h.1)
]

sort_starts-All {ℓ} : (P : ℤ → Type ℓ) (as' : List ℤ) → All P as' → All P (sort_starts as')
unfolding sort_starts
sort_starts-All P [] h = h
sort_starts-All P (a ∷ as') h =
    insert_start-All P a (sort_starts as') h.0 (sort_starts-All P as' h.1)

All-le : (a b : ℤ) (bs : List ℤ) → a ≤ℤ b → All (λ c. b ≤ℤ c) bs → All (λ c. a ≤ℤ c) bs
All-le a b [] h k = tt
All-le a b (c ∷ bs) h k = (omega (arith, k.0), All-le a b bs h k.1)

insert_start-Sorted : (a : ℤ) (bs : List ℤ) → Sorted bs → Sorted (insert_start a bs)
unfolding insert_start
insert_start-Sorted a [] h = (tt, tt)
insert_start-Sorted a (b ∷ bs) h = elim (Bool-cases (ltb_ℤ a b)) [
  | inl s ↦ rw s ((omega (arith, ltb→lt _ _ s), All-le a b bs (omega (arith, ltb→lt _ _ s)) h.0), h)
  | inr s ↦
      rw s (insert_start-All (λ c. b ≤ℤ c) a bs (ground arith) h.0, insert_start-Sorted a bs h.1)
]

sort_starts-Sorted : (as' : List ℤ) → Sorted (sort_starts as')
unfolding sort_starts
sort_starts-Sorted [] = tt
sort_starts-Sorted (a ∷ as') = insert_start-Sorted a (sort_starts as') (sort_starts-Sorted as')

insert_start-Elem : (x a : ℤ) (bs : List ℤ) → (x ≡ a) ⊎ Elem x bs → Elem x (insert_start a bs)
unfolding insert_start
insert_start-Elem x a [] (inl e) = inl e
insert_start-Elem x a [] (inr e) = elim e [ ]
insert_start-Elem x a (b ∷ bs) (inl e) = elim (Bool-cases (ltb_ℤ a b)) [
  | inl s ↦ rw s (inl e)
  | inr s ↦ rw s (inr (insert_start-Elem x a bs (inl e)))
]
insert_start-Elem x a (b ∷ bs) (inr (inl e)) = elim (Bool-cases (ltb_ℤ a b)) [
  | inl s ↦ rw s (inr (inl e))
  | inr s ↦ rw s (inl e)
]
insert_start-Elem x a (b ∷ bs) (inr (inr e)) = elim (Bool-cases (ltb_ℤ a b)) [
  | inl s ↦ rw s (inr (inr e))
  | inr s ↦ rw s (inr (insert_start-Elem x a bs (inr e)))
]

sort_starts-Elem : (x : ℤ) (as' : List ℤ) → Elem x as' → Elem x (sort_starts as')
unfolding sort_starts
sort_starts-Elem x [] e = e
sort_starts-Elem x (a ∷ as') (inl e) = insert_start-Elem x a (sort_starts as') (inl e)
sort_starts-Elem x (a ∷ as') (inr e) =
    insert_start-Elem x a (sort_starts as') (inr (sort_starts-Elem x as' e))

starts_before-Elem : (h x : ℤ) (as' : List ℤ) → x <ℤ h → Elem x as' → Elem x (starts_before h as')
unfolding starts_before
starts_before-Elem h x [] lt e = e
starts_before-Elem h x (a ∷ as') lt (inl e) =
    rw (subst (λ y. ltb_ℤ y h ≡ true) e (lt→ltb _ _ lt)) (inl e)
starts_before-Elem h x (a ∷ as') lt (inr e) = elim (Bool-cases (ltb_ℤ a h)) [
  | inl s ↦ rw s (inr (starts_before-Elem h x as' lt e))
  | inr s ↦ rw s (starts_before-Elem h x as' lt e)
]

-- The window starts of the loop: those of open windows that are before the new horizon.
starts_before-All {ℓ} :
    (P : ℤ → Type ℓ) (h : ℤ) (m : Map ℤ Window)
    → Entries (λ ws _. P ws) m
    → All (λ ws. P ws × (ws <ℤ h)) (starts_before h (keys m))
unfolding starts_before keys
starts_before-All P h [] e = tt
starts_before-All P h ((ws, win) ∷ m) e = elim (Bool-cases (ltb_ℤ ws h)) [
  | inl s ↦ rw s ((e.0, ltb→lt _ _ s), starts_before-All P h m e.1)
  | inr s ↦ rw s (starts_before-All P h m e.1)
]

add_version-windows :
    (eff : ℤ) (ds : List ChunkDelta) (tl : TerrainTile)
    → (add_version eff ds tl).windows ≡ tl.windows
unfolding add_version
add_version-windows eff [] tl = refl
add_version-windows eff (d ∷ ds) tl = refl

close_window-windows :
    (w ws : ℤ) (tl : TerrainTile) → (close_window w ws tl).windows ≡ erase ws tl.windows
unfolding close_window
close_window-windows w ws tl = add_version-windows _ _ _

module _ (w : ℕ) (h h' : ℤ) (positive : 0 < w) (w_lt : w < 2 ^ 62) where
  -- A window that this commit closes.
  abbrev IsDue : ℤ → Type 0
  IsDue ws = (IsStart w ws × (h ≤ℤ ws)) × (ws <ℤ h')

  end_id : (ws : ℤ) → IsStart w ws → int64 (ws +ℤ pos w) ≡ ws +ℤ pos w
  end_id ws s = int64_id (ws +ℤ pos w) (omega (int_parts, s.low, s.high))

  end_le : (ws : ℤ) → IsStart w ws → IsStart w h' → ws <ℤ h' → ws +ℤ pos w ≤ℤ h'
  end_le ws s t lt = elim (multiples_apart t.factor s.factor w) [
    | inl le ↦ absurd (
        omega (
          arith,
          ap pos_part s.start_is,
          ap neg_part s.start_is,
          ap pos_part t.start_is,
          ap neg_part t.start_is,
        ))
    | inr le ↦ rw (s.start_is, t.start_is) le
  ]

  due_ends :
      (a : ℤ) (starts : List ℤ)
      → All (λ b. a ≤ℤ b) starts
      → All (λ b. a +ℤ pos w ≤ℤ b +ℤ pos w) starts
  due_ends a [] k = tt
  due_ends a (b ∷ starts) k = (omega (int_laws, k.0), due_ends a starts k.1)

  close_window_lem :
      (ws b : ℤ) (tl : TerrainTile)
      → IsStart w h'
      → IsDue ws
      → b ≤ℤ ws +ℤ pos w
      → IsChain b tl
      → IsChain (ws +ℤ pos w) (close_window (pos w) ws tl)
        × Extends h h' tl (close_window (pos w) ws tl)
  unfolding close_window
  close_window_lem ws b tl sh due be c =
      let cleared : TerrainTile = record tl { windows = erase ws tl.windows } in
      let win = or_empty (lookup ws tl.windows) in
      let ds = changed tl.current win (sort_blocks (keys win)) in
      let (chain, x) =
        add_version-IsChain b (ws +ℤ pos w) h h' ds cleared
          (record { replayed = c.replayed; ascending = c.ascending; committed = c.committed }) be
          (omega (int_parts, due.0.0.low)) (omega (int_laws, due)) (end_le ws due.0.0 sh due.1) in
      rw (end_id ws due.0.0)
        (chain, record { more = x.more; versions_are = x.versions_are; later = x.later })

  close_windows_lem :
      (starts : List ℤ) (b : ℤ) (tl : TerrainTile)
      → IsStart w h'
      → Sorted starts
      → All IsDue starts
      → All (λ ws. b ≤ℤ ws +ℤ pos w) starts
      → b ≤ℤ h'
      → IsChain b tl
      → IsChain h' (close_windows (pos w) starts tl)
        × Extends h h' tl (close_windows (pos w) starts tl)
  unfolding close_windows
  close_windows_lem [] b tl sh so due bs bh c = (
    record {
      replayed = c.replayed;
      ascending = c.ascending;
      committed = UpTo-mono b h' tl.versions bh c.committed;
    },
    Extends-refl h h' tl,
  )
  close_windows_lem (ws ∷ starts) b tl sh so due bs bh c =
      let (c1, x1) = close_window_lem ws b tl sh due.0 bs.0 c in
      let (c2, x2) =
        close_windows_lem starts (ws +ℤ pos w) (close_window (pos w) ws tl) sh so.1 due.1
          (due_ends ws starts so.0) (end_le ws due.0.0.0 sh due.0.1) c1 in
      (c2, Extends-trans h h' _ _ _ x1 x2)

  -- An open window is kept, or it is still to be closed.
  abbrev IsKept : List ℤ → ℤ → Type 0
  IsKept starts ws = (IsStart w ws × (h ≤ℤ ws)) × (ws <ℤ h' → Elem ws starts)

  IsKept-next :
      (ws : ℤ) (starts : List ℤ) (j : ℤ)
      → (j ==ℤ ws) ≡ false
      → IsKept (ws ∷ starts) j
      → IsKept starts j
  IsKept-next ws starts j ne k = (k.0, λ lt. other (k.1 lt))
    where
      other : Elem j (ws ∷ starts) → Elem j starts
      other (inl e) = absurd (differ (subst (λ x. (j ==ℤ x) ≡ true) e ((==ℤ_iff j j).1 refl)))
        where
          differ : (j ==ℤ ws) ≡ true → ⊥
          differ t = cc
      other (inr e) = e

  close_windows-opened :
      (starts : List ℤ) (tl : TerrainTile)
      → Entries (λ ws _. IsKept starts ws) tl.windows
      → Entries (λ ws _. IsStart w ws × (h' ≤ℤ ws)) (close_windows (pos w) starts tl).windows
  unfolding close_windows
  close_windows-opened [] tl e = all_after tl.windows e
    where
      all_after :
          (m : Map ℤ Window)
          → Entries (λ ws _. IsKept [] ws) m
          → Entries (λ ws _. IsStart w ws × (h' ≤ℤ ws)) m
      all_after [] k = tt
      all_after ((ws, win) ∷ m) k = (
        (
          k.0.0.0,
          elim (Bool-cases (ltb_ℤ ws h')) [
            | inl s ↦ absurd (k.0.1 (ltb→lt _ _ s))
            | inr s ↦ ground arith
          ],
        ),
        all_after m k.1,
      )
  close_windows-opened (ws ∷ starts) tl e =
      close_windows-opened starts (close_window (pos w) ws tl) (
        rw (close_window-windows (pos w) ws tl) (
          erase-Entries_ne (λ j _. IsKept (ws ∷ starts) j) (λ j _. IsKept starts j) ws tl.windows
            (λ j v ne k. IsKept-next ws starts j ne k) e))

  first_bound : (starts : List ℤ) → All IsDue starts → All (λ ws. h ≤ℤ ws +ℤ pos w) starts
  first_bound [] d = tt
  first_bound (ws ∷ starts) d = (omega (int_laws, d.0), first_bound starts d.1)

  kept :
      (ks : List ℤ) (m : Map ℤ Window)
      → ((ws : ℤ) → Elem ws (keys m) → Elem ws ks)
      → Entries (λ ws _. IsStart w ws × (h ≤ℤ ws)) m
      → Entries (λ ws _. IsKept (sort_starts (starts_before h' ks)) ws) m
  unfolding keys
  kept ks [] f e = tt
  kept ks ((ws, win) ∷ m) f e = (
    (e.0, λ lt. sort_starts-Elem ws _ (starts_before-Elem h' ws ks lt (f ws (inl refl)))),
    kept ks m (λ x i. f x (inr i)) e.1,
  )

  -- For a window length from 1 to 2^62 - 1 and a new horizon that is the start of a window and not
  -- before the old one: the loop of `Commit` over the windows of a tile keeps the tile's invariant,
  -- at the new horizon, and only appends versions, effective after the old horizon and by the new
  -- one.
  pub commit_tile-IsTile :
      (tl : TerrainTile)
      → IsStart w h'
      → h ≤ℤ h'
      → IsTile w h tl
      → IsTile w h' (commit_tile (pos w) h' tl) × Extends h h' tl (commit_tile (pos w) h' tl)
  unfolding commit_tile
  commit_tile-IsTile tl sh le t =
      let due =
        sort_starts-All IsDue _
          (starts_before-All (λ ws. IsStart w ws × (h ≤ℤ ws)) h' tl.windows t.opened) in
      let starts = sort_starts (starts_before h' (keys tl.windows)) in
      let (c, x) =
        close_windows_lem starts h tl sh (sort_starts-Sorted _) due (first_bound starts due) le
          (record { replayed = t.replayed; ascending = t.ascending; committed = t.committed }) in
      (
        record {
          replayed = c.replayed;
          ascending = c.ascending;
          committed = c.committed;
          opened =
              close_windows-opened starts tl
                (kept (keys tl.windows) tl.windows (λ ws e. e) t.opened);
        },
        x,
      )
