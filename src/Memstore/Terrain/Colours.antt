-- ===== src/Memstore/Terrain/Colours.antt =====
-- The palette of a datastore: it only grows, and it has the colours of the accepted updates.
use time_shade_db.Prelude.{ℕ, zero, suc, ◌<◌, ◌≡◌, refl, sym, ◌∙◌, subst, arith, inl, inr, ◌⊎◌}
use time_shade_db.Prelude.{
  some, Option-cases, List, [], ◌∷◌, ◌++◌, length, length-append, append-nil, append_assoc,
}
use time_shade_db.Prelude.{get_elem?, get_elem?-append_left, get_elem?-append_last}
use time_shade_db.Prelude.Int.{ℤ}
use time_shade_db.Prelude.Maps.{Map, Entries, lookup, insert-Entries, lookup-Entries, nat_Eq}
use time_shade_db.Core.Grid.{TileCoord, chunk_pixel_count}
use time_shade_db.Core.Image.{ChunkPixels}
use time_shade_db.Memstore.Terrain.{
  TerrainDs, ChunkUpdate, add_colour, add_colours, accept, note_time, update_pixels, new_ds,
}

-- A colour stands at an index of a palette.
abbrev At : List ℕ → ℕ → ℕ → Type 0
At p c i = (i < length p) × (get_elem? p i ≡ some c)

-- The index table points into the palette.
abbrev pub IsPalette : TerrainDs → Type 0
IsPalette d = Entries (λ c i. (i < length d.palette) × (get_elem? d.palette i ≡ some c)) d.pal_idx

At-append : (p more : List ℕ) (c i : ℕ) → At p c i → At (p ++ more) c i
At-append p more c i a =
    (rw (length-append p more) (omega (arith, a.0)), get_elem?-append_left p more i a.0 ∙ a.1)

-- What a step of the palette does: the old entries stay, and the given colour is there.
record Coloured (c : ℕ) (d d' : TerrainDs) : Type 0 where
  more : List ℕ
  palette_is : d'.palette ≡ d.palette ++ more
  index : ℕ
  is_at : At d'.palette c index
  kept : IsPalette d'

Entries-append :
    (p more : List ℕ) (m : Map ℕ ℕ)
    → Entries (λ c i. At p c i) m
    → Entries (λ c i. At (p ++ more) c i) m
Entries-append p more [] e = tt
Entries-append p more ((c, i) ∷ m) e = (At-append p more c i e.0, Entries-append p more m e.1)

last_At : (p : List ℕ) (c : ℕ) → At (p ++ (c ∷ [])) c (length p)
last_At p c = (rw (length-append p (c ∷ [])) (omega arith), get_elem?-append_last p c)

add_colour-Coloured : (c : ℕ) (d : TerrainDs) → IsPalette d → Coloured c d (add_colour c d)
unfolding add_colour
add_colour-Coloured c d h = elim (Option-cases (lookup c d.pal_idx)) [
  | inl e ↦
      rw (add_colour, e)
        (record {
          more = c ∷ [];
          palette_is = refl;
          index = length d.palette;
          is_at = last_At d.palette c;
          kept =
              insert-Entries (λ x i. At (d.palette ++ (c ∷ [])) x i) c (length d.palette) d.pal_idx
                (λ j q.
                  subst (λ x. At (d.palette ++ (c ∷ [])) x (length d.palette))
                    (sym ((nat_Eq.same_iff j c).0 q)) (last_At d.palette c))
                (Entries-append d.palette (c ∷ []) d.pal_idx h);
        })
  | inr (i, e) ↦
      rw (add_colour, e)
        (record {
          more = [];
          palette_is = sym (append-nil d.palette);
          index = i;
          is_at = lookup-Entries (λ x j. At d.palette x j) c i d.pal_idx h e;
          kept = h;
        })
]

-- What the palette loop does: the old entries stay, and the first n pixels are there.
record ColouredUpTo (n : ℕ) (px : ChunkPixels) (d d' : TerrainDs) : Type 0 where
  more : List ℕ
  palette_is : d'.palette ≡ d.palette ++ more
  colours_are : (k : ℕ) → k < n → (i : ℕ) × At d'.palette (px k) i
  kept : IsPalette d'

add_colours-ColouredUpTo :
    (n : ℕ) (px : ChunkPixels) (d : TerrainDs)
    → IsPalette d
    → ColouredUpTo n px d (add_colours n px d)
unfolding add_colours
add_colours-ColouredUpTo zero px d h = record {
  more = [];
  palette_is = sym (append-nil d.palette);
  colours_are = λ k lt. absurd (omega arith);
  kept = h;
}
add_colours-ColouredUpTo (suc n) px d h =
    let x = add_colours-ColouredUpTo n px d h in
    let d1 = add_colours n px d in
    let y = add_colour-Coloured (px n) d1 x.kept in
    record {
      more = x.more ++ y.more;
      palette_is = y.palette_is ∙ rw x.palette_is (append_assoc d.palette x.more y.more);
      colours_are = λ k lt. elim (lt_or_eq k n lt) [
        | inl l ↦
            let (i, a) = x.colours_are k l in
            (i, rw y.palette_is (At-append d1.palette y.more (px k) i a))
        | inr e ↦
            (y.index, subst (λ j. At (add_colour (px n) d1).palette (px j) y.index) (sym e) y.is_at)
      ];
      kept = y.kept;
    }
  where
    lt_or_eq : (k m : ℕ) → k < suc m → (k < m) ⊎ (k ≡ m)
    lt_or_eq k m lt = ground arith

-- In a datastore whose index table points into its palette, an update that `Apply` accepts only
-- appends to the palette, keeps the table pointing into it, and leaves the colour of each of its
-- pixels at some index of the palette.
pub accept_colours :
    (tc : TileCoord) (block : ℕ) (u : ChunkUpdate) (d : TerrainDs) (k : ℕ)
    → IsPalette d
    → k < chunk_pixel_count
    → IsPalette (accept tc block u d)
      × ((more : List ℕ) × ((accept tc block u d).palette ≡ d.palette ++ more))
      × ((i : ℕ) × (get_elem? (accept tc block u d).palette i ≡ some (update_pixels u k)))
unfolding accept note_time
accept_colours tc block u d k h lt =
    let x = add_colours-ColouredUpTo chunk_pixel_count (update_pixels u) d h in
    let (i, a) = x.colours_are k lt in (x.kept, (x.more, x.palette_is), (i, a.1))

-- The palette of a new datastore has colour 0 alone, which its index table points to.
pub new_ds-IsPalette : (w : ℤ) → IsPalette (new_ds w)
unfolding new_ds
new_ds-IsPalette w = ((omega arith, refl), tt)
