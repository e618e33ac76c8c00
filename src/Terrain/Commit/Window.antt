-- ===== src/Terrain/Commit/Window.antt =====
-- The delta of a window, from the changes of its blocks to the image that `applyDelta` makes.
use time_shade_db.Prelude.{
  ℕ, suc, ◌^◌, ◌≤◌, ◌<◌, ◌≡◌, refl, sym, ◌∙◌, arith, ◌==◌, ltb, if◌then◌else◌, inl, inr,
  Option-cases, subst,
}
use time_shade_db.Prelude.{Bool, true, false, none, some, List, [], ◌∷◌, All, length, map}
use time_shade_db.Core.Grid.Chunks.{pixel_block}
use time_shade_db.Core.Image.{Image, ChunkPixels, set_block}
use time_shade_db.Terrain.Codec.{ChunkChange, indices_of, diff_chunk, apply_visit, apply_delta}
use time_shade_db.Terrain.Codec.Diff.{diff_chunk-IsChange}
use time_shade_db.Terrain.Codec.RoundTrip.{IsSorted, visit_of, visit_all, walk_delta-encode_delta}
use time_shade_db.Terrain.Palette.Table.{IsLut}
use time_shade_db.Terrain.Commit.{
  window_changes, window_image, window_delta, max_of, max_index, is_wide,
}
use time_shade_db.Terrain.Commit.Places.{put_all, put_all_at}
use time_shade_db.Terrain.Commit.Apply.{
  Fits, IsDiff, Diffs, diff_chunk-Diffs, apply_visit-put_all, IsWindow, Agrees, AgreesFrom,
  none-Agrees, some-Agrees,
}

-- The indices of all the changes have one byte, or two.
abbrev FitsAll : Bool → List ChunkChange → Type 0
FitsAll wide cs = All (λ c. All (Fits wide) c.idx) cs

max_of_le : (m : ℕ) (vs : List ℕ) → m ≤ max_of m vs
unfolding max_of
max_of_le m [] = omega arith
max_of_le m (v ∷ vs) = ground (arith, max_of_le (if ltb m v then v else m) vs)

max_of-All : (m : ℕ) (vs : List ℕ) → max_of m vs ≤ 255 → All (Fits false) vs
unfolding max_of
max_of-All m [] h = tt
max_of-All m (v ∷ vs) h = (
  ground (arith, max_of_le (if ltb m v then v else m) vs),
  max_of-All (if ltb m v then v else m) vs h,
)

max_index_le : (m : ℕ) (cs : List ChunkChange) → m ≤ max_index m cs
unfolding max_index
max_index_le m [] = omega arith
max_index_le m (c ∷ cs) = omega (arith, max_index_le (max_of m c.idx) cs, max_of_le m c.idx)

-- No index is above the largest.
max_index-FitsAll : (m : ℕ) (cs : List ChunkChange) → max_index m cs ≤ 255 → FitsAll false cs
unfolding max_index
max_index-FitsAll m [] h = tt
max_index-FitsAll m (c ∷ cs) h = (
  max_of-All m c.idx (omega (arith, max_index_le (max_of m c.idx) cs)),
  max_index-FitsAll (max_of m c.idx) cs h,
)

pub indices_of-All :
    (lut : ℕ → ℕ) (px : ChunkPixels) (ps : List ℕ) → All (Fits true) (indices_of lut px ps)
unfolding indices_of
indices_of-All lut px [] = tt
indices_of-All lut px (p ∷ ps) = (omega arith, indices_of-All lut px ps)

IsSorted-lower : (lo hi : ℕ) (cs : List ChunkChange) → lo ≤ hi → IsSorted hi cs → IsSorted lo cs
IsSorted-lower lo hi [] le h = tt
IsSorted-lower lo hi (c ∷ cs) le (l, h, hs) = (omega arith, h, hs)

module _ (pal : List ℕ) (lut : ℕ → ℕ) (is_lut : IsLut pal lut) (few : length pal ≤ 2 ^ 16) where
  -- What holds of the changes of the other blocks holds with this one.
  window_changes_cases :
      (P : List ChunkChange → Type 0) (b : ℕ) (old : Image) (px : ChunkPixels)
      (chunks : List (ℕ × ChunkPixels))
      → (Diffs lut b old px none → P (window_changes lut old chunks))
      → ((c : ChunkChange)
          → diff_chunk b old px lut ≡ some c
          → IsDiff lut b old px c
          → P (c ∷ window_changes lut old chunks))
      → P (window_changes lut old ((b, px) ∷ chunks))
  unfolding window_changes
  window_changes_cases P b old px chunks f g = elim (Option-cases (diff_chunk b old px lut)) [
    | inl e ↦
        rw (window_changes, e)
          (f (subst (Diffs lut b old px) e (diff_chunk-Diffs pal lut is_lut few b old px)))
    | inr (c, e) ↦
        rw (window_changes, e)
          (g c e (subst (Diffs lut b old px) e (diff_chunk-Diffs pal lut is_lut few b old px)))
  ]

  window_changes-FitsAll :
      (old : Image) (chunks : List (ℕ × ChunkPixels)) → FitsAll true (window_changes lut old chunks)
  unfolding window_changes
  window_changes-FitsAll old [] = tt
  window_changes-FitsAll old ((b, px) ∷ chunks) =
      window_changes_cases (FitsAll true) b old px chunks (λ d. window_changes-FitsAll old chunks)
        (λ c e d. (
          subst (All (Fits true)) (sym d.idx_is) (indices_of-All lut px d.places),
          window_changes-FitsAll old chunks,
        ))

  window_changes-IsSorted :
      (lo : ℕ) (old : Image) (chunks : List (ℕ × ChunkPixels))
      → IsWindow lut lo chunks
      → IsSorted lo (window_changes lut old chunks)
  unfolding window_changes
  window_changes-IsSorted lo old [] w = tt
  window_changes-IsSorted lo old ((b, px) ∷ chunks) (l, hb, k, w) =
      window_changes_cases (IsSorted lo) b old px chunks
        (λ d.
          IsSorted-lower lo (suc b) _ (omega arith) (window_changes-IsSorted (suc b) old chunks w))
        (λ c e d. (
          omega (arith, d.block_is),
          diff_chunk-IsChange b old px lut c hb e,
          subst (λ n. IsSorted (suc n) (window_changes lut old chunks)) (sym d.block_is)
              (window_changes-IsSorted (suc b) old chunks w),
        ))

  -- The visits of some changes make an image.
  abbrev Makes : Bool → Image → Image → List ChunkChange → Type 0
  Makes wide im new cs =
      ((visit_all (apply_visit pal wide) (map (visit_of wide) cs) im).0 ≡ true)
      × Agrees (visit_all (apply_visit pal wide) (map (visit_of wide) cs) im).1 new

  visit_first :
      (wide : Bool) (im im' new : Image) (c : ChunkChange) (cs : List ChunkChange)
      → apply_visit pal wide (visit_of wide c) im ≡ (true, im')
      → Makes wide im' new cs
      → Makes wide im new (c ∷ cs)
  unfolding visit_all
  visit_first wide im im' new c cs e m = rw (visit_all, e) m

  later_agrees :
      (lo b : ℕ) (old im : Image) (px : ChunkPixels) (ps : List ℕ)
      → lo ≤ b
      → b < 256
      → All (λ p. p < 1024) ps
      → AgreesFrom lo im old
      → AgreesFrom (suc b) (put_all b px ps im) old
  later_agrees lo b old im px ps l hb below from j hj le =
      put_all_at b px ps im j hb below hj ∙ rw (other) (from j hj (omega arith))
    where
      other : (pixel_block j == b) ≡ false
      other = ground arith

  window_changes-Makes :
      (wide : Bool) (chunks : List (ℕ × ChunkPixels)) (lo : ℕ) (old im e : Image)
      → IsWindow lut lo chunks
      → FitsAll wide (window_changes lut old chunks)
      → Agrees im e
      → AgreesFrom lo im old
      → Makes wide im (window_image chunks e) (window_changes lut old chunks)
  unfolding window_changes window_image visit_all
  window_changes-Makes wide [] lo old im e w f ag from = (refl, ag)
  window_changes-Makes wide ((b, px) ∷ chunks) lo old im e (l, hb, k, w) f ag from =
      window_changes_cases
        (λ cs. FitsAll wide cs → Makes wide im (window_image chunks (set_block b px e)) cs) b old px
        chunks
        (λ d f'.
          window_changes-Makes wide chunks (suc b) old im (set_block b px e) w f'
            (none-Agrees pal lut is_lut few lo b old im e px l hb ag from d)
            (λ j hj le. from j hj (omega arith)))
        (λ c q d f'.
          visit_first wide im (put_all b px d.places im) _ c (window_changes lut old chunks)
            (apply_visit-put_all pal lut is_lut few wide b old px c im d k f'.0)
            (window_changes-Makes wide chunks (suc b) old (put_all b px d.places im)
              (set_block b px e) w f'.1
              (some-Agrees pal lut is_lut few lo b old im e px c d l hb ag from)
              (later_agrees lo b old im px d.places l hb d.below from)))
        f

  -- For a palette of at most 2^16 colours with its lookup table, and a window whose blocks rise below
  -- 256 and have pixels of known colours: `applyDelta` of the delta record that `commitTile` makes of
  -- the window, on the image before it, succeeds and gives at every index of the tile the image that
  -- `SetBlock` of all the blocks makes, whether the indices have one byte or two.
  pub apply_delta-window_delta :
      (chunks : List (ℕ × ChunkPixels)) (cur : Image)
      → IsWindow lut 0 chunks
      → ((apply_delta pal (window_delta lut cur chunks).0 (window_delta lut cur chunks).1 cur).0
          ≡ true)
        × Agrees
            (apply_delta pal (window_delta lut cur chunks).0 (window_delta lut cur chunks).1 cur).1
            (window_image chunks cur)
  unfolding apply_delta
  apply_delta-window_delta chunks cur w =
      rw
        (walk_delta-encode_delta (apply_visit pal (is_wide changes)) (is_wide changes) changes cur
          (window_changes-IsSorted 0 cur chunks w))
        (window_changes-Makes (is_wide changes) chunks 0 cur cur cur w (fits (is_wide changes) refl)
          (λ j hj. refl) (λ j hj le. refl))
    where
      changes : List ChunkChange
      changes = window_changes lut cur chunks

      fits : (wide : Bool) → is_wide changes ≡ wide → FitsAll wide changes
      fits true e = window_changes-FitsAll cur chunks
      fits false e = max_index-FitsAll 0 changes (ground arith)
