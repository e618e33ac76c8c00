-- ===== src/Terrain/Wal/Replay/Segment.antt =====
-- The bytes of a segment, and the batches that stand whole in first bytes of it.
use time_shade_db.Prelude.{
  ℕ, ◌-◌, ◌≤◌, ◌≡◌, refl, ap, ◌∙◌, arith, leb, le→leb, leb→le, if◌then◌else◌, inl, inr, Bool-cases,
}
use time_shade_db.Prelude.{List, [], ◌∷◌, ◌++◌, length, length-append, take, take-append_past}
use time_shade_db.Prelude.Int.{ℤ}
use time_shade_db.Memstore.Terrain.{ChunkUpdate}
use time_shade_db.Terrain.Wal.{WalUpdate}
use time_shade_db.Terrain.Wal.Frame.{}
use time_shade_db.Terrain.Wal.Replay.{newest}

-- The newest time in some frames.
unfoldable pub newest_in : ℤ → List (List WalUpdate) → ℤ
newest_in m [] = m
newest_in m (f ∷ fs) = newest_in (newest m f) fs

module _ (frame : List ChunkUpdate → List ℕ) where
  -- The bytes of a segment of batches.
  unfoldable pub seg_bytes : List (List ChunkUpdate) → List ℕ
  seg_bytes [] = []
  seg_bytes (b ∷ bs) = frame b ++ seg_bytes bs

  -- The batches whose frames stand whole in the first k bytes.
  unfoldable pub fits : ℕ → List (List ChunkUpdate) → List (List ChunkUpdate)
  fits k [] = []
  fits k (b ∷ bs) =
      let rest = fits (k - length (frame b)) bs in if leb (length (frame b)) k then b ∷ rest else []

  -- All of them fit in the whole segment.
  pub fits_all : (bs : List (List ChunkUpdate)) (k : ℕ) → length (seg_bytes bs) ≤ k → fits k bs ≡ bs
  unfolding seg_bytes fits
  fits_all [] k l = refl
  fits_all (b ∷ bs) k l =
      let long = length-append (frame b) (seg_bytes bs) in
      rw (fits, le→leb (length (frame b)) k (omega (arith, long)))
        (ap (λ t. b ∷ t) (fits_all bs (k - length (frame b)) (omega (arith, long))))

  -- The replay of what was cut finds the same again.
  pub fits-fits :
      (bs : List (List ChunkUpdate)) (k : ℕ)
      → take (length (seg_bytes (fits k bs))) (seg_bytes bs) ≡ seg_bytes (fits k bs)
  unfolding seg_bytes fits
  fits-fits [] k = refl
  fits-fits (b ∷ bs) k = elim (Bool-cases (leb (length front) k)) [
    | inl c ↦
        rw (fits, c)
          (take-append_past _ (length (seg_bytes (fits (k - length front) bs))) front (seg_bytes bs)
              (length-append front (seg_bytes (fits (k - length front) bs)))
            ∙ ap (λ t. front ++ t) (fits-fits bs (k - length front)))
    | inr c ↦ rw (fits, c) refl
  ]
    where
      front : List ℕ
      front = frame b

  pub fits_le : (bs : List (List ChunkUpdate)) (k : ℕ) → length (seg_bytes (fits k bs)) ≤ k
  unfolding seg_bytes fits
  fits_le [] k = omega arith
  fits_le (b ∷ bs) k = elim (Bool-cases (leb (length front) k)) [
    | inl c ↦
        rw (fits, c)
          (omega (
            arith,
            leb→le (length front) k c,
            length-append front (seg_bytes (fits (k - length front) bs)),
            fits_le bs (k - length front),
          ))
    | inr c ↦ rw (fits, c) (omega arith)
  ]
    where
      front : List ℕ
      front = frame b
