-- ===== src/Series/File/Deltas.antt =====
-- The counts of deltas in the entries of a file, and runs of entries.
use time_shade_db.Prelude.{ℕ, zero, suc, ◌+◌, ◌≡◌, refl, ap, ◌∙◌, arith}
use time_shade_db.Prelude.{
  false, none, some, List, [], ◌∷◌, ◌++◌, length, length-append, take, drop,
}
use time_shade_db.Prelude.Int.{ℤ, ltb_ℤ}
use time_shade_db.Prelude.Words.{IsU32}
use time_shade_db.Memstore.Series.{LogRecord, t_end, last_record}
use time_shade_db.Series.Format.{Entry, entry_t_end}
use time_shade_db.Series.File.{set_deltas, count_delta, last_t, is_before}
use time_shade_db.Series.File.Records.{last_deltas, first_off, record_bytes}
use time_shade_db.Series.File.Recover.{end_of}
use time_shade_db.Series.File.Layout.{entries_at, blk_bytes, length-record_bytes}

-- The count after some entries, from a count on.
unfoldable pub deltas_after : ℕ → List Entry → ℕ
deltas_after n [] = n
deltas_after n (e ∷ es) = deltas_after (count_delta e.kind n) es

pub set_deltas-append :
    (n : ℕ) (es : List Entry) (e : Entry)
    → set_deltas n (es ++ (e ∷ []))
      ≡ set_deltas n es ++ (record e { deltas = count_delta e.kind (deltas_after n es) } ∷ [])
unfolding set_deltas deltas_after
set_deltas-append n [] e = refl
set_deltas-append n (x ∷ es) e =
    ap (λ t. record x { deltas = count_delta x.kind n } ∷ t)
      (set_deltas-append (count_delta x.kind n) es e)

pub take-set_deltas :
    (k n : ℕ) (es : List Entry) → take k (set_deltas n es) ≡ set_deltas n (take k es)
unfolding set_deltas
take-set_deltas zero n es = refl
take-set_deltas (suc k) n [] = refl
take-set_deltas (suc k) n (e ∷ es) =
    ap (λ t. record e { deltas = count_delta e.kind n } ∷ t)
      (take-set_deltas k (count_delta e.kind n) es)

pub drop-set_deltas :
    (k n : ℕ) (es : List Entry)
    → drop k (set_deltas n es) ≡ set_deltas (deltas_after n (take k es)) (drop k es)
unfolding set_deltas deltas_after
drop-set_deltas zero n es = refl
drop-set_deltas (suc k) n [] = refl
drop-set_deltas (suc k) n (e ∷ es) = drop-set_deltas k (count_delta e.kind n) es

last_deltas_cons :
    (n : ℕ) (e : Entry) (es : List Entry)
    → last_deltas (set_deltas n (e ∷ es)) ≡ deltas_after n (e ∷ es)
unfolding set_deltas deltas_after
last_deltas_cons n e [] = refl
last_deltas_cons n e (f ∷ es) = last_deltas_cons (count_delta e.kind n) f es

pub last_deltas-set_deltas : (es : List Entry) → last_deltas (set_deltas 0 es) ≡ deltas_after 0 es
unfolding set_deltas deltas_after
last_deltas-set_deltas [] = refl
last_deltas-set_deltas (e ∷ es) = last_deltas_cons 0 e es

pub end_of-set_deltas : (n : ℕ) (es : List Entry) → end_of (set_deltas n es) ≡ end_of es
unfolding set_deltas
end_of-set_deltas n [] = refl
end_of-set_deltas n (e ∷ []) = refl
end_of-set_deltas n (e ∷ f ∷ es) = end_of-set_deltas (count_delta e.kind n) (f ∷ es)

pub first_off-set_deltas : (n : ℕ) (es : List Entry) → first_off (set_deltas n es) ≡ first_off es
unfolding set_deltas
first_off-set_deltas n [] = refl
first_off-set_deltas n (e ∷ es) = refl

module _ (crc : List ℕ → ℕ) (crc32 : (b : List ℕ) → IsU32 (crc b)) where
  -- The test of the order against the last entry is that against the last record.
  pub is_before-last :
      (t : ℤ) (n off : ℕ) (rs : List LogRecord)
      → is_before t (last_t (set_deltas n (entries_at crc crc32 off rs)))
        ≡ elim (last_record rs) [ none ↦ false | some p ↦ ltb_ℤ t (t_end p.meta) ]
  unfolding set_deltas entries_at entry_t_end t_end
  is_before-last t n off [] = refl
  is_before-last t n off (r ∷ []) = refl
  is_before-last t n off (r ∷ q ∷ rs) =
      is_before-last t (count_delta r.meta.kind n) (off + 32 + length r.payload) (q ∷ rs)

  pub drop-entries_at :
      (k off : ℕ) (rs : List LogRecord)
      → drop k (entries_at crc crc32 off rs)
        ≡ entries_at crc crc32 (off + length (blk_bytes crc crc32 (take k rs))) (drop k rs)
  unfolding entries_at blk_bytes
  drop-entries_at zero off rs = ap (λ o. entries_at crc crc32 o rs) (omega arith)
  drop-entries_at (suc k) off [] = refl
  drop-entries_at (suc k) off (r ∷ rs) =
      drop-entries_at k (off + 32 + length r.payload) rs
      ∙ ap (λ o. entries_at crc crc32 o (drop k rs))
          (omega (
            arith,
            length-append (record_bytes crc r) (blk_bytes crc crc32 (take k rs)),
            length-record_bytes crc crc32 r,
          ))
