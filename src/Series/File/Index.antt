-- ===== src/Series/File/Index.antt =====
-- What `recover` takes from the front of an index file.
use time_shade_db.Prelude.{
  ℕ, zero, suc, ◌-◌, ◌*◌, ◌≤◌, ◌<◌, ◌≡◌, refl, sym, ◌∙◌, arith, leb, inl, inr, Bool-cases,
  Option-cases,
}
use time_shade_db.Prelude.{some, List, [], ◌∷◌, All, length, take, take-append_past, get_elem?}
use time_shade_db.Prelude.Int.{ℤ}
use time_shade_db.Series.Format.{Entry, entry_end, entry_t_end, put_index}
use time_shade_db.Series.Format.RoundTrip.{IsEntry, parse_index-put_index, length-put_index}
use time_shade_db.Series.File.{parse_entries, linked_count, index_bytes}
use time_shade_db.Series.File.Recover.{drop_bad}

-- An index record that fits and holds no count of deltas, as it is read.
abbrev pub IsStored : Entry → Type 0
IsStored e = IsEntry e × (e.deltas ≡ 0)

no_deltas : (e : Entry) → e.deltas ≡ 0 → record e { deltas = 0 } ≡ e
no_deltas e h = λ i. record e { deltas = sym h i }

-- Of the front of an index file, all whole records are read.
pub parse_entries-take :
    (n j : ℕ) (es : List Entry)
    → All IsStored es
    → n * 24 ≤ j
    → n ≤ length es
    → parse_entries n (take j (index_bytes es)) ≡ take n es
unfolding parse_entries index_bytes put_index
parse_entries-take zero j es s h k = refl
parse_entries-take (suc n) j [] s h k = absurd (omega arith)
parse_entries-take (suc n) j (e ∷ es) ((v, d), ss) h k =
    rw
      (take-append_past j (j - 24) (put_index e) (index_bytes es)
        (omega (arith, length-put_index e)))
      (λ i.
        (parse_index-put_index e (take (j - 24) (index_bytes es)) v ∙ no_deltas e d) i
        ∷ parse_entries-take n (j - 24) es ss (omega arith) (omega arith) i)

pub linked_count_le :
    (prev_end : ℕ) (prev_t : ℤ) (es : List Entry) → linked_count prev_end prev_t es ≤ length es
unfolding linked_count
linked_count_le prev_end prev_t [] = omega arith
linked_count_le prev_end prev_t (e ∷ es) =
    let rest = linked_count_le (entry_end e) (entry_t_end e) es in ground arith

module _ (crc : List ℕ → ℕ) where
  pub drop_bad_le : (blk : List ℕ) (es : List Entry) (n : ℕ) → drop_bad crc blk es n ≤ n
  unfolding drop_bad
  drop_bad_le blk es zero = omega arith
  drop_bad_le blk es (suc n) =
      let rest = drop_bad_le blk es n in
      elim (Option-cases (get_elem? es n)) [
        | inl q ↦ rw (drop_bad, q) (omega arith)
        | inr (e, q) ↦ rw (drop_bad, q) (ground arith)
      ]

  -- No index record that is kept ends beyond the other file.
  pub drop_bad_within :
      (blk : List ℕ) (es : List Entry) (bound n : ℕ)
      → ((i : ℕ) (e : Entry) → bound ≤ i → get_elem? es i ≡ some e → length blk < entry_end e)
      → drop_bad crc blk es n ≤ bound
  unfolding drop_bad
  drop_bad_within blk es bound zero h = omega arith
  drop_bad_within blk es bound (suc n) h =
      let rest = drop_bad_within blk es bound n h in
      elim (Option-cases (get_elem? es n)) [
        | inl q ↦ rw (drop_bad, q) rest
        | inr (e, q) ↦ elim (Bool-cases (leb bound n)) [
          | inl c ↦ let beyond = h n e (ground arith) q in rw (drop_bad, q) (ground arith)
          | inr c ↦ rw (drop_bad, q) (ground arith)
        ]
      ]
