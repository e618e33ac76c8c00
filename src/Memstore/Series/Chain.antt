-- ===== src/Memstore/Series/Chain.antt =====
-- `Chain` of a series: a base record and what follows it, up to a time.
use time_shade_db.Prelude.{
  ℕ, zero, suc, ◌-◌, ◌≤◌, ◌<◌, ◌≡◌, refl, sym, ap, ◌∙◌, subst, arith, true, false, ◌==◌, ==_iff,
  Bool-cases, inl, inr, ◌⊎◌, some, List, [], ◌∷◌, ◌++◌, All, All-append,
}
use time_shade_db.Prelude.{
  length, length-append, take, drop, get_elem?, take-append_self, drop-append_self, append_assoc,
}
use time_shade_db.Prelude.Int.{ℤ, ◌≤ℤ◌, ◌<ℤ◌, ltb_ℤ}
use time_shade_db.Memstore.Series.{
  LogRecord, Series, reply, t_end, is_base, search_end, base_below, is_base_at, chain,
}
use time_shade_db.Memstore.Series.Append.{IsLog, IsSeries}

-- No record after the first is a base record.
abbrev pub NoBase : List LogRecord → Type 0
NoBase rs = All (λ r. is_base r.meta.kind ≡ false) rs

-- The records of a chain start at a base record, the last one of those in time, or at record 0.
abbrev pub IsHeaded : List LogRecord → List LogRecord → Type 0
IsHeaded before [] = before ≡ []
IsHeaded before (r ∷ rs) = ((before ≡ []) ⊎ (is_base r.meta.kind ≡ true)) × NoBase rs

-- What `Chain` returns at a time: a run of the records, headed as above, of those that are
-- effective by the time all from the head on.
pub record IsChainAt (t : ℤ) (recs out : List LogRecord) : Type 0 where
  pub before : List LogRecord
  pub after : List LogRecord
  pub whole : recs ≡ before ++ (out ++ after)
  pub headed : IsHeaded before out
  pub in_time : All (λ r. t_end r.meta ≤ℤ t) (before ++ out)
  pub late : All (λ r. t <ℤ t_end r.meta) after

-- The records in time, which the search counts, and the rest.
record IsCut (t : ℤ) (n : ℕ) (recs : List LogRecord) : Type 0 where
  early : List LogRecord
  rest : List LogRecord
  cut : recs ≡ early ++ rest
  count : length early ≡ n
  in_time : All (λ r. t_end r.meta ≤ℤ t) early
  late : All (λ r. t <ℤ t_end r.meta) rest

All-late :
    (t : ℤ) (n : ℕ) (r : LogRecord) (rs : List LogRecord)
    → IsLog n (r ∷ rs)
    → t <ℤ t_end r.meta
    → All (λ q. t <ℤ t_end q.meta) (r ∷ rs)
All-late t n r [] l h = (h, tt)
All-late t n r (q ∷ rs) l h = (h, All-late t (suc n) q rs l.2 (omega (arith, h, l.1)))

IsLog-tail : (n : ℕ) (r : LogRecord) (rs : List LogRecord) → IsLog n (r ∷ rs) → IsLog (suc n) rs
IsLog-tail n r [] l = tt
IsLog-tail n r (q ∷ rs) l = l.2

search_end-IsCut :
    (t : ℤ) (n : ℕ) (recs : List LogRecord) → IsLog n recs → IsCut t (search_end t recs) recs
unfolding search_end
search_end-IsCut t n [] l = record {
  early = [];
  rest = [];
  cut = refl;
  count = refl;
  in_time = tt;
  late = tt;
}
search_end-IsCut t n (r ∷ rs) l = elim (Bool-cases (ltb_ℤ t (t_end r.meta))) [
  | inl s ↦ rw s (record {
    early = [];
    rest = r ∷ rs;
    cut = refl;
    count = refl;
    in_time = tt;
    late = All-late t n r rs l (ground arith);
  })
  | inr s ↦
      let c = search_end-IsCut t (suc n) rs (IsLog-tail n r rs l) in
      rw s (record {
        early = r ∷ c.early;
        rest = c.rest;
        cut = ap (λ x. r ∷ x) c.cut;
        count = ap suc c.count;
        in_time = (ground arith, c.in_time);
        late = c.late;
      })
]

-- The records of a prefix before the start that the loop finds, and those from it on.
record IsSplit (n : ℕ) (start : ℕ) (recs : List LogRecord) : Type 0 where
  before : List LogRecord
  out : List LogRecord
  parts : take n recs ≡ before ++ out
  start_is : length before ≡ start
  headed : IsHeaded before out

get_elem?-in :
    (i : ℕ) (recs : List LogRecord)
    → i < length recs
    → (r : LogRecord) × (get_elem? recs i ≡ some r) × (take (suc i) recs ≡ take i recs ++ (r ∷ []))
get_elem?-in i [] h = absurd (omega arith)
get_elem?-in zero (r ∷ rs) h = (r, refl, refl)
get_elem?-in (suc i) (q ∷ rs) h =
    let (r, e, f) = get_elem?-in i rs (omega arith) in (r, e, ap (λ x. q ∷ x) f)

length-take_lt : (i : ℕ) (recs : List LogRecord) → i ≤ length recs → length (take i recs) ≡ i
length-take_lt zero recs h = refl
length-take_lt (suc i) [] h = absurd (omega arith)
length-take_lt (suc i) (r ∷ rs) h = ap suc (length-take_lt i rs (omega arith))

IsHeaded-next :
    (before out : List LogRecord) (r : LogRecord)
    → is_base r.meta.kind ≡ false
    → IsHeaded before out
    → IsHeaded before (out ++ (r ∷ []))
IsHeaded-next before [] r k h = (inl h, tt)
IsHeaded-next before (q ∷ rs) r k h =
    (h.0, All-append (λ x. is_base x.meta.kind ≡ false) rs (r ∷ []) h.1 (k, tt))

is_base_at_eq :
    (i : ℕ) (recs : List LogRecord) (r : LogRecord)
    → get_elem? recs i ≡ some r
    → is_base_at i recs ≡ is_base r.meta.kind
unfolding is_base_at
is_base_at_eq i recs r e = rw (is_base_at, e)

base_below-IsSplit :
    (n : ℕ) (recs : List LogRecord) → n ≤ length recs → IsSplit n (base_below n recs) recs
unfolding base_below
base_below-IsSplit zero recs h = record {
  before = [];
  out = [];
  parts = refl;
  start_is = refl;
  headed = refl;
}
base_below-IsSplit (suc n) recs h =
    let (r, e, f) = get_elem?-in n recs (omega arith) in
    let s = base_below-IsSplit n recs (omega arith) in
    elim (Bool-cases (is_base r.meta.kind)) [
      | inl k ↦
          rw (is_base_at_eq n recs r e, k)
            (record {
              before = take n recs;
              out = r ∷ [];
              parts = f;
              start_is = length-take_lt n recs (omega arith);
              headed = (inr k, tt);
            })
      | inr k ↦
          rw (is_base_at_eq n recs r e, k)
            (record {
              before = s.before;
              out = s.out ++ (r ∷ []);
              parts = f ∙ rw s.parts (append_assoc s.before s.out (r ∷ []));
              start_is = s.start_is;
              headed = IsHeaded-next s.before s.out r k s.headed;
            })
    ]

length-nil : (rs : List LogRecord) → length rs ≡ 0 → rs ≡ []
length-nil [] h = refl
length-nil (r ∷ rs) h = absurd (omega (arith, h))

-- The slice of `Chain`, where the records are before ++ out ++ after.
slice_eq :
    (n start : ℕ) (recs before out after : List LogRecord)
    → recs ≡ before ++ (out ++ after)
    → length before ≡ start
    → length (before ++ out) ≡ n
    → take (n - start) (drop start recs) ≡ out
slice_eq n start recs before out after e b l =
    rw (e, ← b, drop-append_self before (out ++ after), long) (take-append_self out after)
  where
    long : n - length before ≡ length out
    long = omega (arith, l, length-append before out)

chain_eq :
    (t : ℤ) (s : Series) (out : List LogRecord)
    → s.closed ≡ false
    → (search_end t s.recs ≡ 0 → out ≡ [])
    → take
        (search_end t s.recs - base_below (search_end t s.recs) s.recs)
        (drop (base_below (search_end t s.recs) s.recs) s.recs)
      ≡ out
    → chain t s ≡ reply out
unfolding chain
chain_eq t s out c z e = elim (Bool-cases (search_end t s.recs == 0)) [
  | inl b ↦ rw (chain, c, b) (ap reply (sym (z ((==_iff _ _).0 b))))
  | inr b ↦ rw (chain, c, b) (ap reply e)
]

-- In a series that is not closed and whose records are in order, `Chain` returns records, which are
-- a run of those of the series: they start at the last base record that is effective by the time,
-- or at record 0 where there is none, and go on to the last record that is effective by the time.
pub chain-IsChainAt :
    (t : ℤ) (s : Series)
    → s.closed ≡ false
    → IsSeries s
    → (out : List LogRecord) × (chain t s ≡ reply out) × IsChainAt t s.recs out
unfolding chain
chain-IsChainAt t s open_now h =
    let n = search_end t s.recs in
    let c = search_end-IsCut t 0 s.recs h in
    let small : n ≤ length s.recs =
      omega (arith, c.count, ap length c.cut, length-append c.early c.rest) in
    let sp = base_below-IsSplit n s.recs small in
    let early_is : c.early ≡ sp.before ++ sp.out =
      sym (
        ap (take n) c.cut
        ∙ ap (λ m. take m (c.early ++ c.rest)) (sym c.count)
        ∙ take-append_self c.early c.rest)
      ∙ sp.parts in
    let whole : s.recs ≡ sp.before ++ (sp.out ++ c.rest) =
      c.cut ∙ rw early_is (append_assoc sp.before sp.out c.rest) in
    let count : length (sp.before ++ sp.out) ≡ n = ap length (sym early_is) ∙ c.count in
    (
      sp.out,
      chain_eq t s sp.out open_now
          (λ z. length-nil sp.out (omega (arith, z, count, length-append sp.before sp.out)))
          (slice_eq n (base_below n s.recs) s.recs sp.before sp.out c.rest whole sp.start_is count),
      record {
        before = sp.before;
        after = c.rest;
        whole = whole;
        headed = sp.headed;
        in_time = subst (λ x. All (λ r. t_end r.meta ≤ℤ t) x) early_is c.in_time;
        late = c.late;
      },
    )
