-- ===== src/Memstore/Terrain/Versions.antt =====
-- The versions of one tile: they are in time order, they rebuild the current content, and closing
-- windows only appends to them.
use time_shade_db.Prelude.{ℕ, ◌-◌, ◌^◌, ◌≤◌, ◌<◌, ◌≡◌, refl, sym, ap, ◌∙◌, arith}
use time_shade_db.Prelude.{List, [], ◌∷◌, ◌++◌, All, All-append, append-nil, append_assoc}
use time_shade_db.Prelude.Int.{ℤ, pos, negsuc, pos_part, neg_part, ◌*ℤ◌, ◌≤ℤ◌, ◌<ℤ◌}
use time_shade_db.Prelude.Maps.{Entries, int_Eq}
use time_shade_db.Core.Image.{Image, new_tile_image}
use time_shade_db.Memstore.Terrain.{CommittedVersion, ChunkDelta, TerrainTile}
use time_shade_db.Memstore.Terrain.Commit.{apply_deltas, add_version}
use time_shade_db.Memstore.Terrain.Read.{replay}

-- The effective times do not fall, and none is before b.
abbrev pub Ascending : ℤ → List CommittedVersion → Type 0
Ascending b [] = Unit {0}
Ascending b (v ∷ vs) = (b ≤ℤ v.eff) × Ascending v.eff vs

abbrev pub UpTo : ℤ → List CommittedVersion → Type 0
UpTo h vs = All (λ v. v.eff ≤ℤ h) vs

pub UpTo-mono : (g h : ℤ) (vs : List CommittedVersion) → g ≤ℤ h → UpTo g vs → UpTo h vs
UpTo-mono g h [] le u = tt
UpTo-mono g h (v ∷ vs) le u = (omega (arith, u.0), UpTo-mono g h vs le u.1)

Ascending-append :
    (b e : ℤ) (vs : List CommittedVersion) (ds : List ChunkDelta)
    → b ≤ℤ e
    → Ascending b vs
    → UpTo e vs
    → Ascending b (vs ++ (record { eff = e; deltas = ds } ∷ []))
Ascending-append b e [] ds le a u = (le, tt)
Ascending-append b e (v ∷ vs) ds le a u = (a.0, Ascending-append v.eff e vs ds u.0 a.1 u.1)

pub replay-append :
    (vs us : List CommittedVersion) (im : Image) → replay (vs ++ us) im ≡ replay us (replay vs im)
unfolding replay
replay-append [] us im = refl
replay-append (v ∷ vs) us im = replay-append vs us (apply_deltas v.deltas im)

-- The least of the int64 times, which an Ascending list of versions starts from.
abbrev pub start : ℤ
start = negsuc (2 ^ 63 - 1)

-- A multiple of the window length at which a window may start.
pub record IsStart (w : ℕ) (ws : ℤ) : Type 0 where
  pub factor : ℤ
  pub start_is : ws ≡ factor *ℤ pos w
  pub low : neg_part ws ≤ 2 ^ 63
  pub high : pos_part ws < 2 ^ 62

-- A tile of a datastore with window length w and committed horizon h.
pub record IsTile (w : ℕ) (h : ℤ) (tl : TerrainTile) : Type 0 where
  pub replayed : tl.current ≡ replay tl.versions new_tile_image
  pub ascending : Ascending start tl.versions
  pub committed : UpTo h tl.versions
  pub opened : Entries (λ ws _. IsStart w ws × (h ≤ℤ ws)) tl.windows

-- The versions that an operation appends to a tile at horizon h are effective after h, up to h'.
abbrev pub Later : ℤ → ℤ → List CommittedVersion → Type 0
Later h h' vs = All (λ v. (h <ℤ v.eff) × (v.eff ≤ℤ h')) vs

pub Later-append :
    (h h' : ℤ) (vs us : List CommittedVersion)
    → Later h h' vs
    → Later h h' us
    → Later h h' (vs ++ us)
Later-append h h' vs us a b = All-append (λ v. (h <ℤ v.eff) × (v.eff ≤ℤ h')) vs us a b

-- What closing windows does to a tile, from bound b on the effective times up to b'.
pub record Extends (h h' : ℤ) (tl tl' : TerrainTile) : Type 0 where
  pub more : List CommittedVersion
  pub versions_are : tl'.versions ≡ tl.versions ++ more
  pub later : Later h h' more

pub Extends-refl : (h h' : ℤ) (tl : TerrainTile) → Extends h h' tl tl
Extends-refl h h' tl = record { more = []; versions_are = sym (append-nil tl.versions); later = tt }

pub Extends-trans :
    (h h' : ℤ) (a b c : TerrainTile) → Extends h h' a b → Extends h h' b c → Extends h h' a c
Extends-trans h h' a b c x y = record {
  more = x.more ++ y.more;
  versions_are = y.versions_are ∙ rw x.versions_are (append_assoc a.versions x.more y.more);
  later = Later-append h h' x.more y.more x.later y.later;
}

-- The part of the invariant that closing windows moves: all but the horizon of the open windows.
pub record IsChain (e : ℤ) (tl : TerrainTile) : Type 0 where
  pub replayed : tl.current ≡ replay tl.versions new_tile_image
  pub ascending : Ascending start tl.versions
  pub committed : UpTo e tl.versions

pub add_version-IsChain :
    (b e h h' : ℤ) (ds : List ChunkDelta) (tl : TerrainTile)
    → IsChain b tl
    → b ≤ℤ e
    → start ≤ℤ e
    → h <ℤ e
    → e ≤ℤ h'
    → IsChain e (add_version e ds tl) × Extends h h' tl (add_version e ds tl)
unfolding add_version
add_version-IsChain b e h h' [] tl c be se he eh = (
  record {
    replayed = c.replayed;
    ascending = c.ascending;
    committed = UpTo-mono b e tl.versions be c.committed;
  },
  Extends-refl h h' tl,
)
add_version-IsChain b e h h' (d ∷ ds) tl c be se he eh =
    let v : CommittedVersion = record { eff = e; deltas = d ∷ ds } in
    (
      record {
        replayed =
            ap (apply_deltas (d ∷ ds)) c.replayed
            ∙ sym (unfold replay in replay-append tl.versions (v ∷ []) new_tile_image);
        ascending =
            Ascending-append start e tl.versions (d ∷ ds) se c.ascending
              (UpTo-mono b e tl.versions be c.committed);
        committed =
            All-append (λ u. u.eff ≤ℤ e) tl.versions (v ∷ [])
              (UpTo-mono b e tl.versions be c.committed) (omega arith, tt);
      },
      record { more = v ∷ []; versions_are = refl; later = ((he, eh), tt) },
    )
