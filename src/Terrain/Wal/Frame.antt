-- ===== src/Terrain/Wal/Frame.antt =====
-- `decodeWALFrame` reads back what `appendWALFrame` wrote.
use time_shade_db.Prelude.{
  ℕ, zero, suc, ◌+◌, ◌*◌, ◌/◌, ◌≤◌, ◌<◌, ◌≡◌, refl, sym, ap, ◌∙◌, arith, leb, ltb, le→ltb_false,
  if◌then◌else◌, inl, inr, ◌⊎◌, Bool-cases,
}
use time_shade_db.Prelude.{
  Bool, true, false, Option, none, some, List, [], ◌∷◌, ◌++◌, All, map, length, length-append, drop,
  append_assoc, drop-append_self,
}
use time_shade_db.Prelude.Int.{ℤ, IsI32, IsI64, int32_id}
use time_shade_db.Prelude.Words.{IsU16, IsU32, get_u16, get_u16-put_u16}
use time_shade_db.Core.Image.{ChunkPixels}
use time_shade_db.Memstore.Terrain.{ChunkUpdate}
use time_shade_db.Terrain.Codec.Varint.{uvarint-put_uvarint, put_uvarint_nonempty}
use time_shade_db.Terrain.Codec.{put_uvarint, uvarint_groups}
use time_shade_db.Terrain.Wal.{
  WalUpdate, put_varint, put_pixels, get_pixels, put_chart, put_update, put_updates, put_raw,
  read_chart, read_update, read_updates, read_raw, zigzag, wal_max_raw, wal_max_payload,
  wal_frame_updates, decode_wal_frame,
}
use time_shade_db.Terrain.Wal.Varint.{varint-put_varint}

-- An update that can be logged: the ranges of its numbers, and pixels unless it is deleted.
pub record IsLoggable (u : ChunkUpdate) : Type 0 where
  pub t_is : IsI64 u.t
  pub x_is : IsI32 u.chunk.x
  pub y_is : IsI32 u.chunk.y
  pub chart_is :
      (u.deleted ≡ true)
      ⊎ ((u.deleted ≡ false)
          × ((px : ChunkPixels) × ((u.pixels ≡ some px) × ((i : ℕ) → IsU16 (px i)))))

-- The 1024 pixels of an update, all 0 if it is deleted.
abbrev pub logged_pixels : Bool → Option ChunkPixels → ChunkPixels
logged_pixels true px j = 0
logged_pixels false none j = 0
logged_pixels false (some px) j = if ltb j 1024 then px j else 0

-- What the log keeps of an update.
abbrev pub logged : ChunkUpdate → WalUpdate
logged u = record {
  t = u.t;
  chunk = u.chunk;
  deleted = u.deleted;
  px = logged_pixels u.deleted u.pixels;
}

length-put_pixels : (n i : ℕ) (px : ChunkPixels) → length (put_pixels n i px) ≡ 2 * n
unfolding put_pixels
length-put_pixels zero i px = refl
length-put_pixels (suc n) i px = omega (arith, length-put_pixels n (suc i) px)

get_u16-put_pixels :
    (n i j : ℕ) (px : ChunkPixels) (r : List ℕ)
    → ((k : ℕ) → IsU16 (px k))
    → j < n
    → get_u16 (drop (2 * j) (put_pixels n i px ++ r)) ≡ px (i + j)
unfolding put_pixels
get_u16-put_pixels zero i j px r h k = absurd (omega arith)
get_u16-put_pixels (suc n) i zero px r h k =
    get_u16-put_u16 (px i) (put_pixels n (suc i) px ++ r) (h i) ∙ ap px (omega arith)
get_u16-put_pixels (suc n) i (suc j) px r h k =
    ap (λ m. get_u16 (drop m (put_pixels (suc n) i px ++ r))) twice
    ∙ get_u16-put_pixels n (suc i) j px r h (omega arith)
    ∙ ap px (omega arith)
  where
    twice : 2 * suc j ≡ suc (suc (2 * j))
    twice = omega arith

get_pixels-put_pixels :
    (px : ChunkPixels) (r : List ℕ)
    → ((k : ℕ) → IsU16 (px k))
    → get_pixels (put_pixels 1024 0 px ++ r) ≡ logged_pixels false (some px)
unfolding get_pixels
get_pixels-put_pixels px r h = (λ i j. at_place j i)
  where
    at_place : (j : ℕ) → get_pixels (put_pixels 1024 0 px ++ r) j ≡ logged_pixels false (some px) j
    at_place j = elim (Bool-cases (ltb j 1024)) [
      | inl c ↦
          rw (get_pixels, c, get_u16-put_pixels 1024 0 j px r h (ground arith))
            (ap px (omega arith))
      | inr c ↦ rw (get_pixels, c) refl
    ]

-- The flags and pixels are read back, with what follows them.
read_chart-put_chart :
    (u : ChunkUpdate) (r : List ℕ)
    → IsLoggable u
    → read_chart u.t u.chunk (put_chart u.deleted u.pixels ++ r) ≡ some (logged u, r)
unfolding read_chart
read_chart-put_chart u r v = elim v.chart_is [
  | inl d ↦ rw (read_chart, d) refl
  | inr (d, (px, (e, h))) ↦
      let long =
        le→ltb_false (length (put_pixels 1024 0 px ++ r)) 2048
          (omega (arith, length-append (put_pixels 1024 0 px) r, length-put_pixels 1024 0 px)) in
      rw
        (
          read_chart,
          d,
          e,
          long,
          get_pixels-put_pixels px r h,
          ap (λ n. drop n (put_pixels 1024 0 px ++ r)) (sym (length-put_pixels 1024 0 px)),
          drop-append_self (put_pixels 1024 0 px) r,
        )
        refl
]

read_update-put_update :
    (u : ChunkUpdate) (r : List ℕ)
    → IsLoggable u
    → read_update (put_update u ++ r) ≡ some (logged u, r)
unfolding read_update put_update
read_update-put_update u r v =
    rw
      (
        split,
        read_update,
        varint-put_varint u.t after_t v.t_is,
        varint-put_varint u.chunk.x after_x (wide u.chunk.x v.x_is),
        varint-put_varint u.chunk.y after_y (wide u.chunk.y v.y_is),
        int32_id u.chunk.x v.x_is,
        int32_id u.chunk.y v.y_is,
      )
      (read_chart-put_chart u r v)
  where
    after_y : List ℕ
    after_y = put_chart u.deleted u.pixels ++ r

    after_x : List ℕ
    after_x = put_varint u.chunk.y ++ after_y

    after_t : List ℕ
    after_t = put_varint u.chunk.x ++ after_x

    wide : (z : ℤ) → IsI32 z → IsI64 z
    wide z (a, b) = (omega arith, omega arith)

    split : put_update u ++ r ≡ put_varint u.t ++ after_t
    split =
        append_assoc (put_varint u.t) _ r
        ∙ ap (λ t. put_varint u.t ++ t)
            (append_assoc (put_varint u.chunk.x) _ r
              ∙ ap (λ t. put_varint u.chunk.x ++ t)
                  (append_assoc (put_varint u.chunk.y) (put_chart u.deleted u.pixels) r))

read_updates-put_updates :
    (us : List ChunkUpdate)
    → All IsLoggable us
    → read_updates (length us) (put_updates us) ≡ some (map logged us)
unfolding read_updates put_updates
read_updates-put_updates [] h = refl
read_updates-put_updates (u ∷ us) (v, vs) =
    rw (read_updates, read_update-put_update u (put_updates us) v, read_updates-put_updates us vs)

length-put_updates : (us : List ChunkUpdate) → length us ≤ length (put_updates us)
unfolding put_updates put_update
length-put_updates [] = omega arith
length-put_updates (u ∷ us) =
    let (b, (bs, e)) = put_uvarint_nonempty (zigzag u.t) in
    omega (
      arith,
      length-put_updates us,
      length-append (put_update u) (put_updates us),
      ap length e,
      length-append (put_varint u.t)
          (put_varint u.chunk.x ++ (put_varint u.chunk.y ++ put_chart u.deleted u.pixels)),
    )

read_raw-put_raw :
    (us : List ChunkUpdate)
    → length us ≤ wal_frame_updates
    → All IsLoggable us
    → read_raw (put_raw us) ≡ some (map logged us)
unfolding read_raw
read_raw-put_raw us n h = rw (
  read_raw,
  uvarint-put_uvarint (length us) (put_updates us) (omega arith),
  le→ltb_false (length (put_raw us)) (length us) (
      omega
        (arith, length-put_updates us, length-append (put_uvarint (length us)) (put_updates us))),
  le→ltb_false wal_frame_updates (length us) n,
  read_updates-put_updates us h,
)

length-uvarint_groups : (fuel x : ℕ) → length (uvarint_groups fuel x) ≤ suc fuel
unfolding uvarint_groups
length-uvarint_groups zero x = omega arith
length-uvarint_groups (suc fuel) x = elim (Bool-cases (leb 128 x)) [
  | inl c ↦ rw (uvarint_groups, c) (omega (arith, length-uvarint_groups fuel (x / 128)))
  | inr c ↦ rw (uvarint_groups, c) (omega arith)
]

length-put_chart : (d : Bool) (px : Option ChunkPixels) → length (put_chart d px) ≤ 2049
length-put_chart true px = omega arith
length-put_chart false none = omega arith
length-put_chart false (some px) = omega (arith, length-put_pixels 1024 0 px)

length-put_update : (u : ChunkUpdate) → length (put_update u) ≤ 2079
unfolding put_update
length-put_update u =
    let after_x = put_varint u.chunk.y ++ put_chart u.deleted u.pixels in
    omega (
      arith,
      length-append (put_varint u.t) (put_varint u.chunk.x ++ after_x),
      length-append (put_varint u.chunk.x) after_x,
      length-append (put_varint u.chunk.y) (put_chart u.deleted u.pixels),
      length-put_chart u.deleted u.pixels,
      length-uvarint_groups 9 (zigzag u.t),
      length-uvarint_groups 9 (zigzag u.chunk.x),
      length-uvarint_groups 9 (zigzag u.chunk.y),
    )

length-put_updates_le : (us : List ChunkUpdate) → length (put_updates us) ≤ length us * 2079
unfolding put_updates
length-put_updates_le [] = omega arith
length-put_updates_le (u ∷ us) = omega (
  arith,
  length-append (put_update u) (put_updates us),
  length-put_update u,
  length-put_updates_le us,
)

-- The payload of at most 1024 updates has at most walMaxRaw bytes before compression.
pub length-put_raw :
    (us : List ChunkUpdate) → length us ≤ wal_frame_updates → length (put_raw us) ≤ wal_max_raw
length-put_raw us h = omega (
  arith,
  length-append (put_uvarint (length us)) (put_updates us),
  length-uvarint_groups 9 (length us),
  length-put_updates_le us,
)

-- What the log relies on: that `decode_all` gives back what `encode_all` made of a payload, which is
-- not empty and at most twice as long as the longest payload, and that a checksum has 32 bits.
pub record IsPacking (encode_all : List ℕ → List ℕ) (decode_all : List ℕ → Option (List ℕ))
    (crc : List ℕ → ℕ) : Type 0 where
  pub unpack : (raw : List ℕ) → length raw ≤ wal_max_raw → decode_all (encode_all raw) ≡ some raw
  pub some_bytes : (raw : List ℕ) → 0 < length (encode_all raw)
  pub few_bytes :
      (raw : List ℕ) → length raw ≤ wal_max_raw → length (encode_all raw) ≤ wal_max_payload
  pub crc32 : (b : List ℕ) → IsU32 (crc b)

-- A batch that `Apply` writes as one frame.
abbrev pub IsBatch : List ChunkUpdate → Type 0
IsBatch us = (length us ≤ wal_frame_updates) × All IsLoggable us

-- For at most 1024 updates in the ranges of their types, each deleted or with pixels, and a
-- `decode_all` that gives back what `encode_all` made of a payload: `decodeWALFrame` of the payload
-- that `appendWALFrame` makes of them gives every update, in order, with its time, its chunk, its
-- flag and its 1024 pixels (all 0 where deleted).
pub decode_wal_frame-encode_all :
    (encode_all : List ℕ → List ℕ) (decode_all : List ℕ → Option (List ℕ)) (crc : List ℕ → ℕ)
    (us : List ChunkUpdate)
    → IsPacking encode_all decode_all crc
    → IsBatch us
    → decode_wal_frame decode_all (encode_all (put_raw us)) ≡ some (map logged us)
unfolding decode_wal_frame
decode_wal_frame-encode_all encode_all decode_all crc us z (n, h) =
    rw (decode_wal_frame, z.unpack (put_raw us) (length-put_raw us n)) (read_raw-put_raw us n h)
