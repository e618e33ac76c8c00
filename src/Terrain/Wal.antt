-- ===== src/Terrain/Wal.antt =====
-- internal/terrain/wal.go: the frames of the write-ahead log. `crc` is CRC-32C, and `encode_all` and
-- `decode_all` are those of the zstd package. `Varint` and `AppendVarint` are those of
-- encoding/binary. Buffers that are reused are new lists.
pub mod Varint
pub mod Frame
pub mod Replay
pub mod Log
use time_shade_db.Prelude.{
  ℕ, zero, suc, ◌+◌, ◌-◌, ◌*◌, ◌/◌, ◌%◌, ◌^◌, ltb, ◌==◌, if◌then◌else◌, ◌||◌, get_or,
}
use time_shade_db.Prelude.{
  Bool, true, false, Option, none, some, List, [], ◌∷◌, ◌++◌, length, take, drop,
}
use time_shade_db.Prelude.Int.{ℤ, pos, negsuc, is_neg, bits64, int32}
use time_shade_db.Prelude.Words.{put_u16, put_u32, get_u16, get_u32}
use time_shade_db.Core.Grid.{ChunkCoord}
use time_shade_db.Core.Image.{ChunkPixels}
use time_shade_db.Memstore.Terrain.{ChunkUpdate}
use time_shade_db.Terrain.Codec.{put_uvarint, uvarint}

-- `walUpdate`
pub record WalUpdate : Type 0 where
  pub t : ℤ
  pub chunk : ChunkCoord
  pub deleted : Bool
  pub px : ChunkPixels

abbrev pub wal_frame_header : ℕ
wal_frame_header = 8

abbrev pub wal_frame_updates : ℕ
wal_frame_updates = 1024

-- Ten bytes is the longest varint, and 1024 the pixels of a chunk.
abbrev pub wal_max_raw : ℕ
wal_max_raw = 10 + wal_frame_updates * (3 * 10 + 1 + 2 * 1024)

abbrev pub wal_max_payload : ℕ
wal_max_payload = 2 * wal_max_raw

-- `binary.AppendVarint`: the bits shifted left, complemented for a negative number.
unfoldable pub zigzag : ℤ → ℕ
zigzag z = if is_neg z then 2 ^ 64 - 1 - bits64 z * 2 % 2 ^ 64 else bits64 z * 2 % 2 ^ 64

abbrev pub put_varint : ℤ → List ℕ
put_varint z = put_uvarint (zigzag z)

-- `binary.Varint`
unfoldable pub unzigzag : ℕ → ℤ
unzigzag u = if u % 2 == 0 then pos (u / 2) else negsuc (u / 2)

unfoldable pub varint : List ℕ → Option (ℤ × List ℕ)
varint p = elim (uvarint p) [ none ↦ none | some (u, r) ↦ some (unzigzag u, r) ]

-- The pixels from number i on, n of them.
unfoldable pub put_pixels : ℕ → ℕ → ChunkPixels → List ℕ
put_pixels zero i px = []
put_pixels (suc n) i px = put_u16 (px i) ++ put_pixels n (suc i) px

-- The rest of an update that is not deleted has pixels: a nil pointer does not get into the log.
abbrev pub put_chart : Bool → Option ChunkPixels → List ℕ
put_chart true px = 1 ∷ []
put_chart false none = 0 ∷ []
put_chart false (some px) = 0 ∷ put_pixels 1024 0 px

unfoldable pub put_update : ChunkUpdate → List ℕ
put_update u =
    put_varint u.t
    ++ (put_varint u.chunk.x ++ (put_varint u.chunk.y ++ put_chart u.deleted u.pixels))

unfoldable pub put_updates : List ChunkUpdate → List ℕ
put_updates [] = []
put_updates (u ∷ us) = put_update u ++ put_updates us

-- The payload before it is compressed.
abbrev pub put_raw : List ChunkUpdate → List ℕ
put_raw ups = put_uvarint (length ups) ++ put_updates ups

-- The array of 1024 pixels at the front of a buffer.
unfoldable pub get_pixels : List ℕ → ChunkPixels
get_pixels buf j = if ltb j 1024 then get_u16 (drop (2 * j) buf) else 0

-- The flags, and the pixels unless deleted.
unfoldable pub read_chart : ℤ → ChunkCoord → List ℕ → Option (WalUpdate × List ℕ)
read_chart t chunk [] = none
read_chart t chunk (flags ∷ buf) =
    if flags % 2 == 1
    then some (record { t = t; chunk = chunk; deleted = true; px = λ j. 0 }, buf)
    else (if ltb (length buf) 2048
        then none
        else some
            (record { t = t; chunk = chunk; deleted = false; px = get_pixels buf }, drop 2048 buf))

-- One round of `decodeWALFrame`.
unfoldable pub read_update : List ℕ → Option (WalUpdate × List ℕ)
read_update buf = elim (varint buf) [
  | none ↦ none
  | some (t, b1) ↦ elim (varint b1) [
    | none ↦ none
    | some (x, b2) ↦ elim (varint b2) [
      | none ↦ none
      | some (y, b3) ↦ read_chart t (record { x = int32 x; y = int32 y }) b3
    ]
  ]
]

-- The loop of `decodeWALFrame`; what follows the last update is left.
unfoldable pub read_updates : ℕ → List ℕ → Option (List WalUpdate)
read_updates zero buf = some []
read_updates (suc n) buf = elim (read_update buf) [
  | none ↦ none
  | some (u, rest) ↦ elim (read_updates n rest) [ none ↦ none | some us ↦ some (u ∷ us) ]
]

-- `decodeWALFrame` after decompression.
unfoldable pub read_raw : List ℕ → Option (List WalUpdate)
read_raw raw = elim (uvarint raw) [
  | none ↦ none
  | some (n, buf) ↦
      if ltb (length raw) n || ltb wal_frame_updates n then none else read_updates n buf
]

-- `decodeWALFrame`
unfoldable pub decode_wal_frame : (List ℕ → Option (List ℕ)) → List ℕ → Option (List WalUpdate)
decode_wal_frame decode_all payload = elim (decode_all payload) [
  | none ↦ none
  | some raw ↦ read_raw raw
]

-- The frame that `appendWALFrame` appends.
unfoldable pub put_frame : (List ℕ → List ℕ) → (List ℕ → ℕ) → List ChunkUpdate → List ℕ
put_frame encode_all crc ups =
    let p = encode_all (put_raw ups) in put_u32 (length p) ++ (put_u32 (crc p) ++ p)

-- `appendWALFrame`
abbrev pub append_wal_frame : (List ℕ → List ℕ) → (List ℕ → ℕ) → List ℕ → List ChunkUpdate → List ℕ
append_wal_frame encode_all crc dst ups = dst ++ put_frame encode_all crc ups
