-- ===== src/Lib.antt =====
-- TimeShadeDB stores the charted terrain of Factorio maps over time. The world is cut into chunks
-- of 32 x 32 pixels and tiles of 16 x 16 chunks; each datastore (a map, surface and force) has a
-- sequence of versions per tile, one for each time window that changed it; coarse levels halve the
-- resolution. This library models the core package, on which every store and codec of the program
-- rests, the reference terrain store, which the disk store has to agree with, the record logs in
-- memory and on disk, the write-ahead log, the palette file and the blocks of the disk store, and the
-- codecs of palettes and of the tile header.
--
-- Parts, and the code that they model:
--   Core/Time      internal/core/time.go: FloorDiv and the time windows.
--   Core/Grid      internal/core/grid.go: chunk and tile coordinates, levels, pixel indices.
--   Core/Keys      internal/core/keys.go: keys, the escaping of names, ids and their parsers.
--   Core/Pixels    internal/core/pixels.go: RGB565 colours and the average of four; and the packed
--                  average of internal/pyramid/downsample.go.
--   Core/Image     internal/core/pixels.go: tile images, their blocks and Downsample; and downsample
--                  of internal/pyramid/downsample.go.
--   Memstore/Terrain   internal/core/memstore/terrain.go, with the types and errors of
--                  internal/core/terrain.go. Terrain.antt has the state and the operations up to
--                  Apply, Commit.antt has Commit, and Read.antt the reads. Versions, Closing,
--                  Accept, Grow and Steps prove what each operation keeps, Stable and Past what
--                  every run of operations keeps; Colours and Counts are about Apply alone.
--   Memstore/Series    internal/core/series.go and internal/core/memstore/series.go: record logs and
--                  the reference store of them. Append and Chain are about the operations of those
--                  names.
--   Wire/Palette   EncodePalette and DecodePalette of internal/core/wire/tile.go.
--   Wire/Header    the tile header of EncodeTile and DecodeTileHeader of the same file.
--   Series/Format  internal/series/format.go: the headers of records and the index records.
--   Series/File    internal/series/file.go and the methods of internal/series/series.go that read:
--                  one open series, its two files and its index. Recover has recover, Records has
--                  append and the reads. Layout, Whole, Index and Deltas have the lemmas on the
--                  bytes and the entries, Invariant what an open file keeps; Scan, Recovery,
--                  Reopen and Intact are about recover, Closing about close and the next
--                  recover, Attempts about the errors of append; Refines, Reading and Chain relate
--                  the file to the reference series.
--   Series/Versions    the methods of internal/series/series.go that serve the terrain store. Count is
--                  about VersionSeq, Probe about the search of the cache, Plans about PlanVersion;
--                  Example has the data of the tests.
--   Terrain/Codec  internal/terrain/codec.go: the delta blocks of a tile. Varint, Bitmap and RoundTrip
--                  are about reading what was written, Diff about diffChunk; Uvarint is that of
--                  encoding/binary.
--   Terrain/Keyframe   the keyframes of the same file.
--   Terrain/Commit     internal/terrain/store.go: what commitTile makes of one window of a tile, with
--                  maxIndex of internal/terrain/codec.go. Places and Apply are about the changes of
--                  one block, Window about those of all.
--   Terrain/Palette    internal/terrain/palette.go: the palette file. Table is about the lookup table,
--                  Adding about the loop of ensure, Ensure about the whole of it, Reopen about
--                  openPalette of a file that was cut.
--   Terrain/Wal    internal/terrain/wal.go: the write-ahead log. Wal.antt has the frames, Replay.antt
--                  replay, and Log.antt the operations and walBatch of internal/terrain/store.go.
--                  Frame reads frames back, Segment has the bytes of a segment, and Crash replays one
--                  that was cut. Kept has the invariant of a log, Append, Batches, Rotate and Horizon
--                  what the operations keep of it, and Listed which files the directory has. Reopen
--                  is about the replay of a whole log and Directory about openWAL after a crash.
--   Prelude        booleans, lists, integers and their words, bits, byte strings and maps.
-- The store calls the time windows to place an update and to move its horizon, the grid to find the
-- tile and block of a chunk, the keys to check a datastore, and the images to compare and to write
-- blocks. The names of the operations are those of the code in another spelling; ensure_datastore
-- is EnsureDatastore, find_tile is lookup, close_window the body of the loop over the windows.
--
-- State and errors. An operation of the store takes the store and returns a result beside the new
-- store; Outcome holds a value or one of the shared errors. The contexts and the locks are left
-- out, so a run is a sequence of whole operations. A Go map is an association list. An array of
-- fixed length is the function from its indices. Messages around the errors are left out.
--
-- Files. A file on disk is the list of its bytes. For series files the write of append may fail, as
-- its argument tells, and the other calls of package os succeed. For the log and the palette file
-- the faults of writes and of the calls that rotate makes are arguments, and a cut or a read within
-- an open file succeeds. A read beyond the end is an error. A
-- crash is taken to leave some first bytes of a file. The directory of the log is a map from
-- the numbers of its segments to their bytes. The checksum CRC-32C is a parameter, a function
-- from bytes to a uint32, and so are EncodeAll and DecodeAll of the zstd package: IsPacking states
-- that what was compressed comes back, is not empty, and is at most twice the largest payload.
--
-- Numbers. int8, int32 and int64 are integers with each wrap written out, unsigned words are
-- natural numbers below their bound. The theorems on windows take times below 2^62 in absolute
-- value and window lengths below 2^62, so that no window bound leaves an int64. The loop of
-- Ancestor runs on fuel 255, the number of steps between two int8 levels; its theorem proves that
-- it ends. The scan of recover runs on fuel, the length of the file, and each round takes at least
-- 32 bytes; walkDelta and replay of a segment run on the number of the bytes, of which each round
-- takes at least one, walBatch on the number of the updates, and Uvarint on the nine groups that
-- a uint64 has after the first. All other loops are structural.
--
-- Not modelled: TileAt and Contains, which take floats; the formatting of times; ListTiles and
-- Datastores of the reference terrain store and List of the series store; the handles, reference
-- counts and locks of open series files; the tiles, windows and spill files of the disk store; the
-- other stores and codecs, the servers and the clients.
pub mod Prelude
pub mod Core
pub mod Memstore
pub mod Wire
pub mod Series
pub mod Terrain
