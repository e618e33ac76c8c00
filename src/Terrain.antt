-- ===== src/Terrain.antt =====
-- internal/terrain: the terrain store on disk.
pub mod Codec
pub mod Wal
pub mod Palette
pub mod Commit
pub mod Keyframe
