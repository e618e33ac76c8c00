-- ===== src/Series.antt =====
-- internal/series: the record logs on disk. A .blk file holds the records, each a 32-byte header
-- and a payload, and an .idx file a 24-byte index record for each.
pub mod Format
pub mod File
pub mod Versions
pub mod Example
