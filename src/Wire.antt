-- ===== src/Wire.antt =====
-- internal/core/wire: the reference encoders and decoders of the wire formats. A body is the list
-- of its bytes. The palettes and the header of tiles are modelled.
pub mod Palette
pub mod Header
