-- ===== src/Core.antt =====
-- internal/core
pub mod Time
pub mod Grid
pub mod Keys
pub mod Pixels
pub mod Image
