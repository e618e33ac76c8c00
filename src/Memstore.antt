-- ===== src/Memstore.antt =====
-- internal/core/memstore: the in-memory stores, which the documentation of the store interfaces
-- names as their executable definition. The mutexes are not modelled: an operation is one step.
pub mod Terrain
pub mod Series
