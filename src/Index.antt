-- ===== src/Index.antt =====
-- The per-volume index of crates/goz-core/src/index.
pub mod FrnMap
pub mod EntryTable
pub mod NameStore
pub mod Children
pub mod Volume
