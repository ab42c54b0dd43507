-- ===== src/Proto.antt =====
-- The wire protocol of crates/goz-core/src/proto.
pub mod Frame
pub mod Binary
