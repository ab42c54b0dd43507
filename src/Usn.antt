-- ===== src/Usn.antt =====
-- The USN journal of crates/goz-core/src/usn: cursors, record buffers and the ops drawn from records.
pub mod Cursor
pub mod Reason
pub mod Record
pub mod Ops
