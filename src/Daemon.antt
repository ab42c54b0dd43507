-- ===== src/Daemon.antt =====
-- The daemon of crates/goz-daemon.
pub mod Pulse
pub mod Registry
