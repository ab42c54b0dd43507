-- ===== src/Output.antt =====
-- What crates/goz-core/src/output writes for a results page.
pub mod Csv
pub mod Filetime
