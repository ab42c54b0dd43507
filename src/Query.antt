-- ===== src/Query.antt =====
-- The search of crates/goz-core/src/query.
pub mod Budget
pub mod Error
pub mod Dates
pub mod Wildcard
pub mod Parse
pub mod Engine
