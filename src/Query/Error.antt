-- ===== src/Query/Error.antt =====
-- crates/goz-core/src/query/parse.rs: why a query is refused. The text of a detail is left out.
use goz.Prelude.{ℕ, List}

-- Which function's value is malformed.
pub data Malformed : Type 0 where
  size_value date_value case_value matchpath_value : Malformed

pub data QueryError : Type 0 where
  unsupported_operator : ℕ → QueryError
  malformed : Malformed → QueryError
  too_many_terms : ℕ → QueryError
  unknown_function : List ℕ → QueryError
  no_clock : QueryError
