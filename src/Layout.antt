-- ===== src/Layout.antt =====
-- crates/goz-core/src/layout/parse.rs: what a FILE_LAYOUT record says of a file.
pub mod Parse
use goz.Prelude.{ℕ, Bool, Option, List}
use goz.Prelude.Int.{ℤ}
use goz.Types.{Frn}

pub record LayoutName : Type 0 where
  pub parent_frn : Frn
  pub name : List ℕ
  pub name_lossy : Bool
  pub dos_only : Bool

pub record LayoutFile : Type 0 where
  pub frn : Frn
  pub attributes : ℕ
  pub size : Option ℕ
  pub mtime_ft : Option ℤ
  pub names : List LayoutName
