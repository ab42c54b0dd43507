-- ===== src/Query/Engine/Scope.antt =====
-- crates/goz-core/src/query/engine.rs: whether an entry is below the folder of a search, with a memo of
-- the entries that earlier walks passed. An entry out of range panics, which is `none`.
pub mod Exact
mod Runs
use goz.Prelude.{
  ℕ, zero, suc, Bool, true, false, Option, none, some, List, [], ◌∷◌, ◌==◌, if◌then◌else◌,
}
use goz.Prelude.Options.{◌>>=◌}
use goz.Types.{EntryIdx, nil}
use goz.Index.EntryTable.{EntryTable, get_cell}

abbrev pub Memo : Type 0
Memo = List (EntryIdx × Bool)

unfoldable pub recall : EntryIdx → Memo → Option Bool
recall e [] = none
recall e (known ∷ memo) = if e == known.0 then some known.1 else recall e memo

-- `for e in chain { memo.insert(e, verdict) }`
unfoldable pub remember : List EntryIdx → Bool → Memo → Memo
remember [] verdict memo = memo
remember (e ∷ chain) verdict memo = remember chain verdict ((e, verdict) ∷ memo)

-- The most entries that a walk passes before it is taken for a cycle.
abbrev pub scope_hops : ℕ
scope_hops = 4096

-- The loop with the entries that it may still pass: its verdict and the entries it passed.
unfoldable pub scope_walk :
    EntryTable → EntryIdx → Memo → ℕ → EntryIdx → Option (Bool × List EntryIdx)
scope_walk t root memo zero cur = some (false, [])
scope_walk t root memo (suc left) cur = elim (cur == root) [
  | true ↦ some (true, [])
  | false ↦ elim (recall cur memo) as (λ _. Option (Bool × List EntryIdx)) [
    | some verdict ↦ some (verdict, [])
    | none ↦ do
      parent ← get_cell (λ s. s.parent) t cur
      elim (parent == nil) [
        | true ↦ some (false, [])
        | false ↦ do above ← scope_walk t root memo left parent; some (above.0, cur ∷ above.1)
      ]
  ]
]

-- The guard stops after one entry more than `hops`.
unfoldable pub in_scope_within : ℕ → EntryTable → EntryIdx → EntryIdx → Memo → Option (Bool × Memo)
in_scope_within hops t node root memo = elim (node == root) [
  | true ↦ some (false, memo)
  | false ↦ do r ← scope_walk t root memo (suc hops) node; some (r.0, remember r.1 r.0 memo)
]

unfoldable pub in_scope : EntryTable → EntryIdx → EntryIdx → Memo → Option (Bool × Memo)
in_scope t node root memo = in_scope_within scope_hops t node root memo
