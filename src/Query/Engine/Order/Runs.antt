-- ===== src/Query/Engine/Order/Runs.antt =====
-- crates/goz-core/src/query/engine.rs: three files with one key, of which two share a name.
use goz.Prelude.{ℕ, All, ◌+◌, ◌≡◌, refl, some, List, [], ◌∷◌, ◌==◌, if◌then◌else◌}
use goz.Types.{EntryIdx, SortSpec, nil, name, desc}
use goz.Index.EntryTable.{Slot, fresh_slot, get_cell, size_unknown, mtime_unknown}
use goz.Index.NameStore.{NamePair, folded_bytes_of, folded_in, slice}
use goz.Index.FrnMap.{sparse}
use goz.Index.Volume.{VolumeIndex}
use goz.Query.Engine.Order.{Candidate, cmp_candidate, folded_name, order_top}
use goz.Query.Engine.Order.Top.{Page, order_top-Page}
use goz.Query.Engine.Order.Insertion.{
  insertion, insertion_select, insertion-Sorts, insertion_select-Selects,
}

abbrev entry : ℕ → Slot
entry name_id = fresh_slot 9 nil name_id 0 size_unknown mtime_unknown nil

abbrev pair_at : ℕ → NamePair
pair_at off = record {
  raw = record { off = 0x8000_0000 + off; len = 1 };
  folded = record { off = off; len = 1 };
}

-- Entries 0 and 2 are called `b`, and entry 1 is called `a`.
abbrev volume : VolumeIndex
volume = record {
  entries = record { slots = entry 0 ∷ entry 1 ∷ entry 0 ∷ []; free = []; live = 3 };
  names = record {
    raw = [];
    folded = 0x62 ∷ 0x61 ∷ [];
    pairs = pair_at 0 ∷ pair_at 1 ∷ [];
    refcount = 2 ∷ 1 ∷ [];
    head = nil ∷ nil ∷ [];
    by_bytes = 1 ∷ 0 ∷ [];
    garbage = 0;
    order = [];
    rank_of = nil ∷ nil ∷ [];
    unranked = [];
    dead_ranked = 0;
  };
  by_frn = sparse [];
  root = 0;
  lost_found = 1;
  generation = 0;
  stats = record {
    placeholders_created = 0;
    delete_of_unknown = 0;
    rename_old_seen = 0;
    stale_slots = 0;
    link_reconciles_dropped = 0;
  };
  dirty = 0;
  dir_children = [];
  cycle_suspects = [];
}

abbrev names : EntryIdx → List ℕ
names idx = if idx == 1 then 0x61 ∷ [] else 0x62 ∷ []

abbrev found : EntryIdx → Candidate
found idx = record { idx = idx; key = 5 }

abbrev candidates : List Candidate
candidates = found 2 ∷ found 0 ∷ found 1 ∷ []

abbrev name_down : SortSpec
name_down = record { key = name; dir = desc }

names_given : All (λ a. folded_name volume a.idx ≡ some (names a.idx)) candidates
unfolding folded_name get_cell fresh_slot folded_bytes_of folded_in slice
names_given = (refl, (refl, (refl, tt)))

order_top-Page_example :
    Page candidates 2
      (order_top insertion insertion insertion_select volume candidates name_down 2)
      (insertion (cmp_candidate volume name_down) candidates)
order_top-Page_example =
    order_top-Page insertion insertion insertion_select insertion-Sorts insertion-Sorts
      insertion_select-Selects volume name_down names candidates names_given 2
