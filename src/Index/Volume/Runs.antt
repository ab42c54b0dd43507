-- ===== src/Index/Volume/Runs.antt =====
-- crates/goz-core/src/index/volume.rs: a volume with one folder, `d`, below its root.
use goz.Prelude.{
  ℕ, List, get_elem?, sym, ◌∙◌, zero, suc, ◌+◌, ◌<◌, ◌≡◌, ◌↔◌, refl, true, false, none, some, [],
  ◌∷◌, arith,
}
use goz.Types.{Frn, EntryIdx, nil, record_number}
use goz.Fold.{Unicode}
use goz.Index.EntryTable.{
  dir, contains, size_unknown, mtime_unknown, fresh_slot, get_cell, is_dead, is_tombstone,
}
use goz.Index.FrnMap.{sparse, get, lookup}
use goz.Index.NameStore.{NamePair, raw_bytes, raw_bytes_in, raw_bytes_of, raw_offset, slice}
use goz.Index.Volume.{Host, VolumeIndex, DirRow, ntfs_root_frn, lost_found_frn, max_path_hops}
use goz.Index.Volume.Paths.{
  in_place, cycle_detected, path_of, head_if, head_of, child_dir, is_at_or_below,
}
use goz.Index.Volume.Paths.Below.{Below, is_at_or_below-Below}
use goz.Index.Volume.Paths.Rooted.{
  PathTo, at_root, first, deeper, Climbs, once, more, path_of-in_place, path_of-cycle,
}
use goz.Index.Volume.Paths.Scope.{Indexed, IsKeyed, HasName, HasOther, child_dir-HasName}

abbrev plain : Unicode
plain = record { decompose_canonical = λ c. c ∷ []; to_lowercase = λ c. c ∷ []; nfc = λ run. run }

abbrev host : Host
host = record { unicode = plain; dir_key_hash = λ name. 7 }

abbrev folder : Frn
folder = 0x0001_0000_0000_0020

abbrev pair_at : ℕ → ℕ → NamePair
pair_at off len = record {
  raw = record { off = 0x8000_0000 + off; len = len };
  folded = record { off = off; len = len };
}

-- Entry 2 is the folder, whose parent is an argument.
abbrev volume : EntryIdx → VolumeIndex
volume parent = record {
  entries = record {
    slots =
        fresh_slot ntfs_root_frn nil 0 dir size_unknown mtime_unknown nil
        ∷ fresh_slot lost_found_frn nil 0 dir size_unknown mtime_unknown nil
        ∷ fresh_slot folder parent 1 dir size_unknown mtime_unknown nil
        ∷ [];
    free = [];
    live = 3;
  };
  names = record {
    raw = [];
    folded = 0 ∷ 0x64 ∷ 0 ∷ [];
    pairs = pair_at 0 0 ∷ pair_at 1 1 ∷ [];
    refcount = 2 ∷ 1 ∷ [];
    head = nil ∷ nil ∷ [];
    by_bytes = 1 ∷ 0 ∷ [];
    garbage = 0;
    order = [];
    rank_of = nil ∷ nil ∷ [];
    unranked = [];
    dead_ranked = 0;
  };
  by_frn = sparse ((5, 0) ∷ (0x20, 2) ∷ []);
  root = 0;
  lost_found = 1;
  generation = 0;
  stats = record {
    placeholders_created = 0;
    delete_of_unknown = 0;
    rename_old_seen = 0;
    stale_slots = 0;
    link_reconciles_dropped = 0;
  };
  dirty = 0;
  dir_children = record { parent = parent; hash = 7; dirs = 2 ∷ [] } ∷ [];
  cycle_suspects = [];
}

is_at_or_below-Below_example :
    (is_at_or_below (volume 0) 2 0 ≡ some true)
    ↔ ((n : ℕ) × (n < max_path_hops) × Below (volume 0) 0 n 2)
is_at_or_below-Below_example = is_at_or_below-Below (volume 0) 2 0

-- Entry 3 is a folder of the same name within the folder.
abbrev nested : VolumeIndex
nested = record (volume 0) {
  entries = record {
    slots =
        fresh_slot ntfs_root_frn nil 0 dir size_unknown mtime_unknown nil
        ∷ fresh_slot lost_found_frn nil 0 dir size_unknown mtime_unknown nil
        ∷ fresh_slot folder 0 1 dir size_unknown mtime_unknown nil
        ∷ fresh_slot 0x21 2 1 dir size_unknown mtime_unknown nil
        ∷ [];
    free = [];
    live = 4;
  };
}

-- `d\d`
abbrev nested_path : List ℕ
nested_path = 0x64 ∷ 0x5C ∷ 0x64 ∷ []

nested_is_live : is_tombstone nested.entries 3 ≡ some false
unfolding is_tombstone is_dead contains fresh_slot
nested_is_live = refl

nested_PathTo : PathTo nested 2 3 nested_path
unfolding get_cell fresh_slot raw_bytes raw_bytes_in raw_bytes_of raw_offset slice
nested_PathTo =
    deeper 2 1 (0x64 ∷ []) (omega arith) (omega arith) refl refl refl
      (first 0 1 (0x64 ∷ []) (omega arith) (omega arith) refl refl refl (at_root refl refl))

path_of-in_place_example : path_of nested 3 [] ≡ some (in_place, nested_path)
path_of-in_place_example =
    path_of-in_place nested 2 3 nested_path nested_is_live (omega arith) (omega arith) nested_PathTo

loop_Climbs : (n : ℕ) → Climbs (volume 2).entries n 2
unfolding get_cell fresh_slot
loop_Climbs zero = once 2 (omega arith) refl
loop_Climbs (suc n) = more 2 (omega arith) refl (loop_Climbs n)

looped_is_live : is_tombstone (volume 2).entries 2 ≡ some false
unfolding is_tombstone is_dead contains fresh_slot
looped_is_live = refl

path_of-cycle_example : path_of (volume 2) 2 [] ≡ some (cycle_detected, [])
path_of-cycle_example = path_of-cycle (volume 2) 2 [] looped_is_live (loop_Climbs 4095)

one_row : (k : ℕ) (row : DirRow) → get_elem? (volume 0).dir_children k ≡ some row → k ≡ 0
one_row zero row e = refl
one_row (suc k) row e = absurd (ground (arith, e))

volume-IsKeyed : IsKeyed (volume 0).dir_children
volume-IsKeyed j k a b ea eb p q = one_row j a ea ∙ sym (one_row k b eb)

child_dir-HasName_example :
    ((d : EntryIdx)
      → child_dir host (volume 0) 0 (0x64 ∷ []) ≡ some (some d)
      → Indexed (volume 0).dir_children 0 7 d × HasName (volume 0) (0x64 ∷ []) d)
    × (child_dir host (volume 0) 0 (0x64 ∷ []) ≡ some none
        → (d : EntryIdx) → Indexed (volume 0).dir_children 0 7 d
        → HasOther (volume 0) (0x64 ∷ []) d)
child_dir-HasName_example = child_dir-HasName host (volume 0) 0 (0x64 ∷ []) volume-IsKeyed

folder_head : head_of (volume 0) folder ≡ some (some 2)
unfolding head_of head_if get lookup record_number get_cell fresh_slot
folder_head = refl

-- The record's next tenant.
abbrev other : Frn
other = 0x0002_0000_0000_0020

other_head : head_of (volume 0) other ≡ some none
unfolding head_of head_if get lookup record_number get_cell fresh_slot
other_head = refl
