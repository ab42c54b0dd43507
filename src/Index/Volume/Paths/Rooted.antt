-- ===== src/Index/Volume/Paths/Rooted.antt =====
-- crates/goz-core/src/index/volume.rs: `path_of` of an entry below the root, and in a cycle.
use goz.Prelude.{
  ℕ, zero, suc, ◌<◌, ◌≡◌, ◌≢◌, refl, false, some, List, [], ◌∷◌, ◌++◌, ◌==◌, eq→==, ne→==_false,
  arith,
}
use goz.Prelude.Options.{>>=-some}
use goz.Types.{EntryIdx, nil}
use goz.Index.EntryTable.{EntryTable, get_cell, is_tombstone}
use goz.Index.NameStore.{raw_bytes}
use goz.Index.Volume.{VolumeIndex, max_path_hops}
use goz.Index.Volume.Paths.{
  in_place, cycle_detected, climb, last_or, emit_name, emit, finish_path, path_of,
}

-- The path of an entry `n` links below the root: its name alone where its parent has the empty path,
-- as the root has, and else the path of its parent, a backslash and its name.
pub data PathTo (v : VolumeIndex) : ℕ → EntryIdx → List ℕ → Type 0 where
  at_root :
      {i : EntryIdx}
      → i ≡ v.root
      → get_cell (λ s. s.parent) v.entries i ≡ some nil
      → PathTo v zero i []
  first :
      {n : ℕ} {i : EntryIdx} (p id : EntryIdx) (name : List ℕ)
      → i ≢ v.root
      → p ≢ nil
      → get_cell (λ s. s.parent) v.entries i ≡ some p
      → get_cell (λ s. s.name_id) v.entries i ≡ some id
      → raw_bytes v.names id ≡ some name
      → PathTo v n p []
      → PathTo v (suc n) i name
  deeper :
      {n : ℕ} {b : ℕ} {above : List ℕ} {i : EntryIdx} (p id : EntryIdx) (name : List ℕ)
      → i ≢ v.root
      → p ≢ nil
      → get_cell (λ s. s.parent) v.entries i ≡ some p
      → get_cell (λ s. s.name_id) v.entries i ≡ some id
      → raw_bytes v.names id ≡ some name
      → PathTo v n p (b ∷ above)
      → PathTo v (suc n) i (b ∷ above ++ 0x5C ∷ name)

-- From the entry, `n` parent links and one more lead to no end.
pub data Climbs (t : EntryTable) : ℕ → EntryIdx → Type 0 where
  once :
      {i : EntryIdx} (p : EntryIdx)
      → p ≢ nil
      → get_cell (λ s. s.parent) t i ≡ some p
      → Climbs t zero i
  more :
      {n : ℕ} {i : EntryIdx} (p : EntryIdx)
      → p ≢ nil
      → get_cell (λ s. s.parent) t i ≡ some p
      → Climbs t n p
      → Climbs t (suc n) i

climb_stop :
    (t : EntryTable) (hops : ℕ) (i : EntryIdx)
    → get_cell (λ s. s.parent) t i ≡ some nil
    → climb t (suc hops) i ≡ some (i ∷ [], nil)
unfolding climb
climb_stop t zero i h = >>=-some _ _ nil h refl
climb_stop t (suc hops) i h = >>=-some _ _ nil h refl

climb_on :
    (t : EntryTable) (hops : ℕ) (i p : EntryIdx) (chain : List EntryIdx) (above : EntryIdx)
    → get_cell (λ s. s.parent) t i ≡ some p
    → p ≢ nil
    → climb t (suc hops) p ≡ some (chain, above)
    → climb t (suc (suc hops)) i ≡ some (i ∷ chain, above)
unfolding climb
climb_on t hops i p chain above h ne e =
    >>=-some _ _ p h (rw (ne→==_false p nil ne) (>>=-some _ _ (chain, above) e refl))

-- What the two loops of `path_of` do along such a path.
Walks : VolumeIndex → ℕ → EntryIdx → EntryIdx → List ℕ → Type 0
Walks v hops i d out =
    (chain : List EntryIdx) × (climb v.entries hops i ≡ some (chain, nil))
    × (emit v chain [] ≡ some out)
    × (last_or d chain ≡ v.root)

Walks-child :
    (v : VolumeIndex) (hops : ℕ) (i d p id : EntryIdx) (name above : List ℕ)
    → i ≢ v.root
    → p ≢ nil
    → get_cell (λ s. s.parent) v.entries i ≡ some p
    → get_cell (λ s. s.name_id) v.entries i ≡ some id
    → raw_bytes v.names id ≡ some name
    → Walks v (suc hops) p i above
    → Walks v (suc (suc hops)) i d (emit_name above name)
unfolding Walks emit last_or
Walks-child v hops i d p id name above ne np pa na nm (chain, c, e, l) = (
  i ∷ chain,
  climb_on v.entries hops i p chain nil pa np c,
  >>=-some _ _ above e
      (rw (ne→==_false i v.root ne) (>>=-some _ _ id na (>>=-some _ _ name nm refl))),
  l,
)

climb-PathTo :
    (v : VolumeIndex) (n hops : ℕ) (i d : EntryIdx) (out : List ℕ)
    → n < hops
    → PathTo v n i out
    → Walks v hops i d out
unfolding Walks emit emit_name last_or
climb-PathTo v n zero i d out lt h = absurd (omega arith)
climb-PathTo v _ (suc hops) i d _ lt (at_root e top) =
    (i ∷ [], climb_stop v.entries hops i top, rw (eq→== i v.root e) refl, e)
climb-PathTo v _ (suc zero) i d _ lt (first {n} p id name ne np pa na nm h) = absurd (omega arith)
climb-PathTo v _ (suc zero) i d _ lt (deeper {n} p id name ne np pa na nm h) = absurd (omega arith)
climb-PathTo v _ (suc (suc hops)) i d _ lt (first {n} p id name ne np pa na nm h) =
    let walks = climb-PathTo v n (suc hops) p i [] (omega (arith, lt)) h in
    Walks-child v hops i d p id name [] ne np pa na nm walks
climb-PathTo v _ (suc (suc hops)) i d _ lt (deeper {n} {b} {above} p id name ne np pa na nm h) =
    let walks = climb-PathTo v n (suc hops) p i (b ∷ above) (omega (arith, lt)) h in
    Walks-child v hops i d p id name (b ∷ above) ne np pa na nm walks

-- The path of a live entry fewer than 4096 links below the root, where that is not lost+found, is the
-- names of the entries on the way from the root, which itself gives none, with a backslash before each
-- that is not the first to be written; and it is in its place.
pub path_of-in_place :
    (v : VolumeIndex) (n : ℕ) (i : EntryIdx) (out : List ℕ)
    → is_tombstone v.entries i ≡ some false
    → v.root ≢ v.lost_found
    → n < max_path_hops
    → PathTo v n i out
    → path_of v i [] ≡ some (in_place, out)
unfolding path_of finish_path Walks
path_of-in_place v n i out live ne lt h =
    let (chain, c, e, l) = climb-PathTo v n max_path_hops i i out lt h in
    let apart : (last_or i chain == v.lost_found) ≡ false =
      ne→==_false (last_or i chain) v.lost_found (λ z. ne (ground (arith, l, z))) in
    >>=-some _ _ false live (>>=-some _ _ (chain, nil) c (>>=-some _ _ out e (rw apart refl)))

climb-Climbs :
    (t : EntryTable) (n : ℕ) (i : EntryIdx)
    → Climbs t n i
    → (chain : List EntryIdx) × (above : EntryIdx) × (climb t (suc n) i ≡ some (chain, above))
      × (above ≢ nil)
unfolding climb
climb-Climbs t _ i (once p ne pa) = (i ∷ [], p, >>=-some _ _ p pa refl, ne)
climb-Climbs t _ i (more {n} p ne pa h) =
    let (chain, above, c, na) = climb-Climbs t n p h in
    (i ∷ chain, above, climb_on t n i p chain above pa ne c, na)

finish_path-cycle :
    (v : VolumeIndex) (chain : List EntryIdx) (above i : EntryIdx) (out : List ℕ)
    → above ≢ nil
    → finish_path v (chain, above) i out ≡ some (cycle_detected, out)
unfolding finish_path
finish_path-cycle v chain above i out na = rw (ne→==_false above nil na, finish_path) refl

-- A live entry from which 4096 parent links lead to no end, as in a cycle, has no path: `path_of` says
-- so, writes nothing, and does not walk on.
pub path_of-cycle :
    (v : VolumeIndex) (i : EntryIdx) (out : List ℕ)
    → is_tombstone v.entries i ≡ some false
    → Climbs v.entries 4095 i
    → path_of v i out ≡ some (cycle_detected, out)
unfolding path_of finish_path
path_of-cycle v i out live h =
    let (chain, above, c, na) = climb-Climbs v.entries 4095 i h in
    >>=-some _ _ false live
      (>>=-some _ _ (chain, above) c (finish_path-cycle v chain above i out na))
