-- ===== src/Index/Volume/Paths/Below.antt =====
-- crates/goz-core/src/index/volume.rs: `is_at_or_below`.
use goz.Prelude.{
  ℕ, zero, suc, ◌<◌, ◌≡◌, ◌≢◌, inl, inr, refl, Bool, true, false, ◌||◌, some, ◌==◌, eq→==, ==→eq,
  ne→==_false, ==_false→ne, Bool-cases, arith, ◌↔◌,
}
use goz.Prelude.Options.{>>=-some, >>=-inv}
use goz.Types.{EntryIdx, nil}
use goz.Index.EntryTable.{get_cell}
use goz.Index.Volume.{VolumeIndex, max_path_hops}
use goz.Index.Volume.Paths.{below_within, is_at_or_below}

-- From `node`, `n` parent links lead to `ancestor`, and no entry on the way is a root.
pub data Below (v : VolumeIndex) (ancestor : EntryIdx) : ℕ → EntryIdx → Type 0 where
  at_it : {node : EntryIdx} → node ≡ ancestor → Below v ancestor zero node
  up :
      {n : ℕ} {node : EntryIdx} (p : EntryIdx)
      → node ≢ ancestor
      → node ≢ nil
      → node ≢ v.root
      → node ≢ v.lost_found
      → get_cell (λ s. s.parent) v.entries node ≡ some p
      → Below v ancestor n p
      → Below v ancestor (suc n) node

-- The stop of the walk.
at_top : VolumeIndex → EntryIdx → Bool
at_top v node = (node == nil) || ((node == v.root) || (node == v.lost_found))

at_top_false :
    (v : VolumeIndex) (node : EntryIdx)
    → ((node == nil) || ((node == v.root) || (node == v.lost_found))) ≡ false
    → (node ≢ nil) × (node ≢ v.root) × (node ≢ v.lost_found)
at_top_false v node h = (ground (arith, h), ground (arith, h), ground (arith, h))

not_at_top :
    (v : VolumeIndex) (node : EntryIdx)
    → node ≢ nil
    → node ≢ v.root
    → node ≢ v.lost_found
    → ((node == nil) || ((node == v.root) || (node == v.lost_found))) ≡ false
not_at_top v node a b c = ground (arith, a, b, c)

below_within-found :
    (v : VolumeIndex) (ancestor : EntryIdx) (hops : ℕ) (node : EntryIdx)
    → below_within v hops node ancestor ≡ some true
    → (n : ℕ) × (n < hops) × Below v ancestor n node
unfolding below_within
below_within-found v ancestor zero node h = absurd (ground (arith, h))
below_within-found v ancestor (suc hops) node h = elim (Bool-cases (node == ancestor)) [
  | inl e ↦ (zero, omega arith, at_it (==→eq node ancestor e))
  | inr e ↦ elim (Bool-cases ((node == nil) || ((node == v.root) || (node == v.lost_found)))) [
    | inl top ↦ absurd (ground (arith, rw (e, top) at h))
    | inr inside ↦
        let (p, pa, rest) = >>=-inv _ _ (rw (e, inside) at h) in
        let (n, lt, b) = below_within-found v ancestor hops p rest in
        let (a, r, l) = at_top_false v node inside in
        (suc n, omega (arith, lt), up p (==_false→ne node ancestor e) a r l pa b)
  ]
]

below_within_complete :
    (v : VolumeIndex) (ancestor : EntryIdx) (hops n : ℕ) (node : EntryIdx)
    → n < hops
    → Below v ancestor n node
    → below_within v hops node ancestor ≡ some true
unfolding below_within
below_within_complete v ancestor zero n node lt b = absurd (omega arith)
below_within_complete v ancestor (suc hops) _ node lt (at_it e) = rw (eq→== node ancestor e) refl
below_within_complete v ancestor (suc hops) _ node lt (up {n} p ne a r l pa b) =
    rw (ne→==_false node ancestor ne, not_at_top v node a r l)
      (>>=-some _ _ p pa (below_within_complete v ancestor hops n p (omega (arith, lt)) b))

-- `is_at_or_below` answers yes exactly where fewer than 4096 parent links lead from the node to the
-- ancestor, the walk passing neither the root nor lost+found before it gets there.
pub is_at_or_below-Below :
    (v : VolumeIndex) (node ancestor : EntryIdx)
    → (is_at_or_below v node ancestor ≡ some true)
      ↔ ((n : ℕ) × (n < max_path_hops) × Below v ancestor n node)
unfolding is_at_or_below
is_at_or_below-Below v node ancestor = (
  below_within-found v ancestor max_path_hops node,
  λ (n, lt, b). below_within_complete v ancestor max_path_hops n node lt b,
)
