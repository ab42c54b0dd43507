-- ===== src/Index/Children/Chain.antt =====
-- crates/goz-core/src/index/volume.rs: segments of a child chain, and what one write does to them.
pub mod Quiet
pub mod Link
pub mod Unlink
pub mod Move
mod Runs
use goz.Prelude.{ℕ, ◌≡◌, ◌≢◌, refl, sym, ap, ◌∙◌, some, List, [], ◌∷◌, ◌++◌, All, arith}
use goz.Types.{EntryIdx, nil}
use goz.Index.EntryTable.{Slot, EntryTable, get_cell}
use goz.Index.Children.Cells.{Wrote, get_cell_ne, get_cell_keep, get_cell_hit}

abbrev pub ParentOf : EntryTable → EntryIdx → EntryIdx → Type 0
ParentOf t i p = get_cell (λ s. s.parent) t i ≡ some p

abbrev pub PrevOf : EntryTable → EntryIdx → EntryIdx → Type 0
PrevOf t i j = get_cell (λ s. s.prev_child) t i ≡ some j

abbrev pub NextOf : EntryTable → EntryIdx → EntryIdx → Type 0
NextOf t i j = get_cell (λ s. s.next_child) t i ≡ some j

-- From `cur`, whose predecessor is `prev`, the cells of the children of `p` lead through `xs` to
-- `stop`; the last entry passed, or `prev`, is `last`.
abbrev pub Seg :
    EntryTable → EntryIdx → EntryIdx → EntryIdx → List EntryIdx → EntryIdx → EntryIdx → Type 0
Seg t p prev cur [] last stop = (prev ≡ last) × (cur ≡ stop)
Seg t p prev cur (x ∷ xs) last stop =
    (cur ≡ x)
    × (x ≢ nil)
    × ParentOf t x p
    × PrevOf t x prev
    × (next : EntryIdx) × NextOf t x next
    × Seg t p x next xs last stop

-- The children of `p`, in the order of its chain.
abbrev pub Children : EntryTable → EntryIdx → List EntryIdx → Type 0
Children t p xs =
    (first : EntryIdx) × (last : EntryIdx) × (get_cell (λ s. s.first_child) t p ≡ some first)
    × Seg t p nil first xs last nil

abbrev pub NoDup : List EntryIdx → Type 0
NoDup [] = Unit
NoDup (x ∷ xs) = All (λ y. x ≢ y) xs × NoDup xs

-- A write that changes no link or parent of a child leaves every segment.
abbrev pub Plain : (Slot → Slot) → Type 0
Plain f =
    (s : Slot)
    → ((f s).parent ≡ s.parent)
      × ((f s).prev_child ≡ s.prev_child)
      × ((f s).next_child ≡ s.next_child)

module _ (f : Slot → Slot) (i : EntryIdx) (t t' : EntryTable) (w : Wrote f i t t') where
  pub Seg-Plain :
      Plain f
      → (p prev cur : EntryIdx) (xs : List EntryIdx) (last stop : EntryIdx)
      → Seg t p prev cur xs last stop
      → Seg t' p prev cur xs last stop
  Seg-Plain k p prev cur [] last stop h = h
  Seg-Plain k p prev cur (x ∷ xs) last stop (e, ne, pa, pr, next, nx, rest) = (
    e,
    ne,
    get_cell_keep (λ s. s.parent) f i t t' w (λ s. (k s).0) x ∙ pa,
    get_cell_keep (λ s. s.prev_child) f i t t' w (λ s. (k s).1) x ∙ pr,
    next,
    get_cell_keep (λ s. s.next_child) f i t t' w (λ s. (k s).2) x ∙ nx,
    Seg-Plain k p x next xs last stop rest,
  )

  -- So does a write to an entry that the segment does not pass.
  pub Seg-elsewhere :
      (p prev cur : EntryIdx) (xs : List EntryIdx) (last stop : EntryIdx)
      → All (λ x. i ≢ x) xs
      → Seg t p prev cur xs last stop
      → Seg t' p prev cur xs last stop
  Seg-elsewhere p prev cur [] last stop out h = h
  Seg-elsewhere p prev cur (x ∷ xs) last stop out (e, ne, pa, pr, next, nx, rest) = (
    e,
    ne,
    get_cell_ne (λ s. s.parent) f i t t' w x out.0 ∙ pa,
    get_cell_ne (λ s. s.prev_child) f i t t' w x out.0 ∙ pr,
    next,
    get_cell_ne (λ s. s.next_child) f i t t' w x out.0 ∙ nx,
    Seg-elsewhere p x next xs last stop out.1 rest,
  )

-- The first entry of a segment is given another predecessor.
pub Seg-first_prev :
    (q x : EntryIdx) (t t' : EntryTable)
    → Wrote (λ s. record s { prev_child = q }) x t t'
    → (p prev cur : EntryIdx) (xs : List EntryIdx) (last stop : EntryIdx) → All (λ y. x ≢ y) xs
    → Seg t p prev cur (x ∷ xs) last stop
    → Seg t' p q cur (x ∷ xs) last stop
Seg-first_prev q x t t' w p prev cur xs last stop out (e, ne, pa, pr, next, nx, rest) =
    let f : Slot → Slot = λ s. record s { prev_child = q } in
    (
      e,
      ne,
      get_cell_keep (λ s. s.parent) f x t t' w (λ s. refl) x ∙ pa,
      get_cell_hit (λ s. s.prev_child) f x t t' w q (λ s. refl),
      next,
      get_cell_keep (λ s. s.next_child) f x t t' w (λ s. refl) x ∙ nx,
      Seg-elsewhere f x t t' w p x next xs last stop out rest,
    )

-- The last entry of a segment that passes one is among those passed.
pub last_ne :
    (t : EntryTable) (p prev cur i x : EntryIdx) (xs : List EntryIdx) (last stop : EntryIdx)
    → All (λ y. i ≢ y) (x ∷ xs)
    → Seg t p prev cur (x ∷ xs) last stop
    → last ≢ i
last_ne t p prev cur i x [] last stop out (e, ne, pa, pr, next, nx, (el, es)) =
    λ same. out.0 (sym same ∙ sym el)
last_ne t p prev cur i x (y ∷ ys) last stop out (e, ne, pa, pr, next, nx, rest) =
    last_ne t p x next i y ys last stop out.1 rest

-- The last entry of a segment is given another successor.
pub Seg-last_next :
    (m : EntryIdx) (t t' : EntryTable)
    → (p prev cur x : EntryIdx) (xs : List EntryIdx) (last stop : EntryIdx)
    → Wrote (λ s. record s { next_child = m }) last t t'
    → NoDup (x ∷ xs)
    → Seg t p prev cur (x ∷ xs) last stop
    → Seg t' p prev cur (x ∷ xs) last m
Seg-last_next m t t' p prev cur x [] last stop w nd (e, ne, pa, pr, next, nx, (el, es)) =
    let f : Slot → Slot = λ s. record s { next_child = m } in
    (
      e,
      ne,
      get_cell_keep (λ s. s.parent) f last t t' w (λ s. refl) x ∙ pa,
      get_cell_keep (λ s. s.prev_child) f last t t' w (λ s. refl) x ∙ pr,
      m,
      ap (get_cell (λ s. s.next_child) t') el
          ∙ get_cell_hit (λ s. s.next_child) f last t t' w m (λ s. refl),
      (el, refl),
    )
Seg-last_next m t t' p prev cur x (y ∷ ys) last stop w nd (e, ne, pa, pr, next, nx, rest) =
    let f : Slot → Slot = λ s. record s { next_child = m } in
    let out : last ≢ x = last_ne t p x next x y ys last stop nd.0 rest in
    (
      e,
      ne,
      get_cell_keep (λ s. s.parent) f last t t' w (λ s. refl) x ∙ pa,
      get_cell_keep (λ s. s.prev_child) f last t t' w (λ s. refl) x ∙ pr,
      next,
      get_cell_ne (λ s. s.next_child) f last t t' w x out ∙ nx,
      Seg-last_next m t t' p x next y ys last stop w nd.1 rest,
    )

-- Two segments that meet are one, and back.
pub Seg-join :
    (t : EntryTable) (p prev cur : EntryIdx) (xs ys : List EntryIdx) (l m last stop : EntryIdx)
    → Seg t p prev cur xs l m
    → Seg t p l m ys last stop
    → Seg t p prev cur (xs ++ ys) last stop
Seg-join t p prev cur [] ys l m last stop (e, d) k = rw (e, d) k
Seg-join t p prev cur (x ∷ xs) ys l m last stop (e, ne, pa, pr, next, nx, rest) k =
    (e, ne, pa, pr, next, nx, Seg-join t p x next xs ys l m last stop rest k)

pub Seg-split :
    (t : EntryTable) (p prev cur : EntryIdx) (xs ys : List EntryIdx) (last stop : EntryIdx)
    → Seg t p prev cur (xs ++ ys) last stop
    → (l : EntryIdx) × (m : EntryIdx) × Seg t p prev cur xs l m × Seg t p l m ys last stop
Seg-split t p prev cur [] ys last stop h = (prev, cur, (refl, refl), h)
Seg-split t p prev cur (x ∷ xs) ys last stop (e, ne, pa, pr, next, nx, rest) =
    let (l, m, a, b) = Seg-split t p x next xs ys last stop rest in
    (l, m, (e, ne, pa, pr, next, nx, a), b)

-- An entry of another parent is on no segment of this one.
pub Seg-other_parent :
    (t : EntryTable) (p q i prev cur : EntryIdx) (xs : List EntryIdx) (last stop : EntryIdx)
    → ParentOf t i p
    → q ≢ p
    → Seg t q prev cur xs last stop
    → All (λ x. i ≢ x) xs
Seg-other_parent t p q i prev cur [] last stop pi ne h = tt
Seg-other_parent t p q i prev cur (x ∷ xs) last stop pi ne (e, n, pa, pr, next, nx, rest) = (
  λ same.
      let g : some q ≡ some p = sym pa ∙ sym (ap (get_cell (λ s. s.parent) t) same) ∙ pi in
      ne (ground (arith, g)),
  Seg-other_parent t p q i x next xs last stop pi ne rest,
)
