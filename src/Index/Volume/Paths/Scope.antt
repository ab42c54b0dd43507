-- ===== src/Index/Volume/Paths/Scope.antt =====
-- crates/goz-core/src/index/volume.rs: lookups by reference number and by folded name.
use goz.Prelude.{
  ℕ, zero, suc, get_elem?, subst, ◌&&◌, ◌≡◌, ◌≢◌, inl, inr, refl, sym, ap, All, ◌∙◌, Bool, true,
  false, Option, none, some, List, [], ◌∷◌, ◌==◌, ==→eq, if◌then◌else◌, Bool-cases, arith,
}
use mathlib.Core.Option.{some-injective}
use goz.Prelude.Options.{>>=-inv}
use goz.Types.{Frn, EntryIdx, record_number}
use goz.Wtf8.Lossy.{same_bytes}
use goz.Index.EntryTable.{EntryTable, get_cell, NameId}
use goz.Index.NameStore.{folded_bytes_of}
use goz.Index.NameStore.Slices.{same_bytes_eq, same_bytes_refl}
use goz.Index.FrnMap.{get}
use goz.Index.Volume.{Host, VolumeIndex, DirRow}
use goz.Index.Volume.Paths.{head_if, head_of, find_row, find_dir, child_dir}

-- The entry has the folded name.
abbrev pub HasName : VolumeIndex → List ℕ → EntryIdx → Type 0
HasName v name d =
    (id : NameId) × (bytes : List ℕ) × (get_cell (λ s. s.name_id) v.entries d ≡ some id)
    × (folded_bytes_of v.names id ≡ some bytes)
    × (bytes ≡ name)

abbrev pub HasOther : VolumeIndex → List ℕ → EntryIdx → Type 0
HasOther v name d =
    (id : NameId) × (bytes : List ℕ) × (get_cell (λ s. s.name_id) v.entries d ≡ some id)
    × (folded_bytes_of v.names id ≡ some bytes)
    × (bytes ≢ name)

abbrev Among : EntryIdx → List EntryIdx → Type 0
Among d dirs = (j : ℕ) × (get_elem? dirs j ≡ some d)

-- The directory stands in a row of the parent and the hash.
abbrev pub Indexed : List DirRow → EntryIdx → ℕ → EntryIdx → Type 0
Indexed rows parent hash d =
    (k : ℕ) × (row : DirRow) × (get_elem? rows k ≡ some row)
    × (row.parent ≡ parent)
    × (row.hash ≡ hash)
    × Among d row.dirs

-- No two rows have one key, as in a hash map.
abbrev pub IsKeyed : List DirRow → Type 0
IsKeyed rows =
    (j k : ℕ) (a b : DirRow)
    → get_elem? rows j ≡ some a
    → get_elem? rows k ≡ some b
    → a.parent ≡ b.parent
    → a.hash ≡ b.hash
    → j ≡ k

same_bytes_ne : (a b : List ℕ) → same_bytes a b ≡ false → a ≢ b
same_bytes_ne a b h e =
    let g : same_bytes a b ≡ true = rw e (same_bytes_refl b) in ground (arith, g, h)

find_dir-found :
    (v : VolumeIndex) (name : List ℕ) (dirs : List EntryIdx) (d : EntryIdx)
    → find_dir v name dirs ≡ some (some d)
    → Among d dirs × HasName v name d
unfolding find_dir
find_dir-found v name [] d h = absurd (ground (arith, h))
find_dir-found v name (e ∷ dirs) d h =
    let (id, na, rest) = >>=-inv _ _ h in
    let (bytes, b, k) = >>=-inv _ _ rest in
    elim (Bool-cases (same_bytes bytes name)) [
      | inl same ↦
          let there : e ≡ d = ground (arith, rw same at k) in
          (
            (0, ap some there),
            (
              id,
              bytes,
              ap (get_cell (λ s. s.name_id) v.entries) (sym there) ∙ na,
              b,
              same_bytes_eq bytes name same,
            ),
          )
      | inr other ↦
          let ((j, m), f) = find_dir-found v name dirs d (rw other at k) in ((suc j, m), f)
    ]

not_picked :
    (b : Bool) (e : EntryIdx) (rest : Option (Option EntryIdx))
    → (if b then some (some e) else rest) ≡ some none
    → (b ≡ false) × (rest ≡ some none)
not_picked true e rest h = absurd (ground (arith, h))
not_picked false e rest h = (refl, h)

find_dir-none :
    (v : VolumeIndex) (name : List ℕ) (dirs : List EntryIdx)
    → find_dir v name dirs ≡ some none
    → All (HasOther v name) dirs
unfolding find_dir
find_dir-none v name [] h = tt
find_dir-none v name (e ∷ dirs) h =
    let (id, na, more) = >>=-inv (get_cell (λ s. s.name_id) v.entries e) _ h in
    let (bytes, b, k) = >>=-inv (folded_bytes_of v.names id) _ more in
    let (other, rest) = not_picked (same_bytes bytes name) e (find_dir v name dirs) k in
    ((id, bytes, na, b, same_bytes_ne bytes name other), find_dir-none v name dirs rest)

key_true :
    (row : DirRow) (parent hash : ℕ)
    → (row.parent == parent) && (row.hash == hash) ≡ true
    → (row.parent ≡ parent) × (row.hash ≡ hash)
key_true row parent hash h = (ground (arith, h), ground (arith, h))

find_row-Indexed :
    (rows : List DirRow) (parent hash d : ℕ)
    → Among d (find_row parent hash rows)
    → Indexed rows parent hash d
unfolding find_row
find_row-Indexed [] parent hash d (j, h) = absurd (ground (arith, h))
find_row-Indexed (row ∷ rows) parent hash d (j, h) =
    elim (Bool-cases ((row.parent == parent) && (row.hash == hash))) [
      | inl same ↦
          let (p, q) = key_true row parent hash same in (0, row, refl, p, q, (j, rw same at h))
      | inr other ↦
          let (k, r, e, p, q, m) = find_row-Indexed rows parent hash d (j, rw other at h) in
          (suc k, r, e, p, q, m)
    ]

IsKeyed-tail : (row : DirRow) (rows : List DirRow) → IsKeyed (row ∷ rows) → IsKeyed rows
IsKeyed-tail row rows keyed j k a b ea eb p h = omega (arith, keyed (suc j) (suc k) a b ea eb p h)

Indexed-find_row :
    (rows : List DirRow) (parent hash d : ℕ)
    → IsKeyed rows
    → Indexed rows parent hash d
    → Among d (find_row parent hash rows)
unfolding find_row
Indexed-find_row [] parent hash d keyed (k, r, e, p, q, (j, m)) = absurd (ground (arith, e))
Indexed-find_row (row ∷ rows) parent hash d keyed (zero, r, e, p, q, (j, m)) =
    let there : r ≡ row = sym (some-injective row r e) in
    let p' : row.parent ≡ parent = ap (λ z. z.parent) (sym there) ∙ p in
    let q' : row.hash ≡ hash = ap (λ z. z.hash) (sym there) ∙ q in
    let same : ((row.parent == parent) && (row.hash == hash)) ≡ true = ground (arith, p', q') in
    rw same (j, subst (λ z. get_elem? z.dirs j ≡ some d) there m)
Indexed-find_row (row ∷ rows) parent hash d keyed (suc k, r, e, p, q, (j, m)) =
    elim (Bool-cases ((row.parent == parent) && (row.hash == hash))) [
      | inl same ↦
          let (p', q') = key_true row parent hash same in
          absurd (omega (arith, keyed 0 (suc k) row r refl e (p' ∙ sym p) (q' ∙ sym q)))
      | inr other ↦ rw other (
          Indexed-find_row rows parent hash d (IsKeyed-tail row rows keyed) (k, r, e, p, q, (j, m)))
    ]

All-among :
    (P : EntryIdx → Type 0) (dirs : List EntryIdx) (d : EntryIdx) → All P dirs → Among d dirs → P d
All-among P [] d h (j, e) = absurd (ground (arith, e))
All-among P (c ∷ dirs) d (h, hs) (zero, e) = subst P (ground (arith, e)) h
All-among P (c ∷ dirs) d (h, hs) (suc j, e) = All-among P dirs d hs (j, e)

-- Whatever the hash of names is, in an index with one row for each key: a directory that `child_dir`
-- gives stands in the row of the parent and of the name's hash, and its folded name is the name asked
-- for; and where it gives none, every directory in that row has another folded name.
pub child_dir-HasName :
    (h : Host) (v : VolumeIndex) (parent : EntryIdx) (name : List ℕ)
    → IsKeyed v.dir_children
    → ((d : EntryIdx)
        → child_dir h v parent name ≡ some (some d)
        → Indexed v.dir_children parent (h.dir_key_hash name) d × HasName v name d)
      × (child_dir h v parent name ≡ some none
          → (d : EntryIdx) → Indexed v.dir_children parent (h.dir_key_hash name) d
          → HasOther v name d)
unfolding child_dir
child_dir-HasName h v parent name keyed = (
  λ d found.
      let (m, named) =
        find_dir-found v name (find_row parent (h.dir_key_hash name) v.dir_children) d found in
      (find_row-Indexed v.dir_children parent (h.dir_key_hash name) d m, named),
  λ none_there d indexed.
      let others =
        find_dir-none v name (find_row parent (h.dir_key_hash name) v.dir_children) none_there in
      All-among (HasOther v name) _ d others
        (Indexed-find_row v.dir_children parent (h.dir_key_hash name) d keyed indexed),
)

head_if-some :
    (t : EntryTable) (frn : Frn) (o : Option EntryIdx) (i : EntryIdx)
    → head_if t frn o ≡ some (some i)
    → (o ≡ some i) × (get_cell (λ s. s.frn) t i ≡ some frn)
unfolding head_if
head_if-some t frn none i h = absurd (ground (arith, h))
head_if-some t frn (some j) i h =
    let (there, e, k) = >>=-inv _ _ h in
    elim (Bool-cases (there == frn)) [
      | inl same ↦
          let at_j : j ≡ i = ground (arith, rw same at k) in
          (
            ap some at_j,
            ap (get_cell (λ s. s.frn) t) (sym at_j) ∙ e ∙ ap some (==→eq there frn same),
          )
      | inr other ↦ absurd (ground (arith, rw other at k))
    ]

-- The head found for a reference number is the entry that the map has for its record number, and it
-- bears the whole reference number: an entry of the record's earlier tenant is never given.
head_of-frn :
    (v : VolumeIndex) (frn : Frn) (i : EntryIdx)
    → head_of v frn ≡ some (some i)
    → (get v.by_frn (record_number frn) ≡ some i) × (get_cell (λ s. s.frn) v.entries i ≡ some frn)
unfolding head_of
head_of-frn v frn i h = head_if-some v.entries frn (get v.by_frn (record_number frn)) i h
