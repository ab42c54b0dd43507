-- ===== src/Index/NameStore/Intern.antt =====
-- crates/goz-core/src/index/store.rs: `intern`, and the bytes of the names it gives.
pub mod Valid
pub mod Push
mod Runs
use goz.Prelude.{
  ℕ, suc, ◌+◌, ◌%◌, ◌^◌, ◌≤◌, ◌<◌, ◌≡◌, ◌⊎◌, inl, inr, refl, sym, ap, ◌∙◌, Bool, true, false, none,
  some, List, [], ◌∷◌, ◌++◌, Bool-cases, leb, if◌then◌else◌, length, get_elem?, set, All, bit_or,
  length-append, length-set, get_elem?-some, get_elem?-append_left, get_elem?-append_right,
  get_elem?-set_self, Option-cases, arith,
}
use goz.Prelude.Bits.{has, has-marked, has-unmarked, unmark, bit_and-marked}
use goz.Prelude.Options.{>>=-some, >>=-inv}
use goz.Types.{nil}
use goz.Fold.{Unicode, fold}
use goz.Wtf8.Lossy.{same_bytes}
use goz.Index.EntryTable.{NameId}
use goz.Index.EntryTable.Count.{get_elem?-lt}
use goz.Index.EntryTable.Invariant.{All-imp}
use goz.Index.NameStore.{
  NameRef, NamePair, NameStore, raw_in_folded, raw_offset, raw_bytes_of, raw_bytes_in, raw_bytes,
  folded_in, folded_bytes_of, find_name, push, push_raw, add_name, assert, retain, intern_found,
  intern, slice,
}
use goz.Index.NameStore.Slices.{same_bytes_refl, same_bytes_eq, Grows, Grows-append, slice-append}
use goz.Index.NameStore.Intern.Valid.{
  Kept, Names, IsValid, leb_le, find_name-cases, Grows-if, Kept-grown, Kept-keyed,
}
use goz.Index.NameStore.Intern.Push.{
  push-slice, push_raw_lem, length-snoc, add_name_lem, retain_lem,
}

-- `name` fits 16 bits of length, and so does its fold; the buffers are below 2 GiB.
pub record Fits (u : Unicode) (s : NameStore) (name : List ℕ) : Type 0 where
  pub short : length name ≤ 0xffff
  pub short_fold : length (fold u name) ≤ 0xffff
  pub raw_room : length s.raw < 0x8000_0000
  pub folded_room : length s.folded < 0x8000_0000

-- A name just added is found first.
find_added :
    (u : Unicode) (s : NameStore) (id : NameId) (ids : List NameId) (name : List ℕ)
    → raw_bytes s id ≡ some name
    → find_name s.pairs s.raw s.folded (id ∷ ids) name ≡ some (some id)
unfolding find_name raw_bytes
find_added u s id ids name h = >>=-some _ _ name h (rw (same_bytes_refl name) refl)

-- What interning a name comes to.
abbrev Interned : Unicode → NameStore → List ℕ → Type 0
Interned u s name =
    (s' : NameStore) × (id : NameId) × (intern u s name ≡ some (s', id))
    × Names u s' name id
    × Kept s s'
    × IsValid u s'
    × (find_name s'.pairs s'.raw s'.folded s'.by_bytes name ≡ some (some id))

intern_new :
    (u : Unicode) (s : NameStore) (name : List ℕ)
    → IsValid u s
    → Fits u s name
    → find_name s.pairs s.raw s.folded s.by_bytes name ≡ some none
    → Interned u s name
unfolding intern intern_found add_name
intern_new u s name v r e =
    let (names, kept, valid) =
      add_name_lem u s name v r.short r.short_fold r.raw_room r.folded_room in
    let (s', id) = add_name s (fold u name) name in
    (
      s',
      id,
      >>=-some _ _ tt (ap assert (leb_le _ _ r.short))
          (>>=-some _ _ none e (>>=-some _ _ tt (ap assert (leb_le _ _ r.short_fold)) refl)),
      names,
      kept,
      valid,
      find_added u s' id s.by_bytes name names.0,
    )

intern_old :
    (u : Unicode) (s : NameStore) (name : List ℕ) (id : NameId)
    → IsValid u s
    → length name ≤ 0xffff
    → Names u s name id
    → find_name s.pairs s.raw s.folded s.by_bytes name ≡ some (some id)
    → (s' : NameStore) × (count : ℕ) × (intern u s name ≡ some (s', id))
      × (get_elem? s.refcount id ≡ some count)
      × (get_elem? s'.refcount id ≡ some (count + 1))
      × Names u s' name id
      × Kept s s'
      × IsValid u s'
      × (find_name s'.pairs s'.raw s'.folded s'.by_bytes name ≡ some (some id))
unfolding intern intern_found
intern_old u s name id v short n e =
    let (s', count, d, g, g', n', kept, valid, same) = retain_lem u s id name v n in
    (
      s',
      count,
      >>=-some _ _ tt (ap assert (leb_le _ _ short))
          (>>=-some _ _ (some id) e (>>=-some _ _ s' d refl)),
      g,
      g',
      n',
      kept,
      valid,
      same ∙ e,
    )

interned :
    (u : Unicode) (s : NameStore) (name : List ℕ) → IsValid u s → Fits u s name → Interned u s name
interned u s name v r = elim (find_name-cases u s s.by_bytes name v.keyed) [
  | inl e ↦ intern_new u s name v r e
  | inr (id, e, n) ↦
      let (s', count, d, g, g', n', kept, valid, f) = intern_old u s name id v r.short n e in
      (s', id, d, n', kept, valid, f)
]

-- Interning a name in a valid store succeeds while both buffers are below 2 GiB and the name and its
-- fold are below 64 KiB. The id that it gives has the bytes of the name and those of its fold, every
-- name of the store keeps its bytes, and the store stays valid. Interning the same name again gives
-- the same id, counts one more reference to it, and changes the bytes of no name.
pub intern-raw_bytes :
    (u : Unicode) (s : NameStore) (name : List ℕ)
    → IsValid u s
    → Fits u s name
    → (s' : NameStore) × (id : NameId) × (s'' : NameStore) × (count : ℕ) × (intern u s name
        ≡ some (s', id))
      × ((raw_bytes s' id ≡ some name) × (folded_bytes_of s' id ≡ some (fold u name)))
      × Kept s s'
      × IsValid u s'
      × (intern u s' name ≡ some (s'', id))
      × (get_elem? s'.refcount id ≡ some count)
      × (get_elem? s''.refcount id ≡ some (count + 1))
      × Kept s' s''
intern-raw_bytes u s name v r =
    let (s', id, d, n, kept, valid, f) = interned u s name v r in
    let (s'', count, d', g, g', n', kept', valid', f') =
      intern_old u s' name id valid r.short n f in
    (s', id, s'', count, d, n, kept, valid, d', g, g', kept')
