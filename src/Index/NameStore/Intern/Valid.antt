-- ===== src/Index/NameStore/Intern/Valid.antt =====
-- crates/goz-core/src/index/store.rs: what a change of a name store keeps.
use goz.Prelude.{
  ℕ, ◌≤◌, ◌≡◌, ◌⊎◌, inl, inr, refl, ap, ◌∙◌, Bool, true, false, none, some, List, [], ◌∷◌, ◌++◌,
  Bool-cases, leb, if◌then◌else◌, length, get_elem?, All, get_elem?-append_left, arith,
}
use goz.Prelude.Bits.{has}
use goz.Prelude.Options.{>>=-some, >>=-inv}
use goz.Fold.{Unicode, fold}
use goz.Wtf8.Lossy.{same_bytes}
use goz.Index.EntryTable.{NameId}
use goz.Index.EntryTable.Count.{get_elem?-lt}
use goz.Index.EntryTable.Invariant.{All-imp}
use goz.Index.NameStore.{
  NamePair, NameStore, raw_in_folded, raw_offset, raw_bytes_of, raw_bytes_in, raw_bytes, folded_in,
  folded_bytes_of, find_name,
}
use goz.Index.NameStore.Slices.{same_bytes_eq, Grows}

-- What one store says of its names, the other says of them too.
abbrev pub Kept : NameStore → NameStore → Type 0
Kept s s' =
    ((id : NameId) (bytes : List ℕ) → raw_bytes s id ≡ some bytes → raw_bytes s' id ≡ some bytes)
    × ((id : NameId) (bytes : List ℕ)
        → folded_bytes_of s id ≡ some bytes
        → folded_bytes_of s' id ≡ some bytes)

-- The bytes and the folded bytes of a name.
abbrev pub Names : Unicode → NameStore → List ℕ → NameId → Type 0
Names u s name id = (raw_bytes s id ≡ some name) × (folded_bytes_of s id ≡ some (fold u name))

-- The tables have one length, and every id in the hash table has a name and its fold.
pub record IsValid (u : Unicode) (s : NameStore) : Type 0 where
  pub counts : length s.refcount ≡ length s.pairs
  pub heads : length s.head ≡ length s.pairs
  pub ranks : length s.rank_of ≡ length s.pairs
  pub keyed : All (λ id. (name : List ℕ) × Names u s name id) s.by_bytes

pub leb_le : (a b : ℕ) → a ≤ b → leb a b ≡ true
leb_le a b h = ground (arith, h)

-- The search finds a name with these bytes, or none.
pub find_name-cases :
    (u : Unicode) (s : NameStore) (ids : List NameId) (name : List ℕ)
    → All (λ id. (name : List ℕ) × Names u s name id) ids
    → (find_name s.pairs s.raw s.folded ids name ≡ some none)
      ⊎ ((id : NameId) × (find_name s.pairs s.raw s.folded ids name ≡ some (some id))
          × Names u s name id)
unfolding find_name raw_bytes
find_name-cases u s [] name h = inl refl
find_name-cases u s (id ∷ ids) name ((found, (e, d)), rest) =
    elim (Bool-cases (same_bytes found name)) [
      | inl same ↦
          let eq = same_bytes_eq found name same in
          inr (
            id,
            >>=-some _ _ found e (rw same refl),
            (e ∙ ap some eq, d ∙ ap (λ b. some (fold u b)) eq),
          )
      | inr other ↦ elim (find_name-cases u s ids name rest) [
        | inl none_found ↦ inl (>>=-some _ _ found e (rw other none_found))
        | inr (j, f, n) ↦ inr (j, >>=-some _ _ found e (rw other f), n)
      ]
    ]

pub Grows-if :
    (b : Bool) (raw raw' folded folded' : List ℕ)
    → Grows raw raw'
    → Grows folded folded'
    → Grows (if b then folded else raw) (if b then folded' else raw')
Grows-if true raw raw' folded folded' gr gf = gf
Grows-if false raw raw' folded folded' gr gf = gr

-- Pairs and bytes that are added do not change what there was.
pub Kept-grown :
    (s s' : NameStore) (more : List NamePair)
    → s'.pairs ≡ s.pairs ++ more
    → Grows s.raw s'.raw
    → Grows s.folded s'.folded
    → Kept s s'
unfolding raw_bytes raw_bytes_in raw_bytes_of folded_bytes_of folded_in
Kept-grown s s' more e gr gf =
    let moved = λ (id : NameId). λ (pair : NamePair). λ (h : get_elem? s.pairs id ≡ some pair).
      ap (λ pairs. get_elem? pairs id) e
      ∙ (get_elem?-append_left s.pairs more id (get_elem?-lt s.pairs id pair h) ∙ h) in
    (
      λ id bytes h.
          let (pair, g, d) = >>=-inv _ _ h in
          >>=-some _ _ pair (moved id pair g) (
            Grows-if (has pair.raw.off raw_in_folded) s.raw s'.raw s.folded s'.folded gr gf
              (raw_offset pair.raw) pair.raw.len bytes d),
      λ id bytes h.
          let (pair, g, d) = >>=-inv _ _ h in
          >>=-some _ _ pair (moved id pair g) (gf pair.folded.off pair.folded.len bytes d),
    )

pub Kept-keyed :
    (u : Unicode) (s s' : NameStore) (ids : List NameId)
    → Kept s s'
    → All (λ id. (name : List ℕ) × Names u s name id) ids
    → All (λ id. (name : List ℕ) × Names u s' name id) ids
Kept-keyed u s s' ids k h =
    All-imp _ _ ids (λ id (name, (e, d)). (name, (k.0 id name e, k.1 id (fold u name) d))) h
