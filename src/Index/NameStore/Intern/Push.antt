-- ===== src/Index/NameStore/Intern/Push.antt =====
-- crates/goz-core/src/index/store.rs: the bytes that `intern` adds to the buffers, and the counts.
use goz.Prelude.{
  ℕ, suc, ◌+◌, ◌%◌, ◌^◌, ◌≤◌, ◌<◌, ◌≡◌, inl, inr, refl, sym, ap, ◌∙◌, some, List, [], ◌∷◌, ◌++◌,
  Bool-cases, length, get_elem?, set, length-append, length-set, get_elem?-some, get_elem?-set_self,
  arith,
}
use goz.Prelude.Bits.{has-marked, has-unmarked, unmark, bit_and-marked}
use goz.Prelude.Options.{>>=-some, >>=-inv}
use goz.Types.{nil}
use goz.Fold.{Unicode, fold}
use goz.Wtf8.Lossy.{same_bytes}
use goz.Index.EntryTable.{NameId}
use goz.Index.EntryTable.Count.{get_elem?-lt}
use goz.Index.NameStore.{
  NameRef, NamePair, NameStore, raw_offset, raw_bytes_of, raw_bytes_in, raw_bytes, folded_in,
  folded_bytes_of, find_name, push, push_raw, add_name, retain, slice,
}
use goz.Index.NameStore.Slices.{same_bytes_eq, Grows, Grows-append, slice-append}
use goz.Index.NameStore.Intern.Valid.{Kept, Names, IsValid, Kept-grown, Kept-keyed}

-- Where `push` puts bytes they can be read again.
pub push-slice :
    (buf bytes : List ℕ)
    → length buf < 0x8000_0000
    → length bytes ≤ 0xffff
    → (slice (push buf bytes).0 (push buf bytes).1.off (push buf bytes).1.len ≡ some bytes)
      × ((push buf bytes).1.off < 0x8000_0000)
unfolding push
push-slice buf bytes h k =
    let off : length buf % 2 ^ 32 ≡ length buf = omega (arith, h) in
    let len : length bytes % 2 ^ 16 ≡ length bytes = omega (arith, k) in
    (rw (off, len) (slice-append buf bytes (0 ∷ [])), omega (arith, h))

-- The raw reference of a new name leads to the name, in one buffer or the other.
pub push_raw_lem :
    (raw folded : List ℕ) (r : NameRef) (bytes name : List ℕ)
    → slice folded r.off r.len ≡ some bytes
    → r.off < 0x8000_0000
    → length raw < 0x8000_0000
    → length name ≤ 0xffff
    → (raw_bytes_of
          (push_raw raw r bytes name).0
          folded
          (record { raw = (push_raw raw r bytes name).1; folded = r })
        ≡ some name)
      × Grows raw (push_raw raw r bytes name).0
unfolding push_raw raw_bytes_of raw_offset push
push_raw_lem raw folded r bytes name h k b n = elim (Bool-cases (same_bytes bytes name)) [
  | inl e ↦ rw e (
    rw (has-marked r.off, bit_and-marked r.off k) (h ∙ ap some (same_bytes_eq bytes name e)),
    λ off len bs g. g,
  )
  | inr e ↦
      let (found, low) = push-slice raw name b n in
      rw e (
        rw (has-unmarked (length raw % 2 ^ 32) low, unmark (length raw % 2 ^ 32) low) found,
        Grows-append raw (name ++ 0 ∷ []),
      )
]

pub length-snoc : {A : Type 0} (xs : List A) (x : A) → length (xs ++ x ∷ []) ≡ suc (length xs)
length-snoc xs x = omega (arith, length-append xs (x ∷ []))

get_elem?-snoc : {A : Type 0} (xs : List A) (x : A) → get_elem? (xs ++ x ∷ []) (length xs) ≡ some x
get_elem?-snoc [] x = refl
get_elem?-snoc (y ∷ xs) x = get_elem?-snoc xs x

pub add_name_lem :
    (u : Unicode) (s : NameStore) (name : List ℕ)
    → IsValid u s
    → length name ≤ 0xffff
    → length (fold u name) ≤ 0xffff
    → length s.raw < 0x8000_0000
    → length s.folded < 0x8000_0000
    → Names u (add_name s (fold u name) name).0 name (add_name s (fold u name) name).1
      × Kept s (add_name s (fold u name) name).0
      × IsValid u (add_name s (fold u name) name).0
unfolding add_name raw_bytes raw_bytes_in folded_bytes_of folded_in push
add_name_lem u s name v n fn br bf =
    let bytes = fold u name in
    let f = push s.folded bytes in
    let (found, low) = push-slice s.folded bytes bf fn in
    let (got, grown) = push_raw_lem s.raw f.0 f.1 bytes name found low br n in
    let r = push_raw s.raw f.1 bytes name in
    let pair : NamePair = record { raw = r.1; folded = f.1 } in
    let at = get_elem?-snoc s.pairs pair in
    let names : Names u (add_name s bytes name).0 name (length s.pairs) =
      (>>=-some _ _ pair at got, >>=-some _ _ pair at found) in
    let kept =
      Kept-grown s (add_name s bytes name).0 (pair ∷ []) refl grown
        (Grows-append s.folded (bytes ++ 0 ∷ [])) in
    (
      names,
      kept,
      record {
        counts = length-snoc s.refcount 1 ∙ ap suc v.counts ∙ sym (length-snoc s.pairs pair);
        heads = length-snoc s.head nil ∙ ap suc v.heads ∙ sym (length-snoc s.pairs pair);
        ranks = length-snoc s.rank_of _ ∙ ap suc v.ranks ∙ sym (length-snoc s.pairs pair);
        keyed = ((name, names), Kept-keyed u s (add_name s bytes name).0 s.by_bytes kept v.keyed);
      },
    )

-- A name that has bytes has a count, and one more reference to it leaves the names as they are.
pub retain_lem :
    (u : Unicode) (s : NameStore) (id : NameId) (name : List ℕ)
    → IsValid u s
    → Names u s name id
    → (s' : NameStore) × (count : ℕ) × (retain s id ≡ some s')
      × (get_elem? s.refcount id ≡ some count)
      × (get_elem? s'.refcount id ≡ some (count + 1))
      × Names u s' name id
      × Kept s s'
      × IsValid u s'
      × (find_name s'.pairs s'.raw s'.folded s'.by_bytes name
          ≡ find_name s.pairs s.raw s.folded s.by_bytes name)
unfolding retain raw_bytes raw_bytes_in folded_bytes_of
retain_lem u s id name v n =
    let (pair, e, d) = >>=-inv _ _ n.0 in
    let (count, g) =
      get_elem?-some s.refcount id (omega (arith, get_elem?-lt s.pairs id pair e, v.counts)) in
    (
      record s { refcount = set s.refcount id (count + 1) },
      count,
      >>=-some _ _ count g refl,
      g,
      get_elem?-set_self s.refcount id (count + 1) (get_elem?-lt s.refcount id count g),
      n,
      (λ j bytes h. h, λ j bytes h. h),
      record {
        counts = length-set s.refcount id (count + 1) ∙ v.counts;
        heads = v.heads;
        ranks = v.ranks;
        keyed = v.keyed;
      },
      refl,
    )
