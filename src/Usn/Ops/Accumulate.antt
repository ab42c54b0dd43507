-- ===== src/Usn/Ops/Accumulate.antt =====
-- crates/goz-core/src/usn/ops.rs: reason bits that accumulate over an open-close window.
use goz.Prelude.{
  ℕ, ◌≡◌, refl, ◌⊎◌, inl, inr, Bool, true, false, List, [], ◌∷◌, ◌++◌, All, bit_or, arith,
}
use goz.Prelude.Bits.{has, bit_or-has}
use goz.Usn.Reason
use goz.Usn.Record.{ParsedUsnRecord, is_dir}
use goz.Usn.Ops.{
  UsnOp, rename_old_seen, ops_for, live_rows, push_if, names_current, stat_changes, name_changes,
}

-- A note that an old name was seen, which asks for nothing.
abbrev is_rename_old_seen : UsnOp → Bool
is_rename_old_seen (rename_old_seen frn) = true
is_rename_old_seen _ = false

abbrev Asks : UsnOp → List UsnOp → Type 0
Asks op [] = ⊥
Asks op (x ∷ ops) = (x ≡ op) ⊎ Asks op ops

-- The record that a later sub-operation of the same window appends: more reasons, the same file.
abbrev accumulate : ParsedUsnRecord → ℕ → ParsedUsnRecord
accumulate r more = record r { reason = bit_or r.reason more }

abbrev Kept : List UsnOp → UsnOp → Type 0
Kept ops op = (is_rename_old_seen op ≡ true) ⊎ Asks op ops

Asks-append_right : (op : UsnOp) (xs ys : List UsnOp) → Asks op ys → Asks op (xs ++ ys)
Asks-append_right op [] ys a = a
Asks-append_right op (x ∷ xs) ys a = inr (Asks-append_right op xs ys a)

Kept-append_right : (xs ys zs : List UsnOp) → All (Kept ys) zs → All (Kept (xs ++ ys)) zs
Kept-append_right xs ys [] h = tt
Kept-append_right xs ys (z ∷ zs) (inl old, hs) = (inl old, Kept-append_right xs ys zs hs)
Kept-append_right xs ys (z ∷ zs) (inr a, hs) =
    (inr (Asks-append_right z xs ys a), Kept-append_right xs ys zs hs)

Asks-first : (b : Bool) (op : UsnOp) (ys : List UsnOp) → b ≡ true → Asks op (push_if b op ++ ys)
Asks-first true op ys h = inl refl
Asks-first false op ys h = cc

-- A row whose test held before and holds now.
row-Kept :
    (b b' : Bool) (op : UsnOp) (xs ys : List UsnOp)
    → (b ≡ true → b' ≡ true)
    → All (Kept ys) xs
    → All (Kept (push_if b' op ++ ys)) (push_if b op ++ xs)
row-Kept false b' op xs ys up h = Kept-append_right (push_if b' op) ys xs h
row-Kept true b' op xs ys up h =
    (inr (Asks-first b' op ys (up refl)), Kept-append_right (push_if b' op) ys xs h)

old_row-Kept :
    (b b' : Bool) (op : UsnOp) (xs ys : List UsnOp)
    → is_rename_old_seen op ≡ true
    → All (Kept ys) xs
    → All (Kept (push_if b' op ++ ys)) (push_if b op ++ xs)
old_row-Kept false b' op xs ys old h = Kept-append_right (push_if b' op) ys xs h
old_row-Kept true b' op xs ys old h = (inl old, Kept-append_right (push_if b' op) ys xs h)

flag_grows : (w more mask : ℕ) → has w mask ≡ true → has (bit_or w more) mask ≡ true
flag_grows w more mask h = ground (arith, bit_or-has w more mask)

live_ops : (r : ParsedUsnRecord) → has r.reason Reason.file_delete ≡ false → ops_for r ≡ live_rows r
unfolding ops_for
live_ops r h = rw h

live_rows-Kept :
    (r : ParsedUsnRecord) (more : ℕ) → All (Kept (live_rows (accumulate r more))) (live_rows r)
unfolding live_rows is_dir
live_rows-Kept r more = row-Kept _ _ _ _ _ (flag_grows r.reason more names_current) (
    old_row-Kept _ _ _ _ _ refl (
      row-Kept _ _ _ _ _ (flag_grows r.reason more Reason.hard_link_change) (
        row-Kept _ _ _ _ _ (flag_grows r.reason more stat_changes)
          (row-Kept _ _ _ [] [] (flag_grows r.reason more name_changes) tt))))

-- Unless the window has come to a deletion, every op of an earlier record, but the note of an old name,
-- is again an op of the record that accumulates more reasons: applying the later record repeats it.
ops_for-accumulate :
    (r : ParsedUsnRecord) (more : ℕ)
    → has (accumulate r more).reason Reason.file_delete ≡ false
    → All (λ op. (is_rename_old_seen op ≡ true) ⊎ Asks op (ops_for (accumulate r more))) (ops_for r)
ops_for-accumulate r more h =
    let before : has r.reason Reason.file_delete ≡ false =
      ground (arith, bit_or-has r.reason more Reason.file_delete) in
    rw (live_ops r before, live_ops (accumulate r more) h) (live_rows-Kept r more)
