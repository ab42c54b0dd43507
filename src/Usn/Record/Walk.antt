-- ===== src/Usn/Record/Walk.antt =====
-- crates/goz-core/src/usn/record.rs: how far the walk of a buffer goes.
use goz.Prelude.{
  ℕ, zero, suc, ◌+◌, ◌-◌, ◌≤◌, ◌<◌, ◌≡◌, ◌≢◌, inl, inr, true, false, none, some, List, [], ok, err,
  Result-cases, Bool-cases, leb, length, arith,
}
use goz.Usn.Record.{
  WalkError, Gathered, common_size, leading_value_len, checked_add, checked_next_multiple_of_eight,
  walk_step, walk_from, walk_records, no_skips,
}

-- A round that goes on leaves the record behind.
walk_step_advances :
    (buf : List ℕ) (off : ℕ) (g g' : Gathered) (off' : ℕ)
    → walk_step buf off g ≡ ok (g', some off')
    → off < off'
unfolding walk_step checked_add checked_next_multiple_of_eight
walk_step_advances buf off g g' off' e = ground arith

module _ (fuel : ℕ) (buf : List ℕ) (off : ℕ) (g : Gathered) where
  pub walk_from_ends :
      leb (off + common_size) (length buf) ≡ false → walk_from (suc fuel) buf off g ≡ some (ok g)
  unfolding walk_from
  walk_from_ends over = rw (over, walk_from)

  pub walk_from_fails :
      (x : WalkError)
      → leb (off + common_size) (length buf) ≡ true
      → walk_step buf off g ≡ err x
      → walk_from (suc fuel) buf off g ≡ some (err x)
  unfolding walk_from
  walk_from_fails x more e = rw (more, e, walk_from)

  pub walk_from_stops :
      (g' : Gathered)
      → leb (off + common_size) (length buf) ≡ true
      → walk_step buf off g ≡ ok (g', none)
      → walk_from (suc fuel) buf off g ≡ some (ok g')
  unfolding walk_from
  walk_from_stops g' more e = rw (more, e, walk_from)

  pub walk_from_goes_on :
      (off' : ℕ) (g' : Gathered)
      → leb (off + common_size) (length buf) ≡ true
      → walk_step buf off g ≡ ok (g', some off')
      → walk_from (suc fuel) buf off g ≡ walk_from fuel buf off' g'
  unfolding walk_from
  walk_from_goes_on off' g' more e = rw (more, e, walk_from)

walk_from-ne-none :
    (fuel : ℕ) (buf : List ℕ) (off : ℕ) (g : Gathered)
    → length buf - off < fuel
    → walk_from fuel buf off g ≢ none
walk_from-ne-none zero buf off g h = absurd (omega arith)
walk_from-ne-none (suc fuel) buf off g h =
    elim (Bool-cases (leb (off + common_size) (length buf))) [
      | inr over ↦ rw (walk_from_ends fuel buf off g over) (λ e. cc)
      | inl more ↦ elim (Result-cases (walk_step buf off g)) [
        | inr (x, e) ↦ rw (walk_from_fails fuel buf off g x more e) (λ p. cc)
        | inl ((g', none), e) ↦ rw (walk_from_stops fuel buf off g g' more e) (λ p. cc)
        | inl ((g', some off'), e) ↦ rw (walk_from_goes_on fuel buf off g off' g' more e) (
            walk_from-ne-none fuel buf off' g'
              (shrinks (walk_step_advances buf off g g' off' e) (ground arith)))
      ]
    ]
  where
    shrinks : {off' : ℕ} → off < off' → off + common_size ≤ length buf → length buf - off' < fuel
    shrinks lt fits = omega arith

-- The walk ends on every buffer: its loop never runs out of fuel.
pub walk_records-ne-none : (buf : List ℕ) → walk_records buf ≢ none
unfolding walk_records
walk_records-ne-none buf =
    walk_from-ne-none (length buf + 1) buf leading_value_len ([], no_skips) (omega arith)
