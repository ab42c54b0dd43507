-- ===== src/Daemon/Registry/Order.antt =====
-- crates/goz-daemon/src/volume_state.rs: the order of the volumes in snapshots.
use goz.Prelude.{
  ℕ, ◌≡◌, refl, sym, ap, ◌∙◌, Bool, true, not, ◌&&◌, inl, inr, Bool-cases, List, [], ◌∷◌, ◌++◌,
  append_assoc, if◌then◌else◌,
}
use goz.Daemon.Registry.{
  VolumeState, same_guid, add, remove, Change, added, removed, change, changes,
}

module _ {A : Type 0} where
  -- Volume `v` is not removed by any of the changes.
  abbrev pub survives : List (Change A) → VolumeState A → Bool
  survives [] v = true
  survives (added w ∷ cs) v = survives cs v
  survives (removed guid ∷ cs) v = not (same_guid v.guid guid) && survives cs v

  abbrev pub survivors : List (Change A) → List (VolumeState A) → List (VolumeState A)
  survivors cs [] = []
  survivors cs (v ∷ set) = let rest = survivors cs set in if survives cs v then v ∷ rest else rest

  append_nil : (xs : List (VolumeState A)) → xs ++ [] ≡ xs
  append_nil [] = refl
  append_nil (x ∷ xs) = ap (◌∷◌ x) (append_nil xs)

  survivors-none : (set : List (VolumeState A)) → survivors [] set ≡ set
  survivors-none [] = refl
  survivors-none (v ∷ set) = ap (◌∷◌ v) (survivors-none set)

  survivors-append :
      (cs : List (Change A)) (xs ys : List (VolumeState A))
      → survivors cs (xs ++ ys) ≡ survivors cs xs ++ survivors cs ys
  survivors-append cs [] ys = refl
  survivors-append cs (x ∷ xs) ys = elim (Bool-cases (survives cs x)) [
    | inl e ↦ rw e (ap (◌∷◌ x) (survivors-append cs xs ys))
    | inr e ↦ rw e (survivors-append cs xs ys)
  ]

  survivors-added :
      (v : VolumeState A) (cs : List (Change A)) (set : List (VolumeState A))
      → survivors (added v ∷ cs) set ≡ survivors cs set
  survivors-added v cs [] = refl
  survivors-added v cs (x ∷ set) = elim (Bool-cases (survives cs x)) [
    | inl e ↦ rw e (ap (◌∷◌ x) (survivors-added v cs set))
    | inr e ↦ rw e (survivors-added v cs set)
  ]

  survivors-remove :
      (guid : List ℕ) (cs : List (Change A)) (set : List (VolumeState A))
      → survivors cs (remove set guid) ≡ survivors (removed guid ∷ cs) set
  unfolding remove
  survivors-remove guid cs [] = refl
  survivors-remove guid cs (x ∷ set) = elim (Bool-cases (same_guid x.guid guid)) [
    | inl e ↦ rw e (survivors-remove guid cs set)
    | inr e ↦ elim (Bool-cases (survives cs x)) [
      | inl f ↦ rw (e, f) (ap (◌∷◌ x) (survivors-remove guid cs set))
      | inr f ↦ rw (e, f) (survivors-remove guid cs set)
    ]
  ]

  -- After any changes, a snapshot is the volumes of an earlier one that were not removed, in their
  -- order there, followed by the volumes that the changes added and left. So two volumes never trade
  -- places.
  changes-survivors :
      (set : List (VolumeState A)) (cs : List (Change A))
      → changes set cs ≡ survivors cs set ++ changes [] cs
  unfolding changes change add remove
  changes-survivors set [] = sym (append_nil (survivors [] set) ∙ survivors-none set)
  changes-survivors set (added v ∷ cs) =
      changes-survivors (set ++ v ∷ []) cs
      ∙ ap (λ t. t ++ changes [] cs) (survivors-append cs set (v ∷ []))
      ∙ append_assoc (survivors cs set) (survivors cs (v ∷ [])) (changes [] cs)
      ∙ ap (◌++◌ (survivors cs set)) (sym (changes-survivors (v ∷ []) cs))
      ∙ ap (λ t. t ++ changes (v ∷ []) cs) (sym (survivors-added v cs set))
  changes-survivors set (removed guid ∷ cs) =
      changes-survivors (remove set guid) cs
      ∙ ap (λ t. t ++ changes [] cs) (survivors-remove guid cs set)
