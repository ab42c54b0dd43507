-- ===== src/Daemon/Registry/Runs.antt =====
-- crates/goz-daemon/src/volume_state.rs: a volume leaves and another comes.
use goz.Prelude.{ℕ, ◌≡◌, refl, List, [], ◌∷◌}
use goz.Daemon.Registry.{
  VolumeState, Change, added, removed, changes, change, add, remove, same_guid,
}

abbrev volume : ℕ → VolumeState ℕ
volume n = record { guid = n ∷ []; mounts = []; guarded = 0 }

abbrev first_set : List (VolumeState ℕ)
first_set = volume 1 ∷ volume 2 ∷ volume 3 ∷ []

abbrev swap : List (Change ℕ)
swap = removed (2 ∷ []) ∷ added (volume 4) ∷ []

swapped : changes first_set swap ≡ volume 1 ∷ volume 3 ∷ volume 4 ∷ []
unfolding changes change add remove same_guid
swapped = refl
