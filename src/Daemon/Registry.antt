-- ===== src/Daemon/Registry.antt =====
-- crates/goz-daemon/src/volume_state.rs: the registry of indexed volumes. A volume is its GUID, its
-- mounts and what its locks guard, of a type that the registry does not look into.
pub mod Order
mod Runs
use goz.Prelude.{ℕ, Bool, true, false, not, ◌&&◌, List, [], ◌∷◌, ◌++◌, ◌==◌, if◌then◌else◌}

pub record VolumeState (A : Type 0) : Type 0 where
  pub guid : List ℕ
  pub mounts : List (List ℕ)
  pub guarded : A

abbrev first_path_or : List ℕ → List (List ℕ) → List ℕ
first_path_or guid [] = guid
first_path_or guid (m ∷ mounts) = m

-- `self.mounts.first().unwrap_or(&self.guid)`
unfoldable pub mount_prefix : {A : Type 0} → VolumeState A → List ℕ
mount_prefix v = first_path_or v.guid v.mounts

unfoldable pub same_guid : List ℕ → List ℕ → Bool
same_guid [] [] = true
same_guid [] (b ∷ bs) = false
same_guid (a ∷ more) [] = false
same_guid (a ∷ more) (b ∷ bs) = (a == b) && same_guid more bs

module _ {A : Type 0} where
  unfoldable pub add : List (VolumeState A) → VolumeState A → List (VolumeState A)
  add set volume = set ++ volume ∷ []

  unfoldable pub remove : List (VolumeState A) → List ℕ → List (VolumeState A)
  remove [] guid = []
  remove (v ∷ set) guid =
      let rest = remove set guid in if same_guid v.guid guid then rest else v ∷ rest

pub data Change (A : Type 0) : Type 0 where
  added : VolumeState A → Change A
  removed : List ℕ → Change A

module _ {A : Type 0} where
  unfoldable pub change : List (VolumeState A) → Change A → List (VolumeState A)
  change set (added v) = add set v
  change set (removed guid) = remove set guid

  unfoldable pub changes : List (VolumeState A) → List (Change A) → List (VolumeState A)
  changes set [] = set
  changes set (c ∷ cs) = changes (change set c) cs
