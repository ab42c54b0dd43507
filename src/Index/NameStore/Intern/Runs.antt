-- ===== src/Index/NameStore/Intern/Runs.antt =====
-- crates/goz-core/src/index/store.rs: interning `Ab` in an empty store.
use goz.Prelude.{ℕ, ◌+◌, ◌≡◌, refl, some, List, [], ◌∷◌, get_elem?, arith}
use goz.Fold.{Unicode, is_ascii, lower_ascii, fold_into, fold}
use goz.Index.EntryTable.{NameId}
use goz.Index.NameStore.{NameStore, new, intern, raw_bytes, folded_bytes_of}
use goz.Index.NameStore.Intern.{Fits, intern-raw_bytes}
use goz.Index.NameStore.Intern.Valid.{Kept, IsValid}

abbrev plain : Unicode
plain = record { decompose_canonical = λ c. c ∷ []; to_lowercase = λ c. c ∷ []; nfc = λ run. run }

abbrev name : List ℕ
name = 0x41 ∷ 0x62 ∷ []

new-IsValid : IsValid plain new
unfolding new
new-IsValid = record { counts = refl; heads = refl; ranks = refl; keyed = tt }

name-Fits : Fits plain new name
unfolding new fold fold_into is_ascii lower_ascii
name-Fits = record {
  short = omega arith;
  short_fold = omega arith;
  raw_room = omega arith;
  folded_room = omega arith;
}

intern-raw_bytes_example :
    (s' : NameStore) × (id : NameId) × (s'' : NameStore) × (count : ℕ) × (intern plain new name
      ≡ some (s', id))
    × ((raw_bytes s' id ≡ some name) × (folded_bytes_of s' id ≡ some (fold plain name)))
    × Kept new s'
    × IsValid plain s'
    × (intern plain s' name ≡ some (s'', id))
    × (get_elem? s'.refcount id ≡ some count)
    × (get_elem? s''.refcount id ≡ some (count + 1))
    × Kept s' s''
intern-raw_bytes_example = intern-raw_bytes plain new name new-IsValid name-Fits
