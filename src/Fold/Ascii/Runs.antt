-- ===== src/Fold/Ascii/Runs.antt =====
-- crates/goz-core/src/fold.rs: folding the bytes of `AbZ`.
use goz.Prelude.{◌≡◌, refl, true, List, [], ◌∷◌, ℕ}
use goz.Fold.{Unicode, is_ascii}

-- Tables that leave every scalar as it is.
abbrev plain : Unicode
plain = record { decompose_canonical = λ c. c ∷ []; to_lowercase = λ c. c ∷ []; nfc = λ run. run }

abbrev letters : List ℕ
letters = 0x41 ∷ 0x62 ∷ 0x5A ∷ []

letters-is_ascii : is_ascii letters ≡ true
unfolding is_ascii
letters-is_ascii = refl
