-- ===== src/Wtf8/Lossy.antt =====
-- crates/goz-core/src/wtf8.rs: `to_string_lossy`, whose strings are lists of UTF-8 bytes.
use goz.Prelude.{ℕ, Bool, true, false, ◌&&◌, ◌||◌, List, [], ◌∷◌, ◌++◌, ◌==◌, if◌then◌else◌}
use goz.Wtf8.{encode_code_point, code_points, is_high, is_low, replacement}

-- `char::from_u32(cp).unwrap_or('\u{FFFD}')`: a code point below 0x110000 is a `char` unless it is a
-- surrogate.
unfoldable pub to_char : ℕ → ℕ
to_char cp = if is_high cp || is_low cp then replacement else cp

unfoldable pub push_chars : List ℕ → List ℕ
push_chars [] = []
push_chars (cp ∷ cps) = encode_code_point (to_char cp) [] ++ push_chars cps

unfoldable pub same_bytes : List ℕ → List ℕ → Bool
same_bytes [] [] = true
same_bytes [] (b ∷ bs) = false
same_bytes (a ∷ more) [] = false
same_bytes (a ∷ more) (b ∷ bs) = (a == b) && same_bytes more bs

-- `core::str::from_utf8(bytes).is_ok()`: bytes are UTF-8 if decoding them and encoding the scalar
-- values again gives them back. Every byte or surrogate that is replaced breaks that.
unfoldable pub is_utf8 : List ℕ → Bool
is_utf8 bytes = same_bytes (push_chars (code_points bytes)) bytes

unfoldable pub to_string_lossy : List ℕ → List ℕ
to_string_lossy bytes = if is_utf8 bytes then bytes else push_chars (code_points bytes)
