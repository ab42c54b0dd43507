-- ===== src/Prelude/Bytes.antt =====
-- Rust's `to_le_bytes` and `from_le_bytes` for a word of any width. A byte is a number below 256.
use Prim.Native.Nat.{ℕ, zero, suc, ◌+◌, ◌*◌, ◌/◌, ◌%◌, ◌^◌, ◌<◌}
use mathlib.Core.Path.{◌≡◌, refl, ap}
use mathlib.Core.List.{List, [], ◌∷◌}
use native.Mathlib.Omega.{arith}
use native.Mathlib.Nat.{pow-suc}
use goz.Prelude.Lists.{length, All}

abbrev pub IsByte : ℕ → Type 0
IsByte b = b < 256

-- The `k` lowest bytes of `v`, least significant first.
unfoldable pub to_le_bytes : ℕ → ℕ → List ℕ
to_le_bytes zero v = []
to_le_bytes (suc k) v = (v % 256) ∷ to_le_bytes k (v / 256)

unfoldable pub from_le_bytes : List ℕ → ℕ
from_le_bytes [] = 0
from_le_bytes (b ∷ bs) = b + 256 * from_le_bytes bs

pub length-to_le_bytes : (k v : ℕ) → length (to_le_bytes k v) ≡ k
unfolding to_le_bytes
length-to_le_bytes zero v = refl
length-to_le_bytes (suc k) v = ap suc (length-to_le_bytes k (v / 256))

pub to_le_bytes-IsByte : (k v : ℕ) → All IsByte (to_le_bytes k v)
unfolding to_le_bytes
to_le_bytes-IsByte zero v = tt
to_le_bytes-IsByte (suc k) v = (omega arith, to_le_bytes-IsByte k (v / 256))

pub from_le_bytes-to_le_bytes : (k v : ℕ) → v < 256 ^ k → from_le_bytes (to_le_bytes k v) ≡ v
unfolding to_le_bytes from_le_bytes
from_le_bytes-to_le_bytes zero v h = omega arith
from_le_bytes-to_le_bytes (suc k) v h =
    omega
      (arith, pow-suc 256 k, from_le_bytes-to_le_bytes k (v / 256) (omega (arith, pow-suc 256 k)))

cons_parts : (b n : ℕ) → IsByte b → ((b + 256 * n) % 256 ≡ b) × ((b + 256 * n) / 256 ≡ n)
cons_parts b n h = (omega arith, omega arith)

pub to_le_bytes-from_le_bytes :
    (k : ℕ) (bs : List ℕ) → length bs ≡ k → All IsByte bs → to_le_bytes k (from_le_bytes bs) ≡ bs
unfolding to_le_bytes from_le_bytes
to_le_bytes-from_le_bytes zero [] h a = refl
to_le_bytes-from_le_bytes zero (b ∷ bs) h a = absurd (omega arith)
to_le_bytes-from_le_bytes (suc k) [] h a = absurd (omega arith)
to_le_bytes-from_le_bytes (suc k) (b ∷ bs) h (lt, a) = rw (cons_parts b (from_le_bytes bs) lt).0 (
    rw (cons_parts b (from_le_bytes bs) lt).1
      (ap (◌∷◌ b) (to_le_bytes-from_le_bytes k bs (omega arith) a)))

pub from_le_bytes-lt : (bs : List ℕ) → All IsByte bs → from_le_bytes bs < 256 ^ length bs
unfolding from_le_bytes
from_le_bytes-lt [] a = omega arith
from_le_bytes-lt (b ∷ bs) (lt, a) = omega (arith, pow-suc 256 (length bs), from_le_bytes-lt bs a)
