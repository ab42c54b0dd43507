-- ===== src/Wtf8.antt =====
-- crates/goz-core/src/wtf8.rs: UTF-16 that may hold lone surrogates, to and from bytes.
-- A UTF-16 unit is a number below 2^16, a byte one below 2^8, and a code point a `u32`.
pub mod Decode
pub mod RoundTrip
pub mod Size
pub mod Lossy
mod Runs
use goz.Prelude.{
  ℕ, zero, suc, ◌+◌, ◌-◌, ◌*◌, ◌/◌, ◌%◌, ◌^◌, Bool, true, false, not, ◌&&◌, ◌||◌, List, [], ◌∷◌,
  ◌++◌, ltb, leb, ◌==◌, if◌then◌else◌, length, bit_and, bit_or,
}

-- `(0xD800..0xDC00).contains(&u)` and `(0xDC00..0xE000).contains(&u)`
unfoldable pub is_high : ℕ → Bool
is_high u = leb 0xD800 u && ltb u 0xDC00

unfoldable pub is_low : ℕ → Bool
is_low u = leb 0xDC00 u && ltb u 0xE000

-- `0x10000 + (((u - 0xD800) << 10) | (lo - 0xDC00))`
unfoldable pub join_surrogates : ℕ → ℕ → ℕ
join_surrogates u lo = 0x10000 + bit_or ((u - 0xD800) * 2 ^ 10) (lo - 0xDC00)

-- A continuation byte, `0x80 | (x & 0x3F) as u8`.
unfoldable pub continuation : ℕ → ℕ
continuation x = bit_or 0x80 (bit_and x 0x3F)

unfoldable pub encode_code_point : ℕ → List ℕ → List ℕ
unfolding continuation
encode_code_point cp out =
    if ltb cp 0x80
    then out ++ (cp % 2 ^ 8) ∷ []
    else if ltb cp 0x800
    then out ++ bit_or 0xC0 (cp / 2 ^ 6 % 2 ^ 8) ∷ continuation cp ∷ []
    else if ltb cp 0x10000
    then out ++ bit_or 0xE0 (cp / 2 ^ 12 % 2 ^ 8) ∷ continuation (cp / 2 ^ 6) ∷ continuation cp ∷ []
    else out
      ++ bit_or 0xF0 (cp / 2 ^ 18 % 2 ^ 8)
        ∷ continuation (cp / 2 ^ 12)
        ∷ continuation (cp / 2 ^ 6)
        ∷ continuation cp
        ∷ []

-- The loop of `from_utf16`, over the units that are left: the bytes so far and whether a lone
-- surrogate was met.
unfoldable pub from_utf16_loop : List ℕ → List ℕ → Bool → List ℕ × Bool
from_utf16_loop [] out lone = (out, lone)
from_utf16_loop (u ∷ []) out lone = (encode_code_point u out, lone || (is_high u || is_low u))
from_utf16_loop (u ∷ v ∷ rest) out lone = elim (is_high u && is_low v) [
  | true ↦ from_utf16_loop rest (encode_code_point (join_surrogates u v) out) lone
  | false ↦ from_utf16_loop (v ∷ rest) (encode_code_point u out) (lone || (is_high u || is_low u))
]

unfoldable pub from_utf16 : List ℕ → List ℕ → List ℕ × Bool
from_utf16 units out = from_utf16_loop units out false

-- The length of a sequence by its first byte, and the bits that byte gives; 0 for no first byte.
unfoldable pub lead : ℕ → ℕ × ℕ
lead b =
    if ltb b 0x80
    then (1, b)
    else if leb 0xC0 b && leb b 0xDF
    then (2, bit_and b 0x1F)
    else if leb 0xE0 b && leb b 0xEF
    then (3, bit_and b 0x0F)
    else if leb 0xF0 b && leb b 0xF7
    then (4, bit_and b 0x07)
    else (0, 0)

-- The loop `for k in 1..len`: false if a byte is no continuation byte.
unfoldable pub continue_with : ℕ → ℕ → List ℕ → Bool × ℕ
continue_with zero cp bytes = (true, cp)
continue_with (suc k) cp [] = (false, cp)
continue_with (suc k) cp (c ∷ bytes) =
    let rest = continue_with k (bit_or (cp * 2 ^ 6) (bit_and c 0x3F)) bytes in
    if bit_and c 0xC0 == 0x80 then rest else (false, cp)

-- The least code point that takes `len` bytes.
unfoldable pub least : ℕ → ℕ
least len = if leb len 1 then 0 else if len == 2 then 0x80 else if len == 3 then 0x800 else 0x10000

abbrev pub replacement : ℕ
replacement = 0xFFFD

-- What `next` yields where the bytes `b ∷ rest` are left, and by how much it advances `i`.
unfoldable pub next : ℕ → List ℕ → ℕ × ℕ
next b rest =
    let (len, init) = lead b in
    let (all_continue, cp) = continue_with (len - 1) init rest in
    if len == 0 || ltb (suc (length rest)) len
    then (replacement, 1)
    else if not all_continue
    then (replacement, 1)
    else if ltb cp (least len) || ltb 0x10FFFF cp
    then (replacement, 1)
    else (cp, len)

-- The iterator: the first argument is how many bytes the last item still covers.
unfoldable pub code_points_from : ℕ → List ℕ → List ℕ
code_points_from skip [] = []
code_points_from (suc skip) (b ∷ bytes) = code_points_from skip bytes
code_points_from zero (b ∷ bytes) =
    let item = next b bytes in item.0 ∷ code_points_from (item.1 - 1) bytes

unfoldable pub code_points : List ℕ → List ℕ
code_points bytes = code_points_from 0 bytes

-- The units that `to_utf16` pushes for a code point.
unfoldable pub units_of : ℕ → List ℕ
units_of cp =
    if ltb cp 0x10000
    then (cp % 2 ^ 16) ∷ []
    else let v = cp - 0x10000 in
      ((0xD800 + v / 2 ^ 10 % 2 ^ 16) % 2 ^ 16)
      ∷ ((0xDC00 + bit_and v 0x3FF % 2 ^ 16) % 2 ^ 16)
      ∷ []

unfoldable pub to_utf16_loop : List ℕ → List ℕ
to_utf16_loop [] = []
to_utf16_loop (cp ∷ cps) = units_of cp ++ to_utf16_loop cps

unfoldable pub to_utf16 : List ℕ → List ℕ
to_utf16 bytes = to_utf16_loop (code_points bytes)
