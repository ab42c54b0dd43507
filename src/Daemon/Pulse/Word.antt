-- ===== src/Daemon/Pulse/Word.antt =====
-- crates/goz-daemon/src/pulse.rs: the tag and the seconds of a packed word.
use goz.Prelude.{ℕ, ◌+◌, ◌*◌, ◌/◌, ◌%◌, ◌^◌, ◌<◌, ◌≡◌, refl, ◌∙◌, bit_and, arith}
use goz.Prelude.Bits.{bit_and-ones, bit_or_disjoint}
use goz.Daemon.Pulse.{secs_mask, tag_beat, tag_busy, tag_retired, beat, busy, retired, pack, load}

pack_lem : (tag secs : ℕ) → tag < 4 → secs < 2 ^ 62 → pack tag secs ≡ tag * 2 ^ 62 + secs
unfolding pack
pack_lem tag secs ht hs =
    let low : bit_and secs secs_mask ≡ secs = bit_and-ones 62 secs ∙ omega (arith, hs) in
    let high : tag * 2 ^ 62 % 2 ^ 64 ≡ tag * 2 ^ 62 = omega (arith, ht) in
    rw (low, high) (bit_or_disjoint 62 tag secs hs)

-- The tag and the seconds of a packed word are read back as they were.
pub parts-pack :
    (tag secs : ℕ)
    → tag < 4
    → secs < 2 ^ 62
    → (pack tag secs / 2 ^ 62 ≡ tag) × (bit_and (pack tag secs) secs_mask ≡ secs)
parts-pack tag secs ht hs =
    rw (pack_lem tag secs ht hs)
      (omega (arith, hs), bit_and-ones 62 (tag * 2 ^ 62 + secs) ∙ omega (arith, hs))

pub load-beat : (secs : ℕ) → secs < 2 ^ 62 → load (pack tag_beat secs) ≡ beat secs
unfolding load
load-beat secs h = let p = parts-pack tag_beat secs (omega arith) h in rw (p.0, p.1) refl

pub load-busy : (secs : ℕ) → secs < 2 ^ 62 → load (pack tag_busy secs) ≡ busy secs
unfolding load
load-busy secs h = let p = parts-pack tag_busy secs (omega arith) h in rw (p.0, p.1) refl

pub load-retired : load (pack tag_retired 0) ≡ retired
unfolding load
load-retired = let p = parts-pack tag_retired 0 (omega arith) (omega arith) in rw p.0 refl
