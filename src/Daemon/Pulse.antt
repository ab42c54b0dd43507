-- ===== src/Daemon/Pulse.antt =====
-- crates/goz-daemon/src/pulse.rs: a tail thread's liveness, packed into one 64-bit word.
pub mod Word
pub mod Life
mod Runs
use goz.Prelude.{
  ℕ, ◌+◌, ◌*◌, ◌/◌, ◌%◌, ◌^◌, Bool, true, false, List, [], ◌∷◌, bit_and, bit_or, ◌==◌,
  if◌then◌else◌,
}

abbrev pub tag_shift : ℕ
tag_shift = 62

abbrev pub secs_mask : ℕ
secs_mask = 0x3fff_ffff_ffff_ffff

abbrev pub tag_beat : ℕ
tag_beat = 0

abbrev pub tag_busy : ℕ
tag_busy = 1

abbrev pub tag_retired : ℕ
tag_retired = 2

pub data Pulse : Type 0 where
  beat : ℕ → Pulse
  busy : ℕ → Pulse
  retired : Pulse

-- `(tag << TAG_SHIFT) | (secs & SECS_MASK)` of `u64`s
unfoldable pub pack : ℕ → ℕ → ℕ
pack tag secs = bit_or (tag * 2 ^ 62 % 2 ^ 64) (bit_and secs secs_mask)

unfoldable pub load : ℕ → Pulse
load word =
    if word / 2 ^ 62 == tag_busy
    then busy (bit_and word secs_mask)
    else if word / 2 ^ 62 == tag_retired
    then retired
    else beat (bit_and word secs_mask)

-- What stores to the word: the two stamps at an instant, the end of a busy scope, and the drop of the
-- retire guard.
pub data Store : Type 0 where
  beats enters_busy leaves_busy : ℕ → Store
  retires : Store

unfoldable pub store : Store → ℕ
store (beats secs) = pack tag_beat secs
store (enters_busy secs) = pack tag_busy secs
store (leaves_busy secs) = pack tag_beat secs
store retires = pack tag_retired 0

-- A word after a sequence of stores.
unfoldable pub stored : ℕ → List Store → ℕ
stored word [] = word
stored word (s ∷ rest) = stored (store s) rest

-- `TailPulse::new`
unfoldable pub new : ℕ → ℕ
new secs = pack tag_beat secs
