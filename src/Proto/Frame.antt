-- ===== src/Proto/Frame.antt =====
-- crates/goz-core/src/proto/frame.rs: the frame encoder and the incremental frame decoder.
-- A byte slice is a list of numbers below 256; an offset into it is a number.
pub mod Step
pub mod Stream
pub mod Delivery
pub mod RoundTrip
pub mod Chunks
pub mod Poison
mod Runs
use goz.Prelude.{
  ℕ, ◌+◌, Bool, Option, none, some, List, [], ◌++◌, Result, ok, err, ltb, leb, ◌==◌, if◌then◌else◌,
  length, take, drop,
}
use goz.Prelude.Bytes.{to_le_bytes, from_le_bytes}

abbrev pub prefix_len : ℕ
prefix_len = 4

abbrev pub compact_threshold : ℕ
compact_threshold = 65536

abbrev pub u32_max : ℕ
u32_max = 0xffff_ffff

-- `none` is the panic of `expect` on a payload whose length is no `u32`.
unfoldable pub encode_frame : List ℕ → List ℕ → Option (List ℕ)
encode_frame payload out =
    if leb (length payload) u32_max
    then some ((out ++ to_le_bytes prefix_len (length payload)) ++ payload)
    else none

pub data FrameError : Type 0 where
  too_large : ℕ → ℕ → FrameError

pub record FrameDecoder : Type 0 where
  pub buf : List ℕ
  pub read : ℕ
  pub max_frame : ℕ
  pub poisoned : Option (ℕ × ℕ)

unfoldable pub new : ℕ → FrameDecoder
new max_frame = record { buf = []; read = 0; max_frame = max_frame; poisoned = none }

unfoldable pub feed : FrameDecoder → List ℕ → FrameDecoder
feed d bytes = record d { buf = d.buf ++ bytes }

unfoldable pub is_empty : FrameDecoder → Bool
is_empty d = d.read == length d.buf

-- The bytes `buf[read..]` that have not left in a frame.
abbrev pub pending : FrameDecoder → List ℕ
pending d = drop d.read d.buf

-- The end of `next_frame`: `read` moves past the frame, and the buffer is cleared or compacted.
unfoldable pub advance : FrameDecoder → ℕ → FrameDecoder
advance d total =
    let read = d.read + total in
    if read == length d.buf
    then record d { buf = []; read = 0 }
    else if leb compact_threshold read
    then record d { buf = drop read d.buf; read = 0 }
    else record d { read = read }

unfoldable pub next_fresh : FrameDecoder → FrameDecoder × Result (Option (List ℕ)) FrameError
unfolding advance
next_fresh d =
    let avail = pending d in
    let len = from_le_bytes (take prefix_len avail) in
    let total = prefix_len + len in
    if ltb (length avail) prefix_len
    then (d, ok none)
    else if ltb d.max_frame len
    then (record d { poisoned = some (len, d.max_frame) }, err (too_large len d.max_frame))
    else if ltb (length avail) total
    then (d, ok none)
    else (advance d total, ok (some (take len (drop prefix_len avail))))

-- Behind the first test of `next_frame`: a poisoned decoder returns the error that poisoned it.
unfoldable pub check_poison :
    Option (ℕ × ℕ) → FrameDecoder → FrameDecoder × Result (Option (List ℕ)) FrameError
unfolding next_fresh
check_poison (some (len, max)) d = (d, err (too_large len max))
check_poison none d = next_fresh d

unfoldable pub next_frame : FrameDecoder → FrameDecoder × Result (Option (List ℕ)) FrameError
unfolding check_poison
next_frame d = check_poison d.poisoned d
