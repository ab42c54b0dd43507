-- ===== src/Proto/Frame/Runs.antt =====
-- Concrete runs of the frame codec, and its theorems at concrete inputs.
use goz.Prelude.{◌≡◌, refl, none, some, List, [], ◌∷◌, ◌++◌, err, true, arith}
use goz.Prelude.Bytes.{to_le_bytes, from_le_bytes}
use goz.Proto.Frame.{FrameDecoder, too_large, new, next_frame, encode_frame, is_empty}
use goz.Proto.Frame.Stream.{Event, feeds, pops, run, fed}
use goz.Proto.Frame.Chunks.{encode_all, run-encode_all}
use goz.Proto.Frame.Poison.{oversize_sticky}
use mathlib.Core.Option

encode_abc : encode_frame (97 ∷ 98 ∷ 99 ∷ []) [] ≡ some (3 ∷ 0 ∷ 0 ∷ 0 ∷ 97 ∷ 98 ∷ 99 ∷ [])
unfolding encode_frame to_le_bytes
encode_abc = refl

-- Two frames, the first prefix cut in half, with a call too early.
abbrev pieces : List Event
pieces =
    feeds (2 ∷ 0 ∷ [])
    ∷ pops
    ∷ feeds (0 ∷ 0 ∷ 120 ∷ 121 ∷ 0 ∷ [])
    ∷ pops
    ∷ feeds (0 ∷ 0 ∷ 0 ∷ [])
    ∷ []

pieces_encode : encode_all ((120 ∷ 121 ∷ []) ∷ [] ∷ []) [] ≡ some (fed pieces)
unfolding encode_all encode_frame to_le_bytes Option.bind
pieces_encode = refl

run-encode_all_example :
    ((run (new 16) (pieces ++ (pops ∷ pops ∷ []))).1 ≡ (120 ∷ 121 ∷ []) ∷ [] ∷ [])
    × (is_empty (run (new 16) (pieces ++ (pops ∷ pops ∷ []))).0 ≡ true)
run-encode_all_example =
    run-encode_all 16 ((120 ∷ 121 ∷ []) ∷ [] ∷ []) pieces (omega arith) pieces_encode

-- A peer announces 2^24 bytes to a decoder with a cap of 16.
abbrev flooded : FrameDecoder
flooded = record { buf = 0 ∷ 0 ∷ 0 ∷ 1 ∷ []; read = 0; max_frame = 16; poisoned = none }

oversize_sticky_example :
    ((next_frame flooded).1 ≡ err (too_large 0x100_0000 16))
    × ((run (next_frame flooded).0 pieces).1 ≡ [])
    × ((next_frame (run (next_frame flooded).0 pieces).0).1 ≡ err (too_large 0x100_0000 16))
unfolding from_le_bytes
oversize_sticky_example = oversize_sticky flooded pieces refl (omega arith) (omega arith)
