-- ===== src/Proto/Frame/Stream.antt =====
-- crates/goz-core/src/proto/frame.rs: a decoder driven by a transport that delivers bytes in any
-- pieces, with `next_frame` called at any time between them.
use goz.Prelude.{
  ℕ, ◌+◌, ◌≤◌, ◌≡◌, refl, sym, ap, ◌∙◌, inl, inr, Option, none, some, List, [], ◌∷◌, ◌++◌, Result,
  ok, err, Option-cases, length, take, drop, All, All-take, take-append-drop, length-take,
  length-drop, drop-drop, arith,
}
use goz.Prelude.Bytes.{IsByte, to_le_bytes, from_le_bytes, to_le_bytes-from_le_bytes}
use goz.Proto.Frame.{
  FrameDecoder, FrameError, too_large, prefix_len, pending, advance, check_poison, next_frame, feed,
}
use goz.Proto.Frame.Step.{IsValid, advance-IsValid, advance-pending, announced, next_frame_cases}
use mathlib.Core.List.{append_assoc, append-nil}

pub data Event : Type 0 where
  feeds : List ℕ → Event
  pops : Event

-- The frame that a call of `next_frame` yields, if it yields one.
unfoldable pub frames_of : Result (Option (List ℕ)) FrameError → List (List ℕ)
frames_of (ok none) = []
frames_of (ok (some f)) = f ∷ []
frames_of (err e) = []

-- The decoder after the events, with the frames that it yielded, oldest first.
unfoldable pub run : FrameDecoder → List Event → FrameDecoder × List (List ℕ)
run d [] = (d, [])
run d (feeds bytes ∷ es) = run (feed d bytes) es
run d (pops ∷ es) =
    let rest = run (next_frame d).0 es in (rest.0, frames_of (next_frame d).1 ++ rest.1)

abbrev pub fed : List Event → List ℕ
fed [] = []
fed (feeds bytes ∷ es) = bytes ++ fed es
fed (pops ∷ es) = fed es

-- The bytes of the frames with these payloads, one after the other.
abbrev pub wire : List (List ℕ) → List ℕ
wire [] = []
wire (f ∷ fs) = (to_le_bytes prefix_len (length f) ++ f) ++ wire fs

pub wire-append : (fs gs : List (List ℕ)) → wire (fs ++ gs) ≡ wire fs ++ wire gs
wire-append [] gs = refl
wire-append (f ∷ fs) gs =
    ap (λ t. (to_le_bytes prefix_len (length f) ++ f) ++ t) (wire-append fs gs)
    ∙ sym (append_assoc (to_le_bytes prefix_len (length f) ++ f) (wire fs) (wire gs))

pub next_frame_poisoned :
    (d : FrameDecoder) (len max : ℕ)
    → d.poisoned ≡ some (len, max)
    → next_frame d ≡ (d, err (too_large len max))
unfolding next_frame
next_frame_poisoned d len max e = ap (λ q. check_poison q d) e

cut : (s : List ℕ) (k n : ℕ) → (take k s ++ take n (drop k s)) ++ drop (k + n) s ≡ s
cut s k n =
    append_assoc (take k s) (take n (drop k s)) (drop (k + n) s)
    ∙ ap (λ t. take k s ++ (take n (drop k s) ++ t)) (sym (drop-drop k n s))
    ∙ ap (λ t. take k s ++ t) (take-append-drop n (drop k s))
    ∙ take-append-drop k s

module _ (s : List ℕ) (n : ℕ) (enough : prefix_len + n ≤ length s) where
  length-payload : length (take n (drop prefix_len s)) ≡ n
  length-payload = omega (arith, length-take n (drop prefix_len s), length-drop prefix_len s)

  -- What `next_frame` takes out is what `encode_frame` would write of the payload.
  split_frame :
      All IsByte s
      → from_le_bytes (take prefix_len s) ≡ n
      → wire (take n (drop prefix_len s) ∷ []) ++ drop (prefix_len + n) s ≡ s
  split_frame b e =
      rw (length-payload, append-nil)
        (rw
          (ap (to_le_bytes prefix_len) (sym e)
            ∙ to_le_bytes-from_le_bytes prefix_len (take prefix_len s)
                (omega (arith, length-take prefix_len s)) (All-take IsByte prefix_len s b))
          (cut s prefix_len n))

-- One call of `next_frame` moves bytes from the pending ones into the frame, and loses none.
pub record Moves (d d' : FrameDecoder) (fs : List (List ℕ)) : Type 0 where
  pub valid : IsValid d'
  pub cap : d'.max_frame ≡ d.max_frame
  pub bytes : wire fs ++ pending d' ≡ pending d
  pub fits : All (λ f. length f ≤ d.max_frame) fs

stays : (d : FrameDecoder) → IsValid d → Moves d d []
stays d v = record { valid = v; cap = refl; bytes = refl; fits = tt }

pub advance-cap : (d : FrameDecoder) (n : ℕ) → (advance d n).max_frame ≡ d.max_frame
unfolding advance
advance-cap d n = ground arith

fresh-Moves :
    (d : FrameDecoder)
    → IsValid d
    → All IsByte (pending d)
    → d.poisoned ≡ none
    → Moves d (next_frame d).0 (frames_of (next_frame d).1)
unfolding frames_of
fresh-Moves d v b p = elim (next_frame_cases d p) [
  | inl (e, _) ↦ rw e (stays d v)
  | inr (inl (e, _, _)) ↦ rw e (record {
    valid = omega (arith, v.in_range, v.compacted);
    cap = refl;
    bytes = refl;
    fits = tt;
  })
  | inr (inr (e, whole, small)) ↦ rw e (record {
    valid = advance-IsValid d (prefix_len + announced d) v whole;
    cap = advance-cap d _;
    bytes =
        ap (λ t. wire (take (announced d) (drop prefix_len (pending d)) ∷ []) ++ t)
          (advance-pending d _)
        ∙ split_frame (pending d) (announced d) whole b refl;
    fits = (omega (arith, length-payload (pending d) (announced d) whole), tt);
  })
]

pub next_frame-Moves :
    (d : FrameDecoder)
    → IsValid d
    → All IsByte (pending d)
    → Moves d (next_frame d).0 (frames_of (next_frame d).1)
unfolding frames_of
next_frame-Moves d v b = elim (Option-cases d.poisoned) [
  | inl fresh ↦ fresh-Moves d v b fresh
  | inr ((len, max), e) ↦ rw (next_frame_poisoned d len max e) (stays d v)
]
