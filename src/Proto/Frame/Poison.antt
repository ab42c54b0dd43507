-- ===== src/Proto/Frame/Poison.antt =====
-- crates/goz-core/src/proto/frame.rs: oversize prefixes.
use goz.Prelude.{
  ℕ, ◌≤◌, ◌<◌, ◌≡◌, refl, ap, inl, inr, none, some, List, [], ◌∷◌, err, length, arith,
}
use goz.Proto.Frame.{FrameDecoder, too_large, prefix_len, pending, next_frame, feed}
use goz.Proto.Frame.Step.{announced, next_frame_cases}
use goz.Proto.Frame.Stream.{Event, feeds, pops, run, frames_of, next_frame_poisoned}

poisoned_run :
    (es : List Event) (d : FrameDecoder) (len max : ℕ)
    → d.poisoned ≡ some (len, max)
    → ((run d es).0.poisoned ≡ some (len, max)) × ((run d es).1 ≡ [])
unfolding run frames_of feed
poisoned_run [] d len max p = (p, refl)
poisoned_run (feeds bs ∷ es) d len max p = poisoned_run es (feed d bs) len max p
poisoned_run (pops ∷ es) d len max p =
    rw (next_frame_poisoned d len max p) (poisoned_run es d len max p)

-- Once the four prefix bytes are pending and announce more than the cap, `next_frame` fails with
-- that length, no matter how much of the body has arrived; after that, whatever is fed and however
-- often it is called, no frame comes out and it fails with the same error.
pub oversize_sticky :
    (d : FrameDecoder) (es : List Event)
    → d.poisoned ≡ none
    → prefix_len ≤ length (pending d)
    → d.max_frame < announced d
    → ((next_frame d).1 ≡ err (too_large (announced d) d.max_frame))
      × ((run (next_frame d).0 es).1 ≡ [])
      × ((next_frame (run (next_frame d).0 es).0).1 ≡ err (too_large (announced d) d.max_frame))
oversize_sticky d es p long big = elim (next_frame_cases d p) [
  | inl (_, inl short) ↦ absurd (omega arith)
  | inl (_, inr (small, _)) ↦ absurd (omega arith)
  | inr (inl (e, _, _)) ↦
      let (still, no_frames) =
        poisoned_run es (record d { poisoned = some (announced d, d.max_frame) }) (announced d)
          d.max_frame refl in
      rw e (refl, no_frames, ap (λ r. r.1) (next_frame_poisoned _ _ _ still))
  | inr (inr (_, _, small)) ↦ absurd (omega arith)
]
