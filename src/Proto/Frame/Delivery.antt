-- ===== src/Proto/Frame/Delivery.antt =====
-- crates/goz-core/src/proto/frame.rs: the bytes of a stream and the frames that leave the decoder.
use goz.Prelude.{
  ℕ, ◌≤◌, ◌≡◌, sym, ap, subst, ◌∙◌, List, [], ◌∷◌, ◌++◌, length, All, All-append, All-append_left,
  All-append_right,
}
use goz.Prelude.Bytes.{IsByte}
use goz.Proto.Frame.{FrameDecoder, pending, next_frame, feed, new}
use goz.Proto.Frame.Step.{IsValid, new-IsValid, feed-IsValid, feed-pending}
use goz.Proto.Frame.Stream.{
  Event, feeds, pops, frames_of, run, fed, wire, wire-append, Moves, next_frame-Moves,
}
use mathlib.Core.List.{append_assoc, append-nil}

pub record Conserves (d : FrameDecoder) (es : List Event) : Type 0 where
  pub valid : IsValid (run d es).0
  pub bytes : wire (run d es).1 ++ pending (run d es).0 ≡ pending d ++ fed es
  pub fits : All (λ f. length f ≤ d.max_frame) (run d es).1

feeds-Conserves :
    (d : FrameDecoder) (bs : List ℕ) (es : List Event)
    → IsValid d
    → Conserves (feed d bs) es
    → Conserves d (feeds bs ∷ es)
unfolding run feed
feeds-Conserves d bs es v rest = record {
  valid = rest.valid;
  bytes =
      rest.bytes
      ∙ ap (λ t. t ++ fed es) (feed-pending d bs v)
      ∙ append_assoc (pending d) bs (fed es);
  fits = rest.fits;
}

pops-Conserves :
    (d : FrameDecoder) (es : List Event)
    → Moves d (next_frame d).0 (frames_of (next_frame d).1)
    → Conserves (next_frame d).0 es
    → Conserves d (pops ∷ es)
unfolding run
pops-Conserves d es m rest = record {
  valid = rest.valid;
  bytes =
      ap (λ t. t ++ pending (run (next_frame d).0 es).0)
        (wire-append out (run (next_frame d).0 es).1)
      ∙ append_assoc (wire out) (wire (run (next_frame d).0 es).1)
          (pending (run (next_frame d).0 es).0)
      ∙ ap (λ t. wire out ++ t) rest.bytes
      ∙ sym (append_assoc (wire out) (pending (next_frame d).0) (fed es))
      ∙ ap (λ t. t ++ fed es) m.bytes;
  fits =
      All-append (λ f. length f ≤ d.max_frame) out (run (next_frame d).0 es).1 m.fits
        (subst (λ n. All (λ f. length f ≤ n) (run (next_frame d).0 es).1) m.cap rest.fits);
}
  where
    out : List (List ℕ)
    out = frames_of (next_frame d).1

run-Conserves :
    (d : FrameDecoder) (es : List Event)
    → IsValid d
    → All IsByte (pending d)
    → All IsByte (fed es)
    → Conserves d es
unfolding run
run-Conserves d [] v b c = record { valid = v; bytes = sym (append-nil (pending d)); fits = tt }
run-Conserves d (feeds bs ∷ es) v b c = feeds-Conserves d bs es v (
    run-Conserves (feed d bs) es (feed-IsValid d bs v)
      (subst (All IsByte) (sym (feed-pending d bs v))
        (All-append IsByte (pending d) bs b (All-append_left IsByte bs (fed es) c)))
      (All-append_right IsByte bs (fed es) c))
run-Conserves d (pops ∷ es) v b c =
    let m = next_frame-Moves d v b in
    pops-Conserves d es m (
      run-Conserves (next_frame d).0 es m.valid
        (All-append_right IsByte (wire (frames_of (next_frame d).1)) (pending (next_frame d).0)
          (subst (All IsByte) (sym m.bytes) b))
        c)

-- Whatever bytes arrive and whenever `next_frame` is called, the frames that came out, encoded again,
-- followed by the bytes still pending, are exactly the bytes that were fed, and no frame exceeds the
-- cap. The offset into the buffer stays in range and below the compaction threshold.
run-new_conserves :
    (max : ℕ) (es : List Event)
    → All IsByte (fed es)
    → (wire (run (new max) es).1 ++ pending (run (new max) es).0 ≡ fed es)
      × All (λ f. length f ≤ max) (run (new max) es).1
      × IsValid (run (new max) es).0
unfolding new
run-new_conserves max es b =
    let c = run-Conserves (new max) es (new-IsValid max) tt b in (c.bytes, c.fits, c.valid)
