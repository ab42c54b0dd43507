-- ===== src/Proto/Frame/Chunks.antt =====
-- crates/goz-core/src/proto/frame.rs: `encode_frame` on one side and `next_frame` on the other, over
-- a transport that cuts the stream anywhere.
use goz.Prelude.{
  ℕ, zero, suc, ◌≤◌, ◌≡◌, refl, sym, ap, subst, ◌∙◌, inl, inr, true, Option, none, some, List, [],
  ◌∷◌, ◌++◌, length, replicate, All, arith, leb, Bool-cases, eq→==, length-drop,
}
use goz.Prelude.Bytes.{to_le_bytes}
use goz.Proto.Frame.{FrameDecoder, prefix_len, u32_max, pending, feed, new, encode_frame, is_empty}
use goz.Proto.Frame.Step.{IsValid, new-IsValid}
use goz.Proto.Frame.Stream.{Event, feeds, pops, run, fed, wire}
use goz.Proto.Frame.RoundTrip.{
  Expects, Fits, Delivers, progress, feeds-Expects, pops-Delivers, pops_frame-Delivers,
}
use mathlib.Core.List.{append_assoc, append-nil}
use mathlib.Core.Option
use mathlib.Core.Option.{some-injective}

pub drain-Delivers :
    (n : ℕ) (d : FrameDecoder) (ps : List (List ℕ))
    → Expects d [] ps
    → length ps ≤ n
    → Delivers d (replicate n pops) ps
unfolding run
drain-Delivers zero d [] x h = (refl, sym (append-nil (pending d)) ∙ x.stream, x.valid)
drain-Delivers zero d (p ∷ ps) x h = absurd (omega arith)
drain-Delivers (suc n) d ps x h = elim (progress d [] ps x) [
  | inl (e, stop) ↦
      pops-Delivers d (replicate n pops) ps e
        (drain-Delivers n d ps x (omega (arith, ap length (stop refl))))
  | inr (p, ps', d', eq, e, x') ↦ subst (Delivers d (pops ∷ replicate n pops)) (sym eq) (
      pops_frame-Delivers d d' (replicate n pops) p ps' e
        (drain-Delivers n d' ps' x' (omega (arith, ap length eq))))
]

run-Delivers :
    (es : List Event) (n : ℕ) (d : FrameDecoder) (ps : List (List ℕ))
    → Expects d (fed es) ps
    → length ps ≤ n
    → Delivers d (es ++ replicate n pops) ps
unfolding run
run-Delivers [] n d ps x h = drain-Delivers n d ps x h
run-Delivers (feeds bs ∷ es) n d ps x h =
    run-Delivers es n (feed d bs) ps (feeds-Expects d bs (fed es) ps x) h
run-Delivers (pops ∷ es) n d ps x h = elim (progress d (fed es) ps x) [
  | inl (e, _) ↦ pops-Delivers d (es ++ replicate n pops) ps e (run-Delivers es n d ps x h)
  | inr (p, ps', d', eq, e, x') ↦ subst (Delivers d (pops ∷ (es ++ replicate n pops))) (sym eq) (
      pops_frame-Delivers d d' (es ++ replicate n pops) p ps' e
        (run-Delivers es n d' ps' x' (omega (arith, ap length eq))))
]

-- The peer encodes the payloads one after the other into `out`.
unfoldable pub encode_all : List (List ℕ) → List ℕ → Option (List ℕ)
encode_all [] out = some out
encode_all (p ∷ ps) out = Option.bind (encode_frame p out) (encode_all ps)

encode_frame-some :
    (p out bytes : List ℕ)
    → encode_frame p out ≡ some bytes
    → (length p ≤ u32_max) × (out ++ wire (p ∷ []) ≡ bytes)
unfolding encode_frame
encode_frame-some p out bytes e = elim (Bool-cases (leb (length p) u32_max)) [
  | inl small ↦ (
    ground arith,
    ap (◌++◌ out) (append-nil _)
        ∙ sym (append_assoc out (to_le_bytes prefix_len (length p)) p)
        ∙ some-injective _ _ (rw small at e),
  )
  | inr big ↦ let no_frame : none ≡ some bytes = rw big at e in cc
]

encode_all-wire :
    (ps : List (List ℕ)) (out bytes : List ℕ)
    → encode_all ps out ≡ some bytes
    → All (λ p. length p ≤ u32_max) ps × (out ++ wire ps ≡ bytes)
unfolding encode_all
encode_all-wire [] out bytes e = (tt, append-nil out ∙ some-injective _ _ e)
encode_all-wire (p ∷ ps) out bytes e =
    let (mid, first, others) = (Option.bind-eq-some_iff (encode_frame p out) (encode_all ps)).0 e in
    let (small, front) = encode_frame-some p out mid first in
    let (smalls, whole) = encode_all-wire ps mid bytes others in
    (
      (small, smalls),
      ap (◌++◌ out)
            (ap (λ t. t ++ wire ps) (sym (append-nil (to_le_bytes prefix_len (length p) ++ p))))
          ∙ sym (append_assoc out (wire (p ∷ [])) (wire ps))
          ∙ ap (λ t. t ++ wire ps) front
          ∙ whole,
    )

All-both :
    (max : ℕ) (ps : List (List ℕ))
    → All (λ p. length p ≤ max) ps
    → All (λ p. length p ≤ u32_max) ps
    → All (Fits max) ps
All-both max [] h k = tt
All-both max (p ∷ ps) h k = ((h.0, k.0), All-both max ps h.1 k.1)

is_empty_of_pending : (d : FrameDecoder) → IsValid d → pending d ≡ [] → is_empty d ≡ true
unfolding is_empty
is_empty_of_pending d v e =
    eq→== _ _ (omega (arith, ap length e, length-drop d.read d.buf, v.in_range))

-- A peer encodes the payloads `ps`, none above the receiver's cap. However the transport cuts the
-- encoding, and however calls of `next_frame` fall between the pieces, when `length ps` more calls
-- have been made the decoder has yielded exactly `ps`, in order, and is empty.
pub run-encode_all :
    (max : ℕ) (ps : List (List ℕ)) (es : List Event)
    → All (λ p. length p ≤ max) ps
    → encode_all ps [] ≡ some (fed es)
    → ((run (new max) (es ++ replicate (length ps) pops)).1 ≡ ps)
      × (is_empty (run (new max) (es ++ replicate (length ps) pops)).0 ≡ true)
run-encode_all max ps es small e =
    let (u32s, whole) = encode_all-wire ps [] (fed es) e in
    let (frames, none_left, v) =
      run-Delivers es (length ps) (new max) ps (start whole (All-both max ps small u32s))
        (omega arith) in
    (frames, is_empty_of_pending _ v none_left)
  where
    start : wire ps ≡ fed es → All (Fits max) ps → Expects (new max) (fed es) ps
    start whole fit =
        unfold new in
        record { valid = new-IsValid max; fresh = refl; stream = sym whole; fit = fit }
