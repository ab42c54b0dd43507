-- ===== src/Proto/Frame/RoundTrip.antt =====
-- crates/goz-core/src/proto/frame.rs: streams that a peer encoded.
use goz.Prelude.{
  ℕ, ◌+◌, ◌≤◌, ◌<◌, ◌≡◌, refl, sym, ap, subst, ◌∙◌, ◌⊎◌, inl, inr, none, some, List, [], ◌∷◌, ◌++◌,
  ok, length, take, drop, All, length-append, take-append, drop-append, drop-append_le,
  take-append_le, drop-drop, length-drop, arith,
}
use goz.Prelude.Bytes.{to_le_bytes, from_le_bytes, length-to_le_bytes, from_le_bytes-to_le_bytes}
use goz.Proto.Frame.{FrameDecoder, prefix_len, u32_max, pending, advance, next_frame, feed}
use goz.Proto.Frame.Step.{
  IsValid, feed-IsValid, feed-pending, advance-IsValid, advance-pending, announced,
  next_frame_cases,
}
use goz.Proto.Frame.Stream.{Event, pops, frames_of, run, wire, advance-cap}
use mathlib.Core.List.{append_assoc}

advance-poisoned : (d : FrameDecoder) (n : ℕ) → (advance d n).poisoned ≡ d.poisoned
unfolding advance
advance-poisoned d n = ground arith

-- A payload that both sides accept: its length is a `u32`, and within the receiver's cap.
abbrev pub Fits : ℕ → List ℕ → Type 0
Fits max p = (length p ≤ max) × (length p ≤ u32_max)

-- The decoder stands somewhere in the encoding of `ps`: its pending bytes and those to come are it.
pub record Expects (d : FrameDecoder) (rest : List ℕ) (ps : List (List ℕ)) : Type 0 where
  pub valid : IsValid d
  pub fresh : d.poisoned ≡ none
  pub stream : pending d ++ rest ≡ wire ps
  pub fit : All (Fits d.max_frame) ps

-- With a whole prefix at hand the announced length is that of the next payload.
module _ (s rest p : List ℕ) (ps : List (List ℕ)) (stream : s ++ rest ≡ wire (p ∷ ps)) where
  whole_prefix : prefix_len ≤ length s → take prefix_len s ≡ to_le_bytes prefix_len (length p)
  whole_prefix h =
      sym (take-append_le s rest prefix_len h)
      ∙ ap (take prefix_len) (stream ∙ append_assoc _ p (wire ps))
      ∙ take-append _ (p ++ wire ps) prefix_len (length-to_le_bytes prefix_len (length p))

  prefix_value :
      prefix_len ≤ length s → length p ≤ u32_max → from_le_bytes (take prefix_len s) ≡ length p
  prefix_value h k =
      ap from_le_bytes (whole_prefix h)
      ∙ from_le_bytes-to_le_bytes prefix_len (length p) (omega arith)

  after_prefix : prefix_len ≤ length s → drop prefix_len s ++ rest ≡ p ++ wire ps
  after_prefix h =
      sym (drop-append_le s rest prefix_len h)
      ∙ ap (drop prefix_len) (stream ∙ append_assoc _ p (wire ps))
      ∙ drop-append _ (p ++ wire ps) prefix_len (length-to_le_bytes prefix_len (length p))

  stream_length : length s + length rest ≡ prefix_len + length p + length (wire ps)
  stream_length = omega (
    arith,
    ap length stream,
    length-append s rest,
    length-append (to_le_bytes prefix_len (length p) ++ p) (wire ps),
    length-append (to_le_bytes prefix_len (length p)) p,
    length-to_le_bytes prefix_len (length p),
  )

  whole_payload :
      prefix_len + length p ≤ length s
      → (take (length p) (drop prefix_len s) ≡ p)
        × (drop (prefix_len + length p) s ++ rest ≡ wire ps)
  whole_payload h = (
    sym (take-append_le (drop prefix_len s) rest (length p) fits)
        ∙ ap (take (length p)) (after_prefix (omega arith))
        ∙ take-append p (wire ps) (length p) refl,
    ap (λ t. t ++ rest) (sym (drop-drop prefix_len (length p) s))
        ∙ sym (drop-append_le (drop prefix_len s) rest (length p) fits)
        ∙ ap (drop (length p)) (after_prefix (omega arith))
        ∙ drop-append p (wire ps) (length p) refl,
  )
    where
      fits : length p ≤ length (drop prefix_len s)
      fits = omega (arith, length-drop prefix_len s)

-- One call on such a decoder: it waits, and only while bytes are to come, or it pops the next payload.
abbrev pub Progress : FrameDecoder → List ℕ → List (List ℕ) → Type 0
Progress d rest ps =
    ((next_frame d ≡ (d, ok none)) × (rest ≡ [] → ps ≡ []))
    ⊎ ((p : List ℕ) × (ps' : List (List ℕ)) × (d' : FrameDecoder) × (ps ≡ p ∷ ps')
        × (next_frame d ≡ (d', ok (some p)))
        × Expects d' rest ps')

Progress-nil : (d : FrameDecoder) (rest : List ℕ) → Expects d rest [] → Progress d rest []
Progress-nil d rest x = elim (next_frame_cases d x.fresh) [
  | inl (e, _) ↦ inl (e, λ _. refl)
  | inr (inl (_, long, _)) ↦ absurd (omega (arith, empty))
  | inr (inr (_, long, _)) ↦ absurd (omega (arith, empty))
]
  where
    empty : length (pending d) + length rest ≡ 0
    empty = omega (arith, ap length x.stream, length-append (pending d) rest)

Progress-cons :
    (d : FrameDecoder) (rest p : List ℕ) (ps : List (List ℕ))
    → Expects d rest (p ∷ ps)
    → Progress d rest (p ∷ ps)
Progress-cons d rest p ps x = elim (next_frame_cases d x.fresh) [
  | inl (e, short) ↦ inl (e, λ none_left. absurd (too_short short (ap length none_left)))
  | inr (inl (_, long, big)) ↦
      absurd (omega (arith, x.fit.0.0, prefix_value (pending d) rest p ps x.stream long x.fit.0.1))
  | inr (inr (e, long, _)) ↦ inr (popped e long)
]
  where
    value : prefix_len ≤ length (pending d) → announced d ≡ length p
    value h = prefix_value (pending d) rest p ps x.stream h x.fit.0.1

    too_short :
        (length (pending d) < prefix_len)
          ⊎ ((announced d ≤ d.max_frame) × (length (pending d) < prefix_len + announced d))
        → length rest ≡ 0
        → ⊥
    too_short (inl h) k = omega (arith, stream_length (pending d) rest p ps x.stream)
    too_short (inr h) k = omega (
      arith,
      stream_length (pending d) rest p ps x.stream,
      value (omega (arith, stream_length (pending d) rest p ps x.stream)),
    )

    popped :
        next_frame d ≡ (
          advance d (prefix_len + announced d),
          ok (some (take (announced d) (drop prefix_len (pending d)))),
        )
        → prefix_len + announced d ≤ length (pending d)
        → (p' : List ℕ) × (ps' : List (List ℕ)) × (d' : FrameDecoder) × (p ∷ ps ≡ p' ∷ ps')
          × (next_frame d ≡ (d', ok (some p')))
          × Expects d' rest ps'
    popped e long =
        let v = value (omega arith) in
        let parts = whole_payload (pending d) rest p ps x.stream (omega arith) in
        (
          p,
          ps,
          advance d (prefix_len + announced d),
          refl,
          e
              ∙ ap (λ t. (advance d (prefix_len + announced d), ok (some t)))
                  (ap (λ n. take n (drop prefix_len (pending d))) v ∙ parts.0),
          record {
            valid = advance-IsValid d (prefix_len + announced d) x.valid long;
            fresh = advance-poisoned d _ ∙ x.fresh;
            stream =
                ap (λ t. t ++ rest)
                  (advance-pending d _ ∙ ap (λ n. drop (prefix_len + n) (pending d)) v)
                ∙ parts.1;
            fit = subst (λ n. All (Fits n) ps) (sym (advance-cap d _)) x.fit.1;
          },
        )

pub progress :
    (d : FrameDecoder) (rest : List ℕ) (ps : List (List ℕ)) → Expects d rest ps → Progress d rest ps
progress d rest [] x = Progress-nil d rest x
progress d rest (p ∷ ps) x = Progress-cons d rest p ps x

pub feeds-Expects :
    (d : FrameDecoder) (bs rest : List ℕ) (ps : List (List ℕ))
    → Expects d (bs ++ rest) ps
    → Expects (feed d bs) rest ps
unfolding feed
feeds-Expects d bs rest ps x = record {
  valid = feed-IsValid d bs x.valid;
  fresh = x.fresh;
  stream =
      ap (λ t. t ++ rest) (feed-pending d bs x.valid) ∙ append_assoc (pending d) bs rest ∙ x.stream;
  fit = x.fit;
}

-- The frames that came out are the payloads, and no byte is left over.
abbrev pub Delivers : FrameDecoder → List Event → List (List ℕ) → Type 0
Delivers d es ps = ((run d es).1 ≡ ps) × (pending (run d es).0 ≡ []) × IsValid (run d es).0

pub pops-Delivers :
    (d : FrameDecoder) (es : List Event) (ps : List (List ℕ))
    → next_frame d ≡ (d, ok none)
    → Delivers d es ps
    → Delivers d (pops ∷ es) ps
unfolding run frames_of
pops-Delivers d es ps e h = rw e h

pub pops_frame-Delivers :
    (d d' : FrameDecoder) (es : List Event) (p : List ℕ) (ps : List (List ℕ))
    → next_frame d ≡ (d', ok (some p))
    → Delivers d' es ps
    → Delivers d (pops ∷ es) (p ∷ ps)
unfolding run frames_of
pops_frame-Delivers d d' es p ps e h = rw e (ap (◌∷◌ p) h.0, h.1, h.2)
