-- ===== src/Proto/Frame/Step.antt =====
-- crates/goz-core/src/proto/frame.rs: what one call of `next_frame` does to the pending bytes.
use goz.Prelude.{
  ℕ, ◌+◌, ◌≤◌, ◌<◌, ◌≡◌, sym, ap, ◌∙◌, ◌⊎◌, inl, inr, none, some, List, ◌++◌, ok, err, ltb, leb,
  ◌==◌, Bool-cases, ltb→lt, ltb_false→le, ==_iff, length, take, drop, length-drop, drop-drop,
  drop_all, drop-append_le, length-append, arith,
}
use goz.Prelude.Bytes.{from_le_bytes}
use goz.Proto.Frame.{
  FrameDecoder, too_large, prefix_len, compact_threshold, pending, advance, next_fresh,
  check_poison, next_frame, feed, new,
}

-- No index of `buf[read..]` is out of range, and fewer consumed bytes than the threshold are kept.
pub record IsValid (d : FrameDecoder) : Type 0 where
  pub in_range : d.read ≤ length d.buf
  pub compacted : d.read < compact_threshold

pub new-IsValid : (max : ℕ) → IsValid (new max)
unfolding new
new-IsValid max = omega arith

pub feed-IsValid : (d : FrameDecoder) (bytes : List ℕ) → IsValid d → IsValid (feed d bytes)
unfolding feed
feed-IsValid d bytes v = record {
  in_range = omega (arith, length-append d.buf bytes, v.in_range);
  compacted = v.compacted;
}

pub feed-pending :
    (d : FrameDecoder) (bytes : List ℕ) → IsValid d → pending (feed d bytes) ≡ pending d ++ bytes
unfolding feed
feed-pending d bytes v = drop-append_le d.buf bytes d.read v.in_range

pub advance-IsValid :
    (d : FrameDecoder) (n : ℕ) → IsValid d → n ≤ length (pending d) → IsValid (advance d n)
unfolding advance
advance-IsValid d n v h =
    ground (arith, length-drop d.read d.buf, length-drop (d.read + n) d.buf, v.in_range)

-- Clearing and compacting the buffer do not show: the pending bytes lose their first `n`.
pub advance-pending : (d : FrameDecoder) (n : ℕ) → pending (advance d n) ≡ drop n (pending d)
unfolding advance
advance-pending d n = elim (Bool-cases (d.read + n == length d.buf)) [
  | inl e ↦ rw e (
      sym
        (drop-drop d.read n d.buf ∙ drop_all (d.read + n) d.buf (omega (arith, (==_iff _ _).0 e))))
  | inr e ↦ rw e (elim (Bool-cases (leb compact_threshold (d.read + n))) [
    | inl c ↦ rw c (sym (drop-drop d.read n d.buf))
    | inr c ↦ rw c (sym (drop-drop d.read n d.buf))
  ])
]

-- The payload length that the first four pending bytes announce.
abbrev pub announced : FrameDecoder → ℕ
announced d = from_le_bytes (take prefix_len (pending d))

-- Too few bytes: no frame, and the decoder is as it was.
abbrev pub Waits : FrameDecoder → Type 0
Waits d =
    (next_frame d ≡ (d, ok none))
    × ((length (pending d) < prefix_len)
        ⊎ ((announced d ≤ d.max_frame) × (length (pending d) < prefix_len + announced d)))

-- The prefix announces more than the cap: an error, and the decoder is poisoned.
abbrev pub Refuses : FrameDecoder → Type 0
Refuses d =
    (next_frame d ≡ (
      record d { poisoned = some (announced d, d.max_frame) },
      err (too_large (announced d) d.max_frame),
    ))
    × (prefix_len ≤ length (pending d))
    × (d.max_frame < announced d)

abbrev pub Pops : FrameDecoder → Type 0
Pops d =
    (next_frame d ≡ (
      advance d (prefix_len + announced d),
      ok (some (take (announced d) (drop prefix_len (pending d)))),
    ))
    × (prefix_len + announced d ≤ length (pending d))
    × (announced d ≤ d.max_frame)

next_fresh_lem : (d : FrameDecoder) → d.poisoned ≡ none → next_frame d ≡ next_fresh d
unfolding next_frame
next_fresh_lem d e = ap (λ q. check_poison q d) e

pub next_frame_cases : (d : FrameDecoder) → d.poisoned ≡ none → Waits d ⊎ Refuses d ⊎ Pops d
unfolding next_fresh
next_frame_cases d p = elim (Bool-cases (ltb (length (pending d)) prefix_len)) [
  | inl short ↦ inl (next_fresh_lem d p ∙ rw short, inl (ltb→lt _ _ short))
  | inr long ↦ elim (Bool-cases (ltb d.max_frame (announced d))) [
    | inl big ↦
        inr (inl (next_fresh_lem d p ∙ rw (long, big), ltb_false→le _ _ long, ltb→lt _ _ big))
    | inr fits ↦ elim (Bool-cases (ltb (length (pending d)) (prefix_len + announced d))) [
      | inl part ↦
          inl (
            next_fresh_lem d p ∙ rw (long, fits, part),
            inr (ltb_false→le _ _ fits, ltb→lt _ _ part),
          )
      | inr whole ↦ inr (
          inr (
            next_fresh_lem d p ∙ rw (long, fits, whole),
            ltb_false→le _ _ whole,
            ltb_false→le _ _ fits,
          ))
    ]
  ]
]
