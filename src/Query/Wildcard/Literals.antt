-- ===== src/Query/Wildcard/Literals.antt =====
-- crates/goz-core/src/query/parse.rs: the literal parts of a wildcard, by which a search passes over
-- names that cannot match. Each is part of the bytes of every text that matches.
use mathlib.Core.List.{append-nil}
use goz.Prelude.{
  ℕ, ◌≡◌, refl, sym, ap, subst, ◌∙◌, Bool, true, false, none, some, inl, inr, List, [], ◌∷◌, ◌++◌,
  ◌==◌, arith, Bool-cases, if◌then◌else◌, append_assoc, length, ltb, All, All-append,
}
use goz.Query.Wildcard.{
  GlobTok, lit, any_one, any_run, Wildcard, encode_wtf8, longer, longest_from, longest_literal,
  push_run, literals_from, separator_free_literals, leading_from, leading_literal, trailing_from,
  trailing_literal,
}
use goz.Query.Wildcard.Meaning.{Matches, done, same, one, stop, more}

-- The bytes of a text.
abbrev pub bytes_of : List ℕ → List ℕ
bytes_of [] = []
bytes_of (c ∷ cs) = encode_wtf8 c [] ++ bytes_of cs

bytes_of-append : (a b : List ℕ) → bytes_of (a ++ b) ≡ bytes_of a ++ bytes_of b
bytes_of-append [] b = refl
bytes_of-append (c ∷ a) b =
    ap (◌++◌ (encode_wtf8 c [])) (bytes_of-append a b)
    ∙ sym (append_assoc (encode_wtf8 c []) (bytes_of a) (bytes_of b))

encode_wtf8-append : (c : ℕ) (out : List ℕ) → encode_wtf8 c out ≡ out ++ encode_wtf8 c []
unfolding encode_wtf8
encode_wtf8-append c out = ground arith

run_split :
    {p : List GlobTok} {s : List ℕ}
    → Matches (any_run ∷ p) s
    → (a : List ℕ) × (b : List ℕ) × (s ≡ a ++ b) × Matches p b
run_split {s} (stop d) = ([], s, refl, d)
run_split (more {c} d) = let (a, b, e, m) = run_split d in (c ∷ a, b, ap (◌∷◌ c) e, m)

abbrev pub Within : List ℕ → List ℕ → Type 0
Within part whole = (a : List ℕ) × (b : List ℕ) × (whole ≡ a ++ (part ++ b))

-- The text so far is `pre` and then the literal `run`; the rest is to be matched.
abbrev At : List ℕ → List ℕ → List ℕ → List ℕ → Type 0
At whole pre run s = whole ≡ pre ++ (run ++ bytes_of s)

At-lit :
    (whole pre run : List ℕ) (c : ℕ) (s : List ℕ)
    → At whole pre run (c ∷ s)
    → At whole pre (encode_wtf8 c run) s
At-lit whole pre run c s e =
    e
    ∙ ap (◌++◌ pre) (sym (append_assoc run (encode_wtf8 c []) (bytes_of s)))
    ∙ ap (λ r. pre ++ (r ++ bytes_of s)) (sym (encode_wtf8-append c run))

At-new :
    (whole pre run a b : List ℕ)
    → At whole pre run (a ++ b)
    → At whole (pre ++ (run ++ bytes_of a)) [] b
At-new whole pre run a b e =
    e
    ∙ ap (λ r. pre ++ (run ++ r)) (bytes_of-append a b)
    ∙ ap (◌++◌ pre) (sym (append_assoc run (bytes_of a) (bytes_of b)))
    ∙ sym (append_assoc pre (run ++ bytes_of a) (bytes_of b))

At-lit_end :
    (whole pre run : List ℕ) (c : ℕ) (s : List ℕ)
    → At whole pre run (c ∷ s)
    → At whole (pre ++ (run ++ bytes_of (c ∷ []))) [] s
At-lit_end whole pre run c s e = At-new whole pre run (c ∷ []) s e

longer-Within :
    (whole run best : List ℕ)
    → Within run whole
    → Within best whole
    → Within (longer run best) whole
unfolding longer
longer-Within whole run best a b = elim (Bool-cases (ltb (length best) (length run))) [
  | inl e ↦ rw e a
  | inr e ↦ rw e b
]

longest_from-Within :
    (toks : List GlobTok) (s whole pre run best : List ℕ)
    → Matches toks s
    → At whole pre run s
    → Within best whole
    → Within (longest_from toks run best) whole
unfolding longest_from
longest_from-Within [] [] whole pre run best done e w = longer-Within whole run best (pre, [], e) w
longest_from-Within (lit l ∷ toks) (x ∷ s) whole pre run best (same d) e w =
    longest_from-Within toks s whole pre (encode_wtf8 l run) best d (At-lit whole pre run l s e) w
longest_from-Within (any_one ∷ toks) (x ∷ s) whole pre run best (one d) e w =
    longest_from-Within toks s whole (pre ++ (run ++ bytes_of (x ∷ []))) [] (longer run best) d
      (At-lit_end whole pre run x s e) (longer-Within whole run best (pre, bytes_of (x ∷ s), e) w)
longest_from-Within [] (x ∷ s) whole pre run best d e w = elim d [ ]
longest_from-Within (lit l ∷ toks) [] whole pre run best d e w = elim d [ ]
longest_from-Within (any_one ∷ toks) [] whole pre run best d e w = elim d [ ]
longest_from-Within (any_run ∷ toks) s whole pre run best d e w =
    let (a, b, split, m) = run_split d in
    longest_from-Within toks b whole (pre ++ (run ++ bytes_of a)) [] (longer run best) m
      (At-new whole pre run a b (e ∙ ap (λ r. pre ++ (run ++ bytes_of r)) split))
      (longer-Within whole run best (pre, bytes_of s, e) w)

trailing_from-Ends :
    (toks : List GlobTok) (s whole pre run : List ℕ)
    → Matches toks s
    → At whole pre run s
    → (a : List ℕ) × (whole ≡ a ++ trailing_from toks run)
unfolding trailing_from
trailing_from-Ends [] [] whole pre run done e = (pre, e ∙ ap (◌++◌ pre) (append-nil run))
trailing_from-Ends (lit l ∷ toks) (x ∷ s) whole pre run (same d) e =
    trailing_from-Ends toks s whole pre (encode_wtf8 l run) d (At-lit whole pre run l s e)
trailing_from-Ends (any_one ∷ toks) (x ∷ s) whole pre run (one d) e =
    trailing_from-Ends toks s whole (pre ++ (run ++ bytes_of (x ∷ []))) [] d
      (At-lit_end whole pre run x s e)
trailing_from-Ends [] (x ∷ s) whole pre run d e = elim d [ ]
trailing_from-Ends (lit l ∷ toks) [] whole pre run d e = elim d [ ]
trailing_from-Ends (any_one ∷ toks) [] whole pre run d e = elim d [ ]
trailing_from-Ends (any_run ∷ toks) s whole pre run d e =
    let (a, b, split, m) = run_split d in
    trailing_from-Ends toks b whole (pre ++ (run ++ bytes_of a)) [] m
      (At-new whole pre run a b (e ∙ ap (λ r. pre ++ (run ++ bytes_of r)) split))

leading_from-Starts :
    (toks : List GlobTok) (s whole run : List ℕ)
    → Matches toks s
    → whole ≡ run ++ bytes_of s
    → (b : List ℕ) × (whole ≡ leading_from toks run ++ b)
unfolding leading_from
leading_from-Starts [] s whole run d e = (bytes_of s, e)
leading_from-Starts (lit l ∷ toks) (x ∷ s) whole run (same d) e =
    leading_from-Starts toks s whole (encode_wtf8 l run) d (At-lit whole [] run l s e)
leading_from-Starts (lit l ∷ toks) [] whole run d e = elim d [ ]
leading_from-Starts (any_one ∷ toks) s whole run d e = (bytes_of s, e)
leading_from-Starts (any_run ∷ toks) s whole run d e = (bytes_of s, e)

some_part :
    (none_left : Bool) (best part whole : List ℕ)
    → (if none_left then none else some best) ≡ some part
    → Within best whole
    → Within part whole
some_part true best part whole e w = absurd (ground (arith, e))
some_part false best part whole e w =
    let same_part : best ≡ part = ground (arith, e) in subst (λ p. Within p whole) same_part w

push_run-Within :
    (whole run : List ℕ) (runs : List (List ℕ))
    → Within run whole
    → All (λ part. Within part whole) runs
    → All (λ part. Within part whole) (push_run runs run)
unfolding push_run
push_run-Within whole run runs a all = elim (Bool-cases (length run == 0)) [
  | inl e ↦ rw e all
  | inr e ↦ rw e (All-append (λ part. Within part whole) runs (run ∷ []) all (a, tt))
]

literals_from-Within :
    (toks : List GlobTok) (s whole pre run : List ℕ) (runs : List (List ℕ))
    → Matches toks s
    → At whole pre run s
    → All (λ part. Within part whole) runs
    → All (λ part. Within part whole) (literals_from toks run runs)
unfolding literals_from
literals_from-Within [] [] whole pre run runs done e all =
    push_run-Within whole run runs (pre, [], e) all
literals_from-Within [] (x ∷ s) whole pre run runs d e all = elim d [ ]
literals_from-Within (lit l ∷ toks) [] whole pre run runs d e all = elim d [ ]
literals_from-Within (any_one ∷ toks) [] whole pre run runs d e all = elim d [ ]
literals_from-Within (lit l ∷ toks) (x ∷ s) whole pre run runs (same d) e all =
    elim (Bool-cases (l == 0x5C)) [
      | inl k ↦
          rw (k, All)
            (literals_from-Within toks s whole (pre ++ (run ++ bytes_of (l ∷ []))) []
              (push_run runs run) d (At-lit_end whole pre run l s e)
              (push_run-Within whole run runs (pre, bytes_of (l ∷ s), e) all))
      | inr k ↦
          rw (k, All)
            (literals_from-Within toks s whole pre (encode_wtf8 l run) runs d
              (At-lit whole pre run l s e) all)
    ]
literals_from-Within (any_one ∷ toks) (x ∷ s) whole pre run runs (one d) e all =
    literals_from-Within toks s whole (pre ++ (run ++ bytes_of (x ∷ []))) [] (push_run runs run) d
      (At-lit_end whole pre run x s e)
      (push_run-Within whole run runs (pre, bytes_of (x ∷ s), e) all)
literals_from-Within (any_run ∷ toks) s whole pre run runs d e all =
    let (a, b, split, m) = run_split d in
    literals_from-Within toks b whole (pre ++ (run ++ bytes_of a)) [] (push_run runs run) m
      (At-new whole pre run a b (e ∙ ap (λ r. pre ++ (run ++ bytes_of r)) split))
      (push_run-Within whole run runs (pre, bytes_of s, e) all)

-- The bytes of a text that a wildcard matches start with its leading literal and end with its trailing
-- one, and they hold its longest literal and each of its literals without a separator.
pub literals-Within :
    (w : Wildcard) (s : List ℕ)
    → Matches w.tokens s
    → ((b : List ℕ) × (bytes_of s ≡ leading_literal w ++ b))
      × ((a : List ℕ) × (bytes_of s ≡ a ++ trailing_literal w))
      × ((part : List ℕ) → longest_literal w ≡ some part → Within part (bytes_of s))
      × All (λ part. Within part (bytes_of s)) (separator_free_literals w)
unfolding longest_literal leading_literal trailing_literal separator_free_literals
literals-Within w s d = (
  leading_from-Starts w.tokens s (bytes_of s) [] d refl,
  trailing_from-Ends w.tokens s (bytes_of s) [] [] d refl,
  λ part e.
      some_part (length (longest_from w.tokens [] []) == 0) (longest_from w.tokens [] []) part
        (bytes_of s) e
        (longest_from-Within w.tokens s (bytes_of s) [] [] [] d refl ([], bytes_of s, refl)),
  literals_from-Within w.tokens s (bytes_of s) [] [] [] d refl tt,
)
