-- ===== src/Query/Wildcard/Match.antt =====
-- crates/goz-core/src/query/parse.rs: the match with backtracking decides what the pattern means, but
-- for a budget that is spent on the way.
use goz.Prelude.{
  ℕ, zero, suc, ◌+◌, ◌*◌, ◌≤◌, ◌<◌, ◌≡◌, refl, ◌↔◌, ◌⊎◌, inl, inr, Bool, true, false, Option, none,
  some, List, [], ◌∷◌, length, ◌==◌, arith, Bool-cases, ==→eq, if◌then◌else◌, bit_and,
}
use goz.Query.Budget.{check, check_seen, see, unlimited, over, passed}
use goz.Query.Wildcard.{
  GlobTok, lit, any_one, any_run, Wildcard, of_tokens, Checks, ask, Star, Answer, Walk, retake,
  backtrack, only_runs, glob_from, glob_match, fits, costly, match_unless, matches_decoded, matches,
  answer, unlimited_checks,
}
use goz.Query.Wildcard.Meaning.{
  Matches, stop, more, run_all, only_runs_sound, only_runs_complete, lit_inv, one_inv, run_end,
  run_merge, run_forced, run_lit, run_one, length-Matches, same, one,
}
use goz.Wtf8.{code_points}

-- A check that answers that the budget is spent leaves it spent.
ask-spent : (c : Checks) → (ask c).1 ≡ true → (ask c).0.budget.spent ≡ true
unfolding ask check check_seen see
ask-spent c h = ground (arith, h)

-- What is asked is answered: yes, or no unless the budget was spent. `K` holds of the checks.
abbrev pub Answers : Type 0 → (Checks → Type 0) → Answer → Type 0
Answers G K none = ⊥
Answers G K (some (true, c)) = G × K c
Answers G K (some (false, c)) = ((¬ G) ⊎ (c.budget.spent ≡ true)) × K c

module _ (G : Type 0) (K : Checks → Type 0) (keep : (c : Checks) → K c → K (ask c).0) where
  final : (b : Bool) (c : Checks) → (b ≡ true) ↔ G → K c → Answers G K (some (b, c))
  final true c e k = (e.0 refl, k)
  final false c e k = (inl (λ g. absurd (ground (arith, e.1 g))), k)

  -- `k` is above the length of the pattern, and `m` bounds what the last run can still give back.
  module _ (k mask : ℕ) where
    -- The question again, from the last run.
    abbrev Restarts : ℕ → List GlobTok → List ℕ → Star → Type 0
    Restarts m p s none = G → Matches p s
    Restarts m p s (some (q, st, r)) =
        (Matches (any_run ∷ q) r → G)
        × (G → Matches (any_run ∷ q) r)
        × (Matches q r → Matches p s)
        × (length s ≤ length r)
        × (length r ≤ m)
        × (length q < k)

    abbrev Holds : ℕ → ℕ → List GlobTok → List ℕ → Star → Type 0
    Holds fuel m p s star =
        (Matches p s → G)
        × (G → Matches (any_run ∷ p) s)
        × Restarts m p s star
        × (length s ≤ m)
        × (length p < k)
        × (m * k + length p < fuel)

    restart :
        (fuel m ti : ℕ) (q : List GlobTok) (r : List ℕ)
        → (Matches (any_run ∷ q) r → G)
        → (G → Matches (any_run ∷ q) r)
        → length r ≤ m
        → length q < k
        → m * k + length q < fuel
        → Holds fuel m q r (some (q, ti, r))
    restart fuel m ti q r up down short small enough = (
      λ d. up (stop d),
      down,
      (up, down, λ d. d, omega arith, short, small),
      short,
      small,
      enough,
    )

    past_token :
        (m : ℕ) (t : GlobTok) (x : ℕ) (p : List GlobTok) (s : List ℕ) (star : Star)
        → (Matches (t ∷ p) (x ∷ s) → Matches p s)
        → Restarts m (t ∷ p) (x ∷ s) star
        → Restarts m p s star
    past_token m t x p s none inv h = λ g. inv (h g)
    past_token m t x p s (some (q, st, r)) inv (up, down, sub, le, short, small) =
        (up, down, λ d. inv (sub d), omega arith, short, small)

    -- A step over a token that takes one code point.
    step :
        (fuel m : ℕ) (t : GlobTok) (x : ℕ) (p : List GlobTok) (s : List ℕ) (star : Star)
        → (Matches p s → Matches (t ∷ p) (x ∷ s))
        → (Matches (t ∷ p) (x ∷ s) → Matches p s)
        → (Matches (any_run ∷ t ∷ p) (x ∷ s) → Matches (any_run ∷ p) s)
        → Holds (suc fuel) m (t ∷ p) (x ∷ s) star
        → Holds fuel m p s star
    step fuel m t x p s star put inv skip (up, down, again, short, small, enough) = (
      λ d. up (put d),
      λ g. skip (down g),
      past_token m t x p s star inv again,
      omega arith,
      omega arith,
      omega arith,
    )

    Walks : ℕ → Walk → Type 0
    Walks fuel walk =
        (m ti : ℕ) (p : List GlobTok) (s : List ℕ) (star : Star) (c : Checks)
        → Holds fuel m p s star
        → K c
        → Answers G K (walk p ti s star c)

    retake-Answers :
        (p : List GlobTok) (ti : ℕ) (s : List ℕ) (r : Checks × Bool) (walk : Walk)
        → (r.1 ≡ true → r.0.budget.spent ≡ true)
        → K r.0
        → ((c : Checks) → K c → Answers G K (walk p ti s (some (p, ti, s)) c))
        → Answers G K (retake p ti s r walk)
    unfolding retake
    retake-Answers p ti s (c, true) walk spent kept go = (inr (spent refl), kept)
    retake-Answers p ti s (c, false) walk spent kept go = go c kept

    asked-spent :
        (b : Bool) (c : Checks)
        → (if b then ask c else (c, false)).1 ≡ true
        → (if b then ask c else (c, false)).0.budget.spent ≡ true
    asked-spent true c e = ask-spent c e
    asked-spent false c e = absurd (ground (arith, e))

    asked-keep : (b : Bool) (c : Checks) → K c → K (if b then ask c else (c, false)).0
    asked-keep true c kept = keep c kept
    asked-keep false c kept = kept

    backtrack-Answers :
        (fuel m x : ℕ) (p : List GlobTok) (s : List ℕ) (star : Star) (c : Checks) (walk : Walk)
        → Walks fuel walk
        → Holds (suc fuel) m p (x ∷ s) star
        → (¬ Matches p (x ∷ s))
        → K c
        → Answers G K (backtrack mask star c walk)
    unfolding backtrack Walks
    backtrack-Answers fuel m x p s none c walk go (up, down, again, i, j, enough) never kept =
        (inl (λ g. never (again g)), kept)
    backtrack-Answers fuel m x p s (some (q, st, [])) c walk go
          (up, down, (a, b, sub, le, short, small), i, j, enough) never kept =
        absurd (omega arith)
    backtrack-Answers fuel zero x p s (some (q, st, y ∷ r)) c walk go
          (up, down, (a, b, sub, le, short, small), i, j, enough) never kept =
        absurd (omega arith)
    backtrack-Answers fuel (suc m) x p s (some (q, st, y ∷ r)) c walk go
          (up, down, (a, b, sub, le, short, small), i, j, enough) never kept =
        let asked = bit_and (suc st) mask == 0 in
        retake-Answers q (suc st) r (if asked then ask c else (c, false)) walk (asked-spent asked c)
          (asked-keep asked c kept)
          (λ c1. go m (suc st) q r (some (q, suc st, r)) c1 (
            restart fuel m (suc st) q r (λ d. a (more d))
              (λ g. run_forced (b g) (λ d. never (sub d))) (omega arith) small (omega arith)))

    glob_from-Answers : (fuel : ℕ) → Walks fuel (glob_from mask fuel)
    unfolding glob_from Walks
    glob_from-Answers zero m ti p s star c (up, down, again, i, j, enough) kept =
        absurd (omega arith)
    glob_from-Answers (suc fuel) m ti p [] star c (up, down, again, i, j, enough) kept =
        final (only_runs p) c
          (λ e. up (only_runs_sound p e), λ g. only_runs_complete (run_end (down g))) kept
    glob_from-Answers (suc fuel) m ti [] (x ∷ s) star c h kept =
        backtrack-Answers fuel m x [] s star c (glob_from mask fuel) (glob_from-Answers fuel) h
          (λ d. elim d [ ]) kept
    glob_from-Answers (suc fuel) m ti (lit l ∷ p) (x ∷ s) star c h kept =
        elim (Bool-cases (l == x)) [
          | inl e ↦
              rw (e, Answers)
                (let lx = ==→eq l x e in
                  glob_from-Answers fuel m (suc ti) p s star c
                    (step fuel m (lit l) x p s star (λ d. rw lx (same d)) (λ d. (lit_inv d).1)
                      (run_lit s) h)
                    kept)
          | inr e ↦
              rw (e, Answers)
                (backtrack-Answers fuel m x (lit l ∷ p) s star c (glob_from mask fuel)
                  (glob_from-Answers fuel) h (λ d. absurd (ground (arith, e, (lit_inv d).0))) kept)
        ]
    glob_from-Answers (suc fuel) m ti (any_one ∷ p) (x ∷ s) star c h kept =
        glob_from-Answers fuel m (suc ti) p s star c
          (step fuel m any_one x p s star one one_inv (run_one s) h) kept
    glob_from-Answers (suc fuel) m ti (any_run ∷ []) (x ∷ s) star c (up, down, again, i, j, enough)
          kept =
        (up (run_all (x ∷ s)), kept)
    glob_from-Answers (suc fuel) m ti (any_run ∷ t ∷ p) (x ∷ s) star c
          (up, down, again, i, j, enough) kept =
        glob_from-Answers fuel m ti (t ∷ p) (x ∷ s) (some (t ∷ p, ti, x ∷ s)) c
          (restart fuel m ti (t ∷ p) (x ∷ s) up (λ g. run_merge (down g)) i (omega arith)
            (omega arith))
          kept

  glob_match-Answers :
      (w : Wildcard) (text : List ℕ) (c : Checks)
      → (Matches w.tokens text → G)
      → (G → Matches w.tokens text)
      → K c
      → Answers G K (glob_match w text c)
  unfolding glob_match Walks
  glob_match-Answers w text c up down kept =
      glob_from-Answers (length w.tokens + 1) w.check_mask _ (length text) 0 w.tokens text none c
        (up, λ g. stop (down g), down, omega arith, omega arith, omega arith) kept

  match_unless-Answers :
      (w : Wildcard) (text : List ℕ) (r : Checks × Bool)
      → (Matches w.tokens text → G)
      → (G → Matches w.tokens text)
      → (r.1 ≡ true → r.0.budget.spent ≡ true)
      → K r.0
      → Answers G K (match_unless w text r)
  unfolding match_unless
  match_unless-Answers w text (c, true) up down spent kept = (inr (spent refl), kept)
  match_unless-Answers w text (c, false) up down spent kept =
      glob_match-Answers w text c up down kept

fits-Matches :
    (toks : List GlobTok) (text : List ℕ) → Matches toks text → fits (of_tokens toks) text ≡ true
unfolding fits of_tokens
fits-Matches toks text d = let (a, b) = length-Matches d in ground (arith, a, b)

-- The match of a compiled pattern comes to an end. A yes is right, and so is a no, unless the budget was
-- spent by then. What every check of the budget keeps, the match keeps.
pub matches_decoded-Answers :
    (K : Checks → Type 0)
    → ((c : Checks) → K c → K (ask c).0)
    → (toks : List GlobTok) (text : List ℕ) (c : Checks) → K c
    → Answers (Matches toks text) K (matches_decoded (of_tokens toks) text c)
unfolding matches_decoded of_tokens
matches_decoded-Answers K keep toks text c kept = elim (Bool-cases (fits (of_tokens toks) text)) [
  | inl e ↦
      rw (e, Answers)
        (let b = costly (of_tokens toks) text in
          match_unless-Answers (Matches toks text) K keep (of_tokens toks) text
            (if b then ask c else (c, false)) (λ d. d) (λ d. d)
            (asked-spent (Matches toks text) K keep 0 0 b c)
            (asked-keep (Matches toks text) K keep 0 0 b c kept))
  | inr e ↦ rw (e, Answers) (inl (λ d. absurd (ground (arith, e, fits-Matches toks text d))), kept)
]

-- Checks of an unlimited budget that nobody shares.
Quiet : Checks → Type 0
Quiet c =
    (c.budget.spent ≡ false)
    × (c.budget.cancel ≡ false)
    × (c.budget.deadline ≡ none)
    × ((i : ℕ) → (c.moments i).spent_elsewhere ≡ false)

ask-Quiet : (c : Checks) → Quiet c → Quiet (ask c).0
unfolding Quiet ask check check_seen see over passed
ask-Quiet c (a, b, d, e) = ground (arith, a, b, d, e c.at, e)

Decided : Type 0 → Option Bool → Type 0
Decided G o = (G × (o ≡ some true)) ⊎ ((¬ G) × (o ≡ some false))

answer-Decided : (G : Type 0) (o : Answer) → Answers G Quiet o → Decided G (answer o)
unfolding answer Decided Quiet
answer-Decided G none h = absurd h
answer-Decided G (some (true, c)) (g, q) = inl (g, refl)
answer-Decided G (some (false, c)) (inl never, q) = inr (never, refl)
answer-Decided G (some (false, c)) (inr spent, (a, b, d, e)) = absurd (ground (arith, spent, a))

pub of_tokens-Decided :
    (toks : List GlobTok) (name : List ℕ)
    → (Matches toks (code_points name) × (matches (of_tokens toks) name ≡ some true))
      ⊎ ((¬ Matches toks (code_points name)) × (matches (of_tokens toks) name ≡ some false))
unfolding matches Decided unlimited_checks Quiet unlimited
of_tokens-Decided toks name =
    answer-Decided (Matches toks (code_points name))
      (matches_decoded (of_tokens toks) (code_points name) unlimited_checks)
      (matches_decoded-Answers Quiet ask-Quiet toks (code_points name) unlimited_checks
        (refl, refl, refl, λ i. refl))
