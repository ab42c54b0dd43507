-- ===== src/Query/Wildcard.antt =====
-- crates/goz-core/src/query/parse.rs: compiled wildcard patterns and their match against the code points
-- of a name or of a path. A position in the pattern or in the text is what is left from there on.
pub mod Meaning
pub mod Match
pub mod Compile
pub mod Literals
mod Runs
use goz.Prelude.{
  ℕ, zero, suc, ◌+◌, ◌-◌, ◌*◌, ◌/◌, ◌%◌, ◌^◌, Bool, true, false, not, ◌&&◌, Option, none, some,
  List, [], ◌∷◌, ◌++◌, ltb, leb, ◌==◌, if◌then◌else◌, length, drop, bit_and, bit_or,
}
use goz.Wtf8.{code_points, continuation}
use goz.Index.FrnMap.{power_of_two_from}
use goz.Query.Budget.{Budget, Moment, check, unlimited}

pub data GlobTok : Type 0 where
  lit : ℕ → GlobTok
  any_one any_run : GlobTok

pub record Wildcard : Type 0 where
  pub tokens : List GlobTok
  pub min_len : ℕ
  pub has_run : Bool
  pub check_mask : ℕ

abbrev pub glob_steps_per_check : ℕ
glob_steps_per_check = 65_536

abbrev pub glob_costly_steps : ℕ
glob_costly_steps = 4096

-- `tokens.last() == Some(&GlobTok::AnyRun)`
unfoldable pub ends_in_run : List GlobTok → Bool
ends_in_run [] = false
ends_in_run (any_run ∷ []) = true
ends_in_run (t ∷ []) = false
ends_in_run (t ∷ u ∷ toks) = ends_in_run (u ∷ toks)

unfoldable pub push_token : List GlobTok → ℕ → List GlobTok
push_token toks cp =
    if cp == 0x2A
    then (if ends_in_run toks then toks else toks ++ any_run ∷ [])
    else if cp == 0x3F
    then toks ++ any_one ∷ []
    else toks ++ lit cp ∷ []

unfoldable pub push_tokens : List ℕ → List GlobTok → List GlobTok
push_tokens [] toks = toks
push_tokens (cp ∷ cps) toks = push_tokens cps (push_token toks cp)

unfoldable pub count_runs : List GlobTok → ℕ
count_runs [] = 0
count_runs (any_run ∷ toks) = suc (count_runs toks)
count_runs (t ∷ toks) = count_runs toks

unfoldable pub next_power_of_two : ℕ → ℕ
next_power_of_two n = power_of_two_from n 1 n

unfoldable pub of_tokens : List GlobTok → Wildcard
of_tokens toks = record {
  tokens = toks;
  min_len = length toks - count_runs toks;
  has_run = ltb 0 (count_runs toks);
  check_mask = next_power_of_two (glob_steps_per_check / (length toks + 1)) - 1;
}

unfoldable pub compile : List ℕ → Wildcard
compile pattern = of_tokens (push_tokens (code_points pattern) [])

-- A budget, the moments at which it can be checked, and how often it has been.
pub record Checks : Type 0 where
  pub budget : Budget
  pub moments : ℕ → Moment
  pub at : ℕ

unfoldable pub ask : Checks → Checks × Bool
ask c = let r = check c.budget (c.moments c.at) in (record c { budget = r.0; at = suc c.at }, r.1)

-- The pattern after the last `*`, and the text from where that run ends for now, with its position.
abbrev pub Star : Type 0
Star = Option (List GlobTok × ℕ × List ℕ)

-- `none` says that the fuel ran out.
abbrev pub Answer : Type 0
Answer = Option (Bool × Checks)

abbrev pub Walk : Type 0
Walk = List GlobTok → ℕ → List ℕ → Star → Checks → Answer

-- The last arm: one more code point goes to the last `*`.
unfoldable pub retake : List GlobTok → ℕ → List ℕ → Checks × Bool → Walk → Answer
retake p ti s (c, true) walk = some (false, c)
retake p ti s (c, false) walk = walk p ti s (some (p, ti, s)) c

unfoldable pub backtrack : ℕ → Star → Checks → Walk → Answer
backtrack mask none c walk = some (false, c)
backtrack mask (some (p, st, s)) c walk =
    retake p (suc st) (drop 1 s) (if bit_and (suc st) mask == 0 then ask c else (c, false)) walk

-- The loop after the text, and its final test.
unfoldable pub only_runs : List GlobTok → Bool
only_runs [] = true
only_runs (any_run ∷ p) = only_runs p
only_runs (t ∷ p) = false

unfoldable pub glob_from : ℕ → ℕ → Walk
glob_from mask zero p ti s star c = none
glob_from mask (suc fuel) p ti [] star c = some (only_runs p, c)
glob_from mask (suc fuel) [] ti (x ∷ s) star c = backtrack mask star c (glob_from mask fuel)
glob_from mask (suc fuel) (lit l ∷ p) ti (x ∷ s) star c = elim (l == x) [
  | true ↦ glob_from mask fuel p (suc ti) s star c
  | false ↦ backtrack mask star c (glob_from mask fuel)
]
glob_from mask (suc fuel) (any_one ∷ p) ti (x ∷ s) star c = glob_from mask fuel p (suc ti) s star c
glob_from mask (suc fuel) (any_run ∷ []) ti (x ∷ s) star c = some (true, c)
glob_from mask (suc fuel) (any_run ∷ t ∷ p) ti (x ∷ s) star c =
    glob_from mask fuel (t ∷ p) ti (x ∷ s) (some (t ∷ p, ti, x ∷ s)) c

unfoldable pub glob_match : Wildcard → List ℕ → Checks → Answer
glob_match w text c =
    glob_from w.check_mask ((length text + 1) * (length w.tokens + 1)) w.tokens 0 text none c

unfoldable pub fits : Wildcard → List ℕ → Bool
fits w text = if w.has_run then leb w.min_len (length text) else length text == w.min_len

unfoldable pub costly : Wildcard → List ℕ → Bool
costly w text = leb glob_costly_steps ((length text - w.min_len) * length w.tokens)

unfoldable pub match_unless : Wildcard → List ℕ → Checks × Bool → Answer
match_unless w text (c, true) = some (false, c)
match_unless w text (c, false) = glob_match w text c

unfoldable pub matches_decoded : Wildcard → List ℕ → Checks → Answer
matches_decoded w text c = elim (fits w text) [
  | true ↦ match_unless w text (if costly w text then ask c else (c, false))
  | false ↦ some (false, c)
]

-- A budget of its own, which no other thread sees.
unfoldable pub unlimited_checks : Checks
unlimited_checks = record {
  budget = unlimited;
  moments = λ i. record { now = i; cancelled = false; spent_elsewhere = false };
  at = 0;
}

unfoldable pub answer : Answer → Option Bool
answer none = none
answer (some r) = some r.0

unfoldable pub matches : Wildcard → List ℕ → Option Bool
matches w name = answer (matches_decoded w (code_points name) unlimited_checks)

unfoldable pub encode_wtf8 : ℕ → List ℕ → List ℕ
encode_wtf8 cp out =
    if ltb cp 0x80
    then out ++ (cp % 2 ^ 8) ∷ []
    else if ltb cp 0x800
    then out ++ bit_or 0xC0 (cp / 2 ^ 6 % 2 ^ 8) ∷ continuation cp ∷ []
    else if ltb cp 0x10000
    then out ++ bit_or 0xE0 (cp / 2 ^ 12 % 2 ^ 8) ∷ continuation (cp / 2 ^ 6) ∷ continuation cp ∷ []
    else out
      ++ bit_or 0xF0 (cp / 2 ^ 18 % 2 ^ 8)
        ∷ continuation (cp / 2 ^ 12)
        ∷ continuation (cp / 2 ^ 6)
        ∷ continuation cp
        ∷ []

unfoldable pub longer : List ℕ → List ℕ → List ℕ
longer run best = if ltb (length best) (length run) then run else best

unfoldable pub longest_from : List GlobTok → List ℕ → List ℕ → List ℕ
longest_from [] run best = longer run best
longest_from (lit cp ∷ toks) run best = longest_from toks (encode_wtf8 cp run) best
longest_from (t ∷ toks) run best = longest_from toks [] (longer run best)

unfoldable pub longest_literal : Wildcard → Option (List ℕ)
longest_literal w =
    let best = longest_from w.tokens [] [] in if length best == 0 then none else some best

unfoldable pub push_run : List (List ℕ) → List ℕ → List (List ℕ)
push_run runs run = if length run == 0 then runs else runs ++ run ∷ []

unfoldable pub literals_from : List GlobTok → List ℕ → List (List ℕ) → List (List ℕ)
literals_from [] run runs = push_run runs run
literals_from (lit cp ∷ toks) run runs = elim (cp == 0x5C) [
  | true ↦ literals_from toks [] (push_run runs run)
  | false ↦ literals_from toks (encode_wtf8 cp run) runs
]
literals_from (t ∷ toks) run runs = literals_from toks [] (push_run runs run)

unfoldable pub separator_free_literals : Wildcard → List (List ℕ)
separator_free_literals w = literals_from w.tokens [] []

unfoldable pub leading_from : List GlobTok → List ℕ → List ℕ
leading_from (lit cp ∷ toks) out = leading_from toks (encode_wtf8 cp out)
leading_from toks out = out

unfoldable pub leading_literal : Wildcard → List ℕ
leading_literal w = leading_from w.tokens []

-- What follows the last token that is no literal.
unfoldable pub trailing_from : List GlobTok → List ℕ → List ℕ
trailing_from [] out = out
trailing_from (lit cp ∷ toks) out = trailing_from toks (encode_wtf8 cp out)
trailing_from (t ∷ toks) out = trailing_from toks []

unfoldable pub trailing_literal : Wildcard → List ℕ
trailing_literal w = trailing_from w.tokens []
