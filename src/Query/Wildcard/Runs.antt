-- ===== src/Query/Wildcard/Runs.antt =====
-- crates/goz-core/src/query/parse.rs: the pattern `a*.c?` and two names.
use goz.Prelude.{ℕ, ◌≡◌, refl, ◌⊎◌, true, false, some, List, [], ◌∷◌, ◌++◌, All}
use goz.Prelude.Text.{codes}
use goz.Wtf8.{code_points, code_points_from, next, lead, continue_with, least}
use goz.Query.Wildcard.{
  GlobTok, lit, any_one, any_run, of_tokens, compile, push_tokens, push_token, ends_in_run, matches,
  matches_decoded, unlimited_checks, longest_literal, longest_from, longer, encode_wtf8,
  leading_literal, trailing_literal, separator_free_literals,
}
use goz.Query.Wildcard.Meaning.{Matches, done, same, one, stop, more}
use goz.Query.Wildcard.Match.{Answers, matches_decoded-Answers}
use goz.Query.Wildcard.Compile.{written, compile-matches}
use goz.Query.Wildcard.Literals.{Within, bytes_of, literals-Within}

abbrev toks : List GlobTok
toks = lit b'a' ∷ any_run ∷ lit b'.' ∷ lit b'c' ∷ any_one ∷ []

compiled : (compile (codes "a**.c?")).tokens ≡ toks
unfolding compile of_tokens push_tokens push_token ends_in_run code_points code_points_from next
    lead continue_with least
compiled = refl

longest : longest_literal (of_tokens toks) ≡ some (codes ".c")
unfolding longest_literal of_tokens longest_from longer encode_wtf8
longest = refl

abc_pp : Matches toks (codes "ab.cp")
abc_pp = same (more (stop (same (same (one done)))))

compile-matches_example :
    (Matches (written (code_points (codes "a**.c?"))) (code_points (codes "ab.cp"))
      × (matches (compile (codes "a**.c?")) (codes "ab.cp") ≡ some true))
    ⊎ ((¬ Matches (written (code_points (codes "a**.c?"))) (code_points (codes "ab.cp")))
        × (matches (compile (codes "a**.c?")) (codes "ab.cp") ≡ some false))
compile-matches_example = compile-matches (codes "a**.c?") (codes "ab.cp")

matches_decoded-Answers_example :
    Answers
      (Matches toks (codes "ab.c"))
      (λ c. Unit {0})
      (matches_decoded (of_tokens toks) (codes "ab.c") unlimited_checks)
matches_decoded-Answers_example =
    matches_decoded-Answers (λ c. Unit {0}) (λ c k. tt) toks (codes "ab.c") unlimited_checks tt

literals-Within_example :
    ((b : List ℕ) × (bytes_of (codes "ab.cp") ≡ leading_literal (of_tokens toks) ++ b))
    × ((a : List ℕ) × (bytes_of (codes "ab.cp") ≡ a ++ trailing_literal (of_tokens toks)))
    × ((part : List ℕ)
        → longest_literal (of_tokens toks) ≡ some part
        → Within part (bytes_of (codes "ab.cp")))
    × All
        (λ part. Within part (bytes_of (codes "ab.cp")))
        (separator_free_literals (of_tokens toks))
unfolding of_tokens
literals-Within_example = literals-Within (of_tokens toks) (codes "ab.cp") abc_pp
