-- ===== src/Query/Wildcard/Compile.antt =====
-- crates/goz-core/src/query/parse.rs: what a compiled pattern matches is what the written one means.
use goz.Prelude.{
  ℕ, ◌≡◌, ◌↔◌, ◌⊎◌, inl, inr, true, false, some, List, [], ◌∷◌, ◌++◌, ◌==◌, arith, Bool-cases,
  if◌then◌else◌, append_assoc,
}
use mathlib.Core.List.{append-nil}
use goz.Wtf8.{code_points}
use goz.Query.Wildcard.{
  GlobTok, lit, any_one, any_run, ends_in_run, push_token, push_tokens, compile, matches,
}
use goz.Query.Wildcard.Meaning.{Matches, same, one, stop, more, run_merge}
use goz.Query.Wildcard.Match.{of_tokens-Decided}

-- `*` is any run, `?` any code point, and every other code point itself.
abbrev pub token : ℕ → GlobTok
token cp = if cp == 0x2A then any_run else if cp == 0x3F then any_one else lit cp

abbrev pub written : List ℕ → List GlobTok
written [] = []
written (cp ∷ cps) = token cp ∷ written cps

-- A run after a run adds nothing.
module _ (q : List GlobTok) where
  run_twice :
      (toks : List GlobTok) (s : List ℕ)
      → ends_in_run toks ≡ true
      → Matches (toks ++ any_run ∷ q) s
      → Matches (toks ++ q) s
  unfolding ends_in_run
  run_twice [] s e d = absurd (ground (arith, e))
  run_twice (any_run ∷ []) s e d = run_merge d
  run_twice (any_one ∷ []) s e d = absurd (ground (arith, e))
  run_twice (lit c ∷ []) s e d = absurd (ground (arith, e))
  run_twice (any_run ∷ u ∷ toks) s e (stop d) = stop (run_twice (u ∷ toks) s e d)
  run_twice (any_run ∷ u ∷ toks) (c ∷ s) e (more d) = more (run_twice (any_run ∷ u ∷ toks) s e d)
  run_twice (any_one ∷ u ∷ toks) (c ∷ s) e (one d) = one (run_twice (u ∷ toks) s e d)
  run_twice (lit l ∷ u ∷ toks) [] e d = elim d [ ]
  run_twice (any_one ∷ u ∷ toks) [] e d = elim d [ ]
  run_twice (lit l ∷ u ∷ toks) (c ∷ s) e (same d) = same (run_twice (u ∷ toks) s e d)

  run_again :
      (toks : List GlobTok) (s : List ℕ)
      → ends_in_run toks ≡ true
      → Matches (toks ++ q) s
      → Matches (toks ++ any_run ∷ q) s
  unfolding ends_in_run
  run_again [] s e d = absurd (ground (arith, e))
  run_again (any_run ∷ []) s e (stop d) = stop (stop d)
  run_again (any_run ∷ []) (c ∷ s) e (more d) = more (run_again (any_run ∷ []) s e d)
  run_again (any_one ∷ []) s e d = absurd (ground (arith, e))
  run_again (lit c ∷ []) s e d = absurd (ground (arith, e))
  run_again (any_run ∷ u ∷ toks) s e (stop d) = stop (run_again (u ∷ toks) s e d)
  run_again (any_run ∷ u ∷ toks) (c ∷ s) e (more d) = more (run_again (any_run ∷ u ∷ toks) s e d)
  run_again (any_one ∷ u ∷ toks) (c ∷ s) e (one d) = one (run_again (u ∷ toks) s e d)
  run_again (lit l ∷ u ∷ toks) [] e d = elim d [ ]
  run_again (any_one ∷ u ∷ toks) [] e d = elim d [ ]
  run_again (lit l ∷ u ∷ toks) (c ∷ s) e (same d) = same (run_again (u ∷ toks) s e d)

push_token-Matches :
    (toks q : List GlobTok) (cp : ℕ) (s : List ℕ)
    → Matches (push_token toks cp ++ q) s ↔ Matches (toks ++ token cp ∷ q) s
unfolding push_token
push_token-Matches toks q cp s = elim (Bool-cases (cp == 0x2A)) [
  | inl e ↦ elim (Bool-cases (ends_in_run toks)) [
    | inl k ↦ rw (e, k) (run_again q toks s k, run_twice q toks s k)
    | inr k ↦ rw (e, k, append_assoc toks (any_run ∷ []) q) (λ d. d, λ d. d)
  ]
  | inr e ↦ elim (Bool-cases (cp == 0x3F)) [
    | inl k ↦ rw (e, k, append_assoc toks (any_one ∷ []) q) (λ d. d, λ d. d)
    | inr k ↦ rw (e, k, append_assoc toks (lit cp ∷ []) q) (λ d. d, λ d. d)
  ]
]

push_tokens-Matches :
    (cps : List ℕ) (toks : List GlobTok) (s : List ℕ)
    → Matches (push_tokens cps toks) s ↔ Matches (toks ++ written cps) s
unfolding push_tokens
push_tokens-Matches [] toks s = rw (append-nil toks) (λ d. d, λ d. d)
push_tokens-Matches (cp ∷ cps) toks s =
    let (a, b) = push_tokens-Matches cps (push_token toks cp) s in
    let (c, d) = push_token-Matches toks (written cps) cp s in (λ m. c (a m), λ m. b (d m))

-- A compiled pattern matches a name exactly where the pattern as written does: `*` takes any run of code
-- points, `?` one, and every other code point itself. The match comes to an end on every name.
pub compile-matches :
    (pattern name : List ℕ)
    → (Matches (written (code_points pattern)) (code_points name)
        × (matches (compile pattern) name ≡ some true))
      ⊎ ((¬ Matches (written (code_points pattern)) (code_points name))
          × (matches (compile pattern) name ≡ some false))
unfolding compile
compile-matches pattern name =
    let (a, b) = push_tokens-Matches (code_points pattern) [] (code_points name) in
    elim (of_tokens-Decided (push_tokens (code_points pattern) []) name) [
      | inl (d, e) ↦ inl (a d, e)
      | inr (never, e) ↦ inr (λ d. never (b d), e)
    ]
