-- ===== src/Query/Wildcard/Meaning.antt =====
-- crates/goz-core/src/query/parse.rs: what a wildcard pattern matches, with no search in it.
use goz.Prelude.{ℕ, suc, ◌+◌, ◌≤◌, ◌≡◌, refl, ap, true, List, [], ◌∷◌, length, arith}
use goz.Query.Wildcard.{GlobTok, lit, any_one, any_run, only_runs, count_runs}

pub data Matches : List GlobTok → List ℕ → Type 0 where
  done : Matches [] []
  same : {c : ℕ} {p : List GlobTok} {s : List ℕ} → Matches p s → Matches (lit c ∷ p) (c ∷ s)
  one : {c : ℕ} {p : List GlobTok} {s : List ℕ} → Matches p s → Matches (any_one ∷ p) (c ∷ s)
  stop : {p : List GlobTok} {s : List ℕ} → Matches p s → Matches (any_run ∷ p) s
  more :
      {c : ℕ} {p : List GlobTok} {s : List ℕ}
      → Matches (any_run ∷ p) s
      → Matches (any_run ∷ p) (c ∷ s)

pub run_all : (s : List ℕ) → Matches (any_run ∷ []) s
run_all [] = stop done
run_all (c ∷ s) = more (run_all s)

pub only_runs_sound : (p : List GlobTok) → only_runs p ≡ true → Matches p []
unfolding only_runs
only_runs_sound [] e = done
only_runs_sound (any_run ∷ p) e = stop (only_runs_sound p e)
only_runs_sound (lit c ∷ p) e = cc
only_runs_sound (any_one ∷ p) e = cc

pub only_runs_complete : {p : List GlobTok} → Matches p [] → only_runs p ≡ true
unfolding only_runs
only_runs_complete done = refl
only_runs_complete (stop d) = only_runs_complete d

module _ {p : List GlobTok} where
  pub lit_inv : {l x : ℕ} {s : List ℕ} → Matches (lit l ∷ p) (x ∷ s) → (l ≡ x) × Matches p s
  lit_inv (same d) = (refl, d)

  pub one_inv : {x : ℕ} {s : List ℕ} → Matches (any_one ∷ p) (x ∷ s) → Matches p s
  one_inv (one d) = d

  pub run_end : Matches (any_run ∷ p) [] → Matches p []
  run_end (stop d) = d

  pub run_merge : {s : List ℕ} → Matches (any_run ∷ any_run ∷ p) s → Matches (any_run ∷ p) s
  run_merge (stop d) = d
  run_merge (more d) = more (run_merge d)

  pub run_forced :
      {x : ℕ} {s : List ℕ}
      → Matches (any_run ∷ p) (x ∷ s)
      → ¬ Matches p (x ∷ s)
      → Matches (any_run ∷ p) s
  run_forced (stop d) never = absurd (never d)
  run_forced (more d) never = d

  -- A run before a token that takes one code point can take that code point instead.
  pub run_lit :
      {l x : ℕ} (s : List ℕ) → Matches (any_run ∷ lit l ∷ p) (x ∷ s) → Matches (any_run ∷ p) s
  run_lit s (stop (same d)) = stop d
  run_lit [] (more (stop d)) = elim d [ ]
  run_lit (y ∷ s) (more d) = more (run_lit s d)

  pub run_one :
      {x : ℕ} (s : List ℕ) → Matches (any_run ∷ any_one ∷ p) (x ∷ s) → Matches (any_run ∷ p) s
  run_one s (stop (one d)) = stop d
  run_one [] (more (stop d)) = elim d [ ]
  run_one (y ∷ s) (more d) = more (run_one s d)

-- The least length of a match, and its length where there is no run.
pub length-Matches :
    {p : List GlobTok} {s : List ℕ}
    → Matches p s
    → (length p ≤ length s + count_runs p) × (count_runs p ≡ 0 → length s ≡ length p)
unfolding count_runs
length-Matches done = (omega arith, λ e. refl)
length-Matches (same d) = let (a, b) = length-Matches d in (omega arith, λ e. ap suc (b e))
length-Matches (one d) = let (a, b) = length-Matches d in (omega arith, λ e. ap suc (b e))
length-Matches (stop d) = let (a, b) = length-Matches d in (omega arith, λ e. absurd (omega arith))
length-Matches (more d) = let (a, b) = length-Matches d in (omega arith, λ e. absurd (omega arith))
