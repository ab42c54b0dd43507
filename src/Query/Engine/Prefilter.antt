-- ===== src/Query/Engine/Prefilter.antt =====
-- crates/goz-core/src/query/engine.rs: a name that matches holds the prefilter.
use goz.Prelude.{
  ℕ, ◌≡◌, refl, subst, Bool, true, false, Option, none, some, List, [], ◌∷◌, ltb, arith, Bool-cases,
  All, length, inl, inr,
}
use goz.Query.Wildcard.{Wildcard, longest_literal}
use goz.Query.Wildcard.Meaning.{Matches}
use goz.Query.Wildcard.Literals.{Within, bytes_of, literals-Within}
use goz.Query.Parse.{ParsedQuery}
use goz.Query.Engine.{
  holds_all, Prefilter, length_or_zero, consider, consider_terms, consider_literal,
  consider_wildcards, consider_ext, prefilter,
}
use goz.Query.Engine.Pieces.{holds_sound}

module _ (hay : List ℕ) where
  -- What has been picked so far stands in the name.
  abbrev Picked : Prefilter → Type 0
  Picked (none, is_name_term) = Unit
  Picked (some piece, is_name_term) = Within piece hay

  consider-Picked :
      (best : Prefilter) (cand : List ℕ) (is_name_term : Bool)
      → Picked best
      → Within cand hay
      → Picked (consider best cand is_name_term)
  unfolding consider
  consider-Picked best cand is_name_term a b =
      elim (Bool-cases (ltb (length_or_zero best.0) (length cand))) [
        | inl e ↦ rw (e, Picked) b
        | inr e ↦ rw (e, Picked) a
      ]

  consider_terms-Picked :
      (terms : List (List ℕ)) (best : Prefilter)
      → Picked best
      → holds_all hay terms ≡ true
      → Picked (consider_terms terms best)
  unfolding consider_terms holds_all
  consider_terms-Picked [] best a h = a
  consider_terms-Picked (t ∷ terms) best a h =
      consider_terms-Picked terms (consider best t true)
        (consider-Picked best t true a (holds_sound hay t (ground (arith, h)))) (ground (arith, h))

  literal-Picked :
      (found : Option (List ℕ)) (best : Prefilter)
      → Picked best
      → ((part : List ℕ) → found ≡ some part → Within part hay)
      → Picked (consider_literal found best)
  unfolding consider_literal
  literal-Picked none best a w = a
  literal-Picked (some part) best a w = consider-Picked best part false a (w part refl)

  consider_wildcards-Picked :
      (ws : List Wildcard) (points : List ℕ) (best : Prefilter)
      → bytes_of points ≡ hay
      → Picked best
      → All (λ w. Matches w.tokens points) ws
      → Picked (consider_wildcards ws best)
  unfolding consider_wildcards
  consider_wildcards-Picked [] points best e a h = a
  consider_wildcards-Picked (w ∷ ws) points best e a (d, h) =
      let (lead, trail, longest, free) = literals-Within w points d in
      consider_wildcards-Picked ws points (consider_literal (longest_literal w) best) e
        (literal-Picked (longest_literal w) best a
          (λ part k. subst (Within part) e (longest part k)))
        h

  consider_ext-Picked :
      (exts : Option (List (List ℕ))) (best : Prefilter)
      → Picked best
      → ((ext : List ℕ) → exts ≡ some (ext ∷ []) → Within (0x2E ∷ ext) hay)
      → Picked (consider_ext exts best)
  unfolding consider_ext
  consider_ext-Picked none best a w = a
  consider_ext-Picked (some []) best a w = a
  consider_ext-Picked (some ([] ∷ [])) best a w = a
  consider_ext-Picked (some ((e ∷ ext) ∷ [])) best a w =
      consider-Picked best (0x2E ∷ e ∷ ext) false a (w (e ∷ ext) refl)
  consider_ext-Picked (some ([] ∷ f ∷ exts)) best a w = a
  consider_ext-Picked (some ((e ∷ ext) ∷ f ∷ exts)) best a w = a

-- A name that holds every name term of a query, whose code points every wildcard of it matches, and that
-- holds the extension with its dot where the query asks for just one, holds the prefilter. So a scan for
-- the prefilter passes over no match.
pub prefilter-Within :
    (q : ParsedQuery) (hay points piece : List ℕ) (is_name_term : Bool)
    → bytes_of points ≡ hay
    → holds_all hay q.name_terms ≡ true
    → All (λ w. Matches w.tokens points) q.wildcards
    → ((ext : List ℕ) → q.filters.ext ≡ some (ext ∷ []) → Within (0x2E ∷ ext) hay)
    → prefilter q ≡ (some piece, is_name_term)
    → Within piece hay
unfolding prefilter
prefilter-Within q hay points piece is_name_term e terms matched ext picked =
    subst (Picked hay) picked (
      consider_ext-Picked hay q.filters.ext
        (consider_wildcards q.wildcards (consider_terms q.name_terms (none, false)))
        (consider_wildcards-Picked hay q.wildcards points
          (consider_terms q.name_terms (none, false)) e
          (consider_terms-Picked hay q.name_terms (none, false) tt terms) matched)
        ext)
