-- ===== src/Query/Engine/Scope/Exact.antt =====
-- crates/goz-core/src/query/engine.rs: the scope test with its memo, against the parent links.
use goz.Prelude.{
  ℕ, zero, suc, ◌≤◌, ◌<◌, ◌≡◌, ◌≢◌, refl, sym, ◌∙◌, subst, Bool, true, false, Option, none, some,
  inl, inr, List, [], ◌∷◌, ◌==◌, arith, All, Bool-cases, Option-cases, eq→==, ==→eq, ne→==_false,
  ==_false→ne,
}
use goz.Prelude.Options.{◌>>=◌, >>=-some}
use goz.Types.{EntryIdx, nil}
use goz.Index.EntryTable.{EntryTable, get_cell}
use goz.Query.Engine.Scope.{
  Memo, recall, remember, scope_hops, scope_walk, in_scope_within, in_scope,
}

module _ (t : EntryTable) (root : EntryIdx) where
  -- Parent links lead from the entry to the folder.
  pub data Inside : EntryIdx → Type 0 where
    here : {e : EntryIdx} → e ≡ root → Inside e
    up :
        {e : EntryIdx} (p : EntryIdx)
        → get_cell (λ s. s.parent) t e ≡ some p
        → p ≢ nil
        → Inside p
        → Inside e

  -- After so many parent links the walk is at the folder or at an entry without a parent.
  pub data Ends : ℕ → EntryIdx → Type 0 where
    at_root : {e : EntryIdx} → e ≡ root → Ends zero e
    at_top : {e : EntryIdx} → e ≢ root → get_cell (λ s. s.parent) t e ≡ some nil → Ends zero e
    link :
        {n : ℕ} {e : EntryIdx} (p : EntryIdx)
        → e ≢ root
        → get_cell (λ s. s.parent) t e ≡ some p
        → p ≢ nil
        → Ends n p
        → Ends (suc n) e

  abbrev Verdict : EntryIdx → Bool → Type 0
  Verdict e true = Inside e
  Verdict e false = ¬ Inside e

  abbrev IsExact : Memo → Type 0
  IsExact memo = All (λ known. Verdict known.0 known.1) memo

  recall-Verdict :
      (memo : Memo) (e : EntryIdx) (b : Bool) → IsExact memo → recall e memo ≡ some b → Verdict e b
  unfolding recall
  recall-Verdict [] e b h r = absurd (ground (arith, r))
  recall-Verdict ((k, verdict) ∷ memo) e b (h, hs) r = elim (Bool-cases (e == k)) [
    | inl same ↦
        let found : some verdict ≡ some b = rw same at r in
        let this : verdict ≡ b = ground (arith, found) in
        subst (Verdict e) this (subst (λ z. Verdict z verdict) (sym (==→eq e k same)) h)
    | inr other ↦ recall-Verdict memo e b hs (rw other at r)
  ]

  remember-IsExact :
      (chain : List EntryIdx) (b : Bool) (memo : Memo)
      → All (λ e. Verdict e b) chain
      → IsExact memo
      → IsExact (remember chain b memo)
  unfolding remember
  remember-IsExact [] b memo all h = h
  remember-IsExact (e ∷ chain) b memo (a, all) h =
      remember-IsExact chain b ((e, b) ∷ memo) all (a, h)

  Inside-link :
      (e p : EntryIdx) → e ≢ root → get_cell (λ s. s.parent) t e ≡ some p → Inside e → Inside p
  Inside-link e p ne parent (here at) = absurd (ne at)
  Inside-link e p ne parent (up q parent_q some_q i) =
      let found : some q ≡ some p = sym parent_q ∙ parent in subst Inside (ground (arith, found)) i

  link-Verdict :
      (e p : EntryIdx) (b : Bool)
      → e ≢ root
      → get_cell (λ s. s.parent) t e ≡ some p
      → p ≢ nil
      → Verdict p b
      → Verdict e b
  link-Verdict e p true ne parent some_p h = up p parent some_p h
  link-Verdict e p false ne parent some_p h = λ i. h (Inside-link e p ne parent i)

  top-Verdict :
      (e : EntryIdx) → e ≢ root → get_cell (λ s. s.parent) t e ≡ some nil → Verdict e false
  top-Verdict e ne parent (here at) = ne at
  top-Verdict e ne parent (up q parent_q some_q i) =
      let found : some q ≡ some nil = sym parent_q ∙ parent in some_q (ground (arith, found))

  -- A walk that reaches an end finds the right verdict, also for the entries it passes.
  abbrev Walked : EntryIdx → Option (Bool × List EntryIdx) → Type 0
  Walked e r =
      (b : Bool) × (chain : List EntryIdx) × (r ≡ some (b, chain))
      × Verdict e b
      × All (λ c. Verdict c b) chain

  Walked-link :
      (e p : EntryIdx) (r : Option (Bool × List EntryIdx))
      → e ≢ root
      → get_cell (λ s. s.parent) t e ≡ some p
      → p ≢ nil
      → Walked p r
      → Walked e (r >>= (λ above. some (above.0, e ∷ above.1)))
  Walked-link e p r ne parent some_p (b, chain, at, v, all) =
      let this : Verdict e b = link-Verdict e p b ne parent some_p v in
      (b, e ∷ chain, >>=-some _ _ (b, chain) at refl, this, (this, all))

  module _ (memo : Memo) (left : ℕ) (e : EntryIdx) where
    walk_root : e ≡ root → scope_walk t root memo (suc left) e ≡ some (true, [])
    unfolding scope_walk
    walk_root at = rw (eq→== e root at, scope_walk) refl

    walk_known :
        (v : Bool)
        → e ≢ root
        → recall e memo ≡ some v
        → scope_walk t root memo (suc left) e ≡ some (v, [])
    unfolding scope_walk
    walk_known v ne known = rw (ne→==_false e root ne, known, scope_walk) refl

    walk_top :
        e ≢ root
        → recall e memo ≡ none
        → get_cell (λ s. s.parent) t e ≡ some nil
        → scope_walk t root memo (suc left) e ≡ some (false, [])
    unfolding scope_walk
    walk_top ne unknown parent =
        rw (ne→==_false e root ne, unknown, scope_walk) (>>=-some _ _ nil parent refl)

    walk_link :
        (p : EntryIdx)
        → e ≢ root
        → recall e memo ≡ none
        → get_cell (λ s. s.parent) t e ≡ some p
        → p ≢ nil
        → scope_walk t root memo (suc left) e
          ≡ (scope_walk t root memo left p >>= (λ above. some (above.0, e ∷ above.1)))
    unfolding scope_walk
    walk_link p ne unknown parent some_p =
        rw (ne→==_false e root ne, unknown, scope_walk)
          (>>=-some _ _ p parent (rw (ne→==_false p nil some_p) refl))

  -- At an entry that the memo does not know, when the walk from a parent is right.
  walk_on :
      (memo : Memo) (n left : ℕ) (e : EntryIdx)
      → recall e memo ≡ none
      → Ends n e
      → n < suc left
      → ((m : ℕ) (p : EntryIdx) → Ends m p → m < left → Walked p (scope_walk t root memo left p))
      → Walked e (scope_walk t root memo (suc left) e)
  walk_on memo zero left e unknown (at_root at) lt above =
      subst (Walked e) (sym (walk_root memo left e at)) (true, [], refl, here at, tt)
  walk_on memo zero left e unknown (at_top ne parent) lt above =
      subst (Walked e) (sym (walk_top memo left e ne unknown parent))
        (false, [], refl, top-Verdict e ne parent, tt)
  walk_on memo (suc n) left e unknown (link p ne parent some_p ends) lt above =
      subst (Walked e) (sym (walk_link memo left e p ne unknown parent some_p))
        (Walked-link e p _ ne parent some_p (above n p ends (omega (arith, lt))))

  scope_walk-Walked :
      (memo : Memo) (n fuel : ℕ) (e : EntryIdx)
      → IsExact memo
      → Ends n e
      → n < fuel
      → Walked e (scope_walk t root memo fuel e)
  scope_walk-Walked memo n zero e h ends lt = absurd (omega (arith, lt))
  scope_walk-Walked memo n (suc left) e h ends lt = elim (Bool-cases (e == root)) [
    | inl at ↦
        let here_at = ==→eq e root at in
        subst (Walked e) (sym (walk_root memo left e here_at)) (true, [], refl, here here_at, tt)
    | inr other ↦
        let ne = ==_false→ne e root other in
        elim (Option-cases (recall e memo)) [
          | inl unknown ↦
              walk_on memo n left e unknown ends lt
                (λ m p m_ends m_lt. scope_walk-Walked memo m left p h m_ends m_lt)
          | inr (v, known) ↦
              subst (Walked e) (sym (walk_known memo left e v ne known))
                (v, [], refl, recall-Verdict memo e v h known, tt)
        ]
  ]

  -- Below the folder, which the folder itself is not.
  abbrev InScope : EntryIdx → Bool → Type 0
  InScope e true = (e ≢ root) × Inside e
  InScope e false = ¬ ((e ≢ root) × Inside e)

  Verdict-InScope : (e : EntryIdx) (b : Bool) → e ≢ root → Verdict e b → InScope e b
  Verdict-InScope e true ne v = (ne, v)
  Verdict-InScope e false ne v = λ both. v both.1

  abbrev pub Scoped : EntryIdx → Option (Bool × Memo) → Type 0
  Scoped e r = (b : Bool) × (memo : Memo) × (r ≡ some (b, memo)) × InScope e b × IsExact memo

  in_scope_here :
      (hops : ℕ) (memo : Memo) (e : EntryIdx)
      → e ≡ root
      → in_scope_within hops t e root memo ≡ some (false, memo)
  unfolding in_scope_within
  in_scope_here hops memo e at = rw (eq→== e root at, in_scope_within) refl

  in_scope_below :
      (hops : ℕ) (memo : Memo) (e : EntryIdx) (b : Bool) (chain : List EntryIdx)
      → e ≢ root
      → scope_walk t root memo (suc hops) e ≡ some (b, chain)
      → in_scope_within hops t e root memo ≡ some (b, remember chain b memo)
  unfolding in_scope_within
  in_scope_below hops memo e b chain ne walked =
      rw (ne→==_false e root ne, in_scope_within) (>>=-some _ _ (b, chain) walked refl)

  in_scope_within-Scoped :
      (hops : ℕ) (memo : Memo) (n : ℕ) (e : EntryIdx)
      → IsExact memo
      → Ends n e
      → n ≤ hops
      → Scoped e (in_scope_within hops t e root memo)
  in_scope_within-Scoped hops memo n e h ends le = elim (Bool-cases (e == root)) [
    | inl same ↦
        let at = ==→eq e root same in
        (false, memo, in_scope_here hops memo e at, (λ both. both.0 at), h)
    | inr other ↦
        let ne = ==_false→ne e root other in
        let (b, chain, walked, v, all) =
          scope_walk-Walked memo n (suc hops) e h ends (omega (arith, le)) in
        (
          b,
          remember chain b memo,
          in_scope_below hops memo e b chain ne walked,
          Verdict-InScope e b ne v,
          remember-IsExact chain b memo all h,
        )
  ]

  -- For an exact memo, and an entry from which at most 4096 parent links lead to the folder or to an
  -- entry without a parent: the test answers whether the entry is below the folder, which the folder
  -- itself is not, and the memo stays exact.
  pub in_scope-Scoped :
      (memo : Memo) (n : ℕ) (e : EntryIdx)
      → IsExact memo
      → Ends n e
      → n ≤ scope_hops
      → Scoped e (in_scope t e root memo)
  unfolding in_scope
  in_scope-Scoped memo n e h ends le = in_scope_within-Scoped scope_hops memo n e h ends le
