-- ===== src/Index/FrnMap/Refine.antt =====
-- crates/goz-core/src/index/store.rs: any run of the operations on the record map, against a function
-- from record numbers to entries.
mod Runs
use goz.Prelude.{
  ℕ, ◌<◌, ◌≡◌, ◌≢◌, refl, sym, ap, ◌∙◌, Bool, true, false, Option, none, some, List, [], ◌∷◌, ◌==◌,
  if◌then◌else◌, All, arith,
}
use goz.Types.{EntryIdx, nil}
use goz.Index.FrnMap.{FrnMap, get, set_record, remove, densify_if_smaller}
use goz.Index.FrnMap.Laws.{get-set_record, get-remove}
use goz.Index.FrnMap.Densify.{
  IsValid, set_record-IsValid, remove-IsValid, densify-IsValid, get-densify_if_smaller,
}

pub data Call : Type 0 where
  call_set : ℕ → EntryIdx → Call
  call_remove : ℕ → Call
  call_densify : ℕ → Call

unfoldable pub call : FrnMap → Call → FrnMap
call m (call_set r i) = set_record m r i
call m (call_remove r) = remove m r
call m (call_densify capacity) = densify_if_smaller capacity m

unfoldable pub run : FrnMap → List Call → FrnMap
run m [] = m
run m (c ∷ cs) = run (call m c) cs

-- What the map promises: it is a function, a set and a remove update it at one record, and the swap
-- of the backing is not seen.
unfoldable pub update : (ℕ → Option EntryIdx) → Call → ℕ → Option EntryIdx
update f (call_set r i) q = if r == q then some i else f q
update f (call_remove r) q = if r == q then none else f q
update f (call_densify capacity) q = f q

unfoldable pub updates : (ℕ → Option EntryIdx) → List Call → ℕ → Option EntryIdx
updates f [] = f
updates f (c ∷ cs) = updates (update f c) cs

-- No call sets the sentinel.
abbrev pub Settable : Call → Type 0
Settable (call_set r i) = i ≢ nil
Settable _ = Unit

call-IsValid : (m : FrnMap) (c : Call) → Settable c → IsValid m → IsValid (call m c)
unfolding call
call-IsValid m (call_set r i) h w = set_record-IsValid m r i h w
call-IsValid m (call_remove r) h w = remove-IsValid m r w
call-IsValid m (call_densify capacity) h w = densify-IsValid capacity m w

get-call :
    (m : FrnMap) (c : Call) (q : ℕ) → Settable c → IsValid m → get (call m c) q ≡ update (get m) c q
unfolding call update
get-call m (call_set r i) q h w = get-set_record m r i q h
get-call m (call_remove r) q h w = get-remove m r q
get-call m (call_densify capacity) q h w = get-densify_if_smaller capacity m q w

-- Updates at one record depend on the function there alone.
update_at : (f g : ℕ → Option EntryIdx) (c : Call) (q : ℕ) → f q ≡ g q → update f c q ≡ update g c q
unfolding update
update_at f g (call_set r i) q e = ap (λ o. if r == q then some i else o) e
update_at f g (call_remove r) q e = ap (λ o. if r == q then none else o) e
update_at f g (call_densify capacity) q e = e

updates_at :
    (f g : ℕ → Option EntryIdx) (cs : List Call) (q : ℕ)
    → f q ≡ g q
    → updates f cs q ≡ updates g cs q
unfolding updates
updates_at f g [] q e = e
updates_at f g (c ∷ cs) q e = updates_at (update f c) (update g c) cs q (update_at f g c q e)

-- After any sequence of sets, removes and swaps of the backing, `get` gives for every record what the
-- same sequence of updates of a function gives, whichever backing the map has at each step: if the
-- map started valid and no call sets the sentinel.
pub get-run :
    (m : FrnMap) (cs : List Call) (q : ℕ)
    → All Settable cs
    → IsValid m
    → get (run m cs) q ≡ updates (get m) cs q
unfolding run updates
get-run m [] q h w = refl
get-run m (c ∷ cs) q h w =
    get-run (call m c) cs q h.1 (call-IsValid m c h.0 w)
    ∙ updates_at (get (call m c)) (update (get m) c) cs q (get-call m c q h.0 w)
