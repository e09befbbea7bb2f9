-- ===== src/Snapshot/Items.antt =====
-- The items that `build_snapshot` puts together pass the checks of `verify_snapshot_value`.
use verify_run.Base.{
  ℕ, suc, ◌+◌, ◌≡◌, refl, sym, ap, subst, ◌∙◌, Bool, true, false, not, Option, none, some, List, [],
  ◌∷◌, ◌++◌, Text, length, arith, ◌==◌,
}
use verify_run.Base.Int.{ℤ, leb_ℤ}
use verify_run.Value.{Value, str}
use verify_run.Instant.{instant}
use verify_run.Context.{Declaration}
use verify_run.Snapshot.{
  Rejection, Checked, rejected, accepted, ◌>>=◌, require, Entry, seen_in, declared,
  check_acquisition_shape, fits_status, dated, instant_or_raise, collect_one, collect, seen_after,
  check_item, check_items,
}

pub accepted-injective : {A : Type 0} {a b : A} → accepted a ≡ accepted b → a ≡ b
accepted-injective {A} {a} e = ap (λ c. elim c [ rejected r ↦ a | accepted x ↦ x ]) e

-- Where a chain is accepted, its first link is.
pub bind-accepted :
    {A B : Type 0} (x : Checked A) (f : A → Checked B) (b : B)
    → (x >>= f) ≡ accepted b
    → (a : A) × (x ≡ accepted a) × (f a ≡ accepted b)
bind-accepted (rejected r) f b e = cc
bind-accepted (accepted a) f b e = (a, refl, e)

pub require-true :
    {B : Type 0} (t : Bool) (r : Rejection) (f : Unit → Checked B) (b : B)
    → (require t r >>= f) ≡ accepted b
    → (t ≡ true) × (f tt ≡ accepted b)
require-true true r f b e = (refl, e)
require-true false r f b e = cc

dated-again :
    (text : Text) (o : Option ℤ) (at : Text × ℤ)
    → o ≡ instant text
    → dated text o ≡ accepted at
    → instant_or_raise (str at.0) ≡ accepted at
unfolding instant_or_raise
dated-again text none at e h = cc
dated-again text (some t) at e h =
    let same : (text, t) ≡ at = accepted-injective h in
    subst (λ p. instant_or_raise (str p.0) ≡ accepted p) same (ap (dated text) (sym e))

-- The text that was read is read the same way again.
pub instant-again :
    (v : Value) (at : Text × ℤ)
    → instant_or_raise v ≡ accepted at
    → instant_or_raise (str at.0) ≡ accepted at
unfolding instant_or_raise
instant-again (str text) at h = dated-again text (instant text) at refl h
instant-again _ at h = cc

collect_one-checked :
    (ds : List Declaration) (t : ℤ) (position : ℕ) (seen : List Text) (v : Value) (e : Entry)
    → collect_one ds t position seen v ≡ accepted e
    → check_item ds t position seen e ≡ accepted tt
unfolding collect_one check_item
collect_one-checked ds t position seen v e h =
    let (a, shaped, h1) = bind-accepted (check_acquisition_shape v) _ e h in
    let (known, h2) = require-true (declared a.id ds) _ _ e h1 in
    let (new, h3) = require-true (not (seen_in a.id seen)) _ _ e h2 in
    let (fits, h4) = require-true (fits_status a.status a.value) _ _ e h3 in
    let (at, read, h5) = bind-accepted (instant_or_raise a.acquired_at) _ e h4 in
    let (early, h6) = require-true (leb_ℤ at.1 t) _ _ e h5 in
    let here : position == position ≡ true = ground arith in
    subst (λ x. check_item ds t position seen x ≡ accepted tt) (accepted-injective h6)
      (rw (known, new, here, fits, instant-again a.acquired_at at read, early) refl)

abbrev passes : List Declaration → ℤ → ℕ → List Text → List Entry → Checked Unit → Checked Unit
passes ds t position seen es x = x >>= λ _. check_items ds t position seen es

collect-checked :
    (ds : List Declaration) (t : ℤ) (position : ℕ) (seen : List Text) (vs : List Value)
    (es rest : List Entry)
    → collect ds t position seen vs ≡ accepted es
    → check_items ds t position seen (es ++ rest)
      ≡ check_items ds t (position + length es) (seen_after seen es) rest
unfolding collect check_items
collect-checked ds t position seen [] es rest h =
    subst
      (λ x.
        check_items ds t position seen (x ++ rest)
        ≡ check_items ds t (position + length x) (seen_after seen x) rest)
      (accepted-injective h)
      (ap (λ k. check_items ds t k seen rest) {x = position} {y = position + 0} (omega arith))
collect-checked ds t position seen (v ∷ vs) es rest h =
    let (e, one, h1) = bind-accepted (collect_one ds t position seen v) _ es h in
    let (tail, more, h2) = bind-accepted (collect ds t (suc position) (e.id ∷ seen) vs) _ es h1 in
    let moved : suc position + length tail ≡ position + suc (length tail) = omega arith in
    subst
      (λ x.
        check_items ds t position seen (x ++ rest)
        ≡ check_items ds t (position + length x) (seen_after seen x) rest)
      (accepted-injective h2)
      (ap (passes ds t (suc position) (e.id ∷ seen) (tail ++ rest))
          (collect_one-checked ds t position seen v e one)
        ∙ collect-checked ds t (suc position) (e.id ∷ seen) vs tail rest more
        ∙ ap (λ k. check_items ds t k (seen_after (e.id ∷ seen) tail) rest) moved)

-- From the first position on.
pub collect-check_items :
    (ds : List Declaration) (t : ℤ) (vs : List Value) (es rest : List Entry)
    → collect ds t 0 [] vs ≡ accepted es
    → check_items ds t 0 [] (es ++ rest) ≡ check_items ds t (length es) (seen_after [] es) rest
collect-check_items ds t vs es rest h =
    collect-checked ds t 0 [] vs es rest h
    ∙ ap (λ k. check_items ds t k (seen_after [] es) rest) {x = 0 + length es} {y = length es}
        (omega arith)
