-- ===== src/Evaluate/Freshness.antt =====
-- What the age of evidence decides: `fresh`, and nothing else.
use mathlib.Core.Option.{some-injective}
use verify_run.Base.{
  sym, subst, ℕ, ◌*◌, ◌≡◌, refl, ap, ◌∙◌, ◌↔◌, true, false, Option, none, some, List, ◌∷◌, Text,
  arith,
}
use verify_run.Base.Int.{ℤ, pos, ◌-ℤ◌, ◌≤ℤ◌}
use verify_run.Context.{
  Context, Cause, Item, Status, ok, is_ok, find_item, find_declaration, resolve, resolve_root,
  Resolved,
}
use verify_run.Expr.{
  Node, conjunction, disjunction, negation, membership, matches, fresh, present, Nodes, Operand,
  literal, path, Root, Comparison,
}
use verify_run.Evaluate.{
  State, negate, combine_states, compare_state, membership_state, matches_state, within_age,
  bound_of, item_ok, is_fresh, evaluate_compare, evaluate_membership, evaluate_matches,
  evaluate_node, evaluate_nodes,
}

-- The age is within the declared bound, and any age is where none is declared.
abbrev pub InAge : ℤ → ℤ → Option ℕ → Type 0
InAge frozen_at acquired_at none = Unit
InAge frozen_at acquired_at (some bound) = frozen_at -ℤ acquired_at ≤ℤ pos (bound * 1000000000)

status_ok : (s : Status) → is_ok s ≡ true → s ≡ ok
status_ok s h = ground arith

ok_of_item : (i j : Item) → some i ≡ some j → j.status ≡ ok → is_ok i.status ≡ true
ok_of_item i j e h = subst (λ k. is_ok k.status ≡ true) (sym (some-injective _ _ e)) (ap is_ok h)

within_age_iff :
    (t : ℤ) (o : Option Item) (bound : Option ℕ)
    → (within_age t o bound ≡ true)
      ↔ ((i : Item) × (o ≡ some i) × (i.status ≡ ok) × InAge t i.acquired_at bound)
within_age_iff t none bound = (λ h. cc, λ w. cc (w.1))
within_age_iff t (some i) none =
    (λ h. (i, refl, status_ok i.status h, tt), λ w. ok_of_item i (w.0) w.1 w.2)
within_age_iff t (some i) (some bound) = (
  λ h. (i, refl, status_ok i.status (ground arith), ground arith),
  λ w.
      let e : i ≡ w.0 = some-injective _ _ w.1 in
      let fits : InAge t i.acquired_at (some bound) =
        subst (λ j. InAge t j.acquired_at (some bound)) (sym e) w.3 in
      ground (arith, ok_of_item i (w.0) w.1 w.2),
)

-- `fresh(id)` is true exactly when the item is there, its status is ok, and its age in nanoseconds is
-- at most the bound that is declared in seconds, the bound itself included, or no bound is declared.
pub is_fresh_iff :
    (c : Context) (id : Text)
    → (is_fresh c id ≡ true) ↔ (
        (i : Item) × (find_item id c.items ≡ some i)
        × (i.status ≡ ok)
        × InAge c.frozen_at i.acquired_at (bound_of (find_declaration id c.declarations)))
unfolding is_fresh
is_fresh_iff c id =
    within_age_iff c.frozen_at (find_item id c.items)
      (bound_of (find_declaration id c.declarations))

abbrev mutual
  -- The expression does not ask for `fresh`.
  pub NoFresh : Node → Type 0
  NoFresh (conjunction ns) = NoFreshes ns
  NoFresh (disjunction ns) = NoFreshes ns
  NoFresh (negation n) = NoFresh n
  NoFresh (fresh id) = ⊥
  NoFresh _ = Unit

  pub NoFreshes : Nodes → Type 0
  NoFreshes Nodes.nil = Unit
  NoFreshes (Nodes.cons n ns) = NoFresh n × NoFreshes ns

abbrev pub frozen : Context → ℤ → Context
frozen c t = record c { frozen_at = t }

root-frozen :
    (c : Context) (t : ℤ) (r : Operand) (causes : List Cause)
    → resolve (frozen c t) r causes ≡ resolve c r causes
unfolding resolve
root-frozen c t (literal v) causes = refl
root-frozen c t (path p) causes = by_root p.root
  where
    by_root :
        (root : Root)
        → resolve_root root (frozen c t) p.first p.segments causes
          ≡ resolve_root root c p.first p.segments causes
    by_root Root.candidate = refl
    by_root Root.evidence = refl
    by_root Root.identity = refl

abbrev compare_both : Context → Comparison → Operand → Resolved × List Cause → State × List Cause
compare_both c op r x = compare_state op x.0 (resolve c r x.1).0 (resolve c r x.1).1

abbrev states_then : Context → Nodes → State × List Cause → List State × List Cause
states_then c ns x = (x.0 ∷ (evaluate_nodes c ns x.1).0, (evaluate_nodes c ns x.1).1)

mutual
  unfolding evaluate_node evaluate_compare evaluate_membership evaluate_matches item_ok

  node-frozen :
      (c : Context) (t : ℤ) (n : Node) (causes : List Cause)
      → NoFresh n
      → evaluate_node (frozen c t) n causes ≡ evaluate_node c n causes
  node-frozen c t (conjunction ns) causes h =
      ap (λ r. (combine_states true r.0, r.1)) (nodes-frozen c t ns causes h)
  node-frozen c t (disjunction ns) causes h =
      ap (λ r. (combine_states false r.0, r.1)) (nodes-frozen c t ns causes h)
  node-frozen c t (negation n) causes h = ap (λ r. (negate r.0, r.1)) (node-frozen c t n causes h)
  node-frozen c t (present i) causes h = refl
  node-frozen c t (fresh i) causes h = absurd h
  node-frozen c t (matches p pattern) causes h =
      ap (λ r. matches_state pattern r.0 r.1) (root-frozen c t (path p) causes)
  node-frozen c t (membership op o members) causes h =
      ap (λ r. (membership_state op members r.0, r.1)) (root-frozen c t o causes)
  node-frozen c t (Node.compare op l r) causes h =
      ap (λ x. compare_both (frozen c t) op r x) (root-frozen c t l causes)
      ∙ ap (λ y. compare_state op (resolve c l causes).0 y.0 y.1)
          (root-frozen c t r (resolve c l causes).1)

  nodes-frozen :
      (c : Context) (t : ℤ) (ns : Nodes) (causes : List Cause)
      → NoFreshes ns
      → evaluate_nodes (frozen c t) ns causes ≡ evaluate_nodes c ns causes
  nodes-frozen c t Nodes.nil causes h = refl
  nodes-frozen c t (Nodes.cons n ns) causes h =
      ap (λ x. states_then (frozen c t) ns x) (node-frozen c t n causes h.0)
      ∙ ap (λ y. ((evaluate_node c n causes).0 ∷ y.0, y.1))
          (nodes-frozen c t ns (evaluate_node c n causes).1 h.1)

-- A reference to an evidence value does not look at its age: an expression that does not ask for
-- `fresh` comes to the same state, with the same causes, whatever instant the snapshot is frozen at,
-- so an item past its declared bound is read as a young one is.
pub evaluate_node-frozen :
    (c : Context) (t : ℤ) (n : Node) (causes : List Cause)
    → NoFresh n
    → evaluate_node (frozen c t) n causes ≡ evaluate_node c n causes
evaluate_node-frozen = node-frozen
