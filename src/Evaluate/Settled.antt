-- ===== src/Evaluate/Settled.antt =====
-- "Unsettled is absorbing": three-valued evaluation against the ordinary two-valued reading.
use mathlib.Core.Path.{ap₂}
use verify_run.Base.{
  sym, subst, Text, Bool, true, false, not, ◌&&◌, ◌||◌, List, [], ◌∷◌, ◌≡◌, refl, ap, ◌∙◌, arith,
  if◌then◌else◌, any, all,
}
use verify_run.Context.{Context, Cause, Resolved, resolve}
use verify_run.Expr.{
  Node, conjunction, disjunction, negation, membership, matches, fresh, present, Nodes, Operand,
  Comparison, Containment, PathNode, literal, path,
}
use verify_run.Value.{Items}
use verify_run.Evaluate.{
  State, is_true, is_false, unsettled, of_bool, is_unsettled, is_true_state, negate, combine_states,
  compare_state, matches_state, membership_state, item_ok, is_fresh, evaluate_compare,
  evaluate_membership, evaluate_matches, evaluate_node, evaluate_nodes,
}

-- The state of a comparison, a membership test or a match, with nothing noted yet.
abbrev atom : Context → Node → State
atom c n = (evaluate_node c n []).0

abbrev mutual
  -- No atom of the expression is unsettled.
  pub settles : Context → Node → Bool
  settles c (conjunction ns) = settle_all c ns
  settles c (disjunction ns) = settle_all c ns
  settles c (negation n) = settles c n
  settles c n = not (is_unsettled (atom c n))

  pub settle_all : Context → Nodes → Bool
  settle_all c Nodes.nil = true
  settle_all c (Nodes.cons n ns) = settles c n && settle_all c ns

abbrev mutual
  -- The two-valued reading of the expression.
  pub holds : Context → Node → Bool
  holds c (conjunction ns) = all_hold c ns
  holds c (disjunction ns) = any_holds c ns
  holds c (negation n) = not (holds c n)
  holds c n = is_true_state (atom c n)

  pub all_hold : Context → Nodes → Bool
  all_hold c Nodes.nil = true
  all_hold c (Nodes.cons n ns) = holds c n && all_hold c ns

  pub any_holds : Context → Nodes → Bool
  any_holds c Nodes.nil = false
  any_holds c (Nodes.cons n ns) = holds c n || any_holds c ns

-- What has been noted before has no part in a state.
resolve-state :
    (c : Context) (o : Operand) (causes : List Cause) → (resolve c o causes).0 ≡ (resolve c o []).0
unfolding resolve
resolve-state c (literal v) causes = refl
resolve-state c (path p) causes = ground arith

compare_state-state :
    (op : Comparison) (l r : Resolved) (causes others : List Cause)
    → (compare_state op l r causes).0 ≡ (compare_state op l r others).0
unfolding compare_state
compare_state-state op l r causes others = ground arith

matches_state-state :
    (pattern : Text) (o : Resolved) (causes others : List Cause)
    → (matches_state pattern o causes).0 ≡ (matches_state pattern o others).0
matches_state-state pattern o causes others = ground arith

module _ (c : Context) (causes : List Cause) where
  compare-state :
      (op : Comparison) (l r : Operand)
      → (evaluate_compare c op l r causes).0 ≡ (evaluate_compare c op l r []).0
  unfolding evaluate_compare
  compare-state op l r =
      let after : List Cause = (resolve c l causes).1 in
      let fresh_after : List Cause = (resolve c l []).1 in
      compare_state-state op (resolve c l causes).0 (resolve c r after).0 (resolve c r after).1 []
      ∙ ap₂ (λ x y. (compare_state op x y []).0) (resolve-state c l causes)
          (resolve-state c r after ∙ sym (resolve-state c r fresh_after))
      ∙ compare_state-state op (resolve c l []).0 (resolve c r fresh_after).0 []
          (resolve c r fresh_after).1

  membership-state :
      (op : Containment) (o : Operand) (members : Items)
      → (evaluate_membership c op o members causes).0 ≡ (evaluate_membership c op o members []).0
  unfolding evaluate_membership
  membership-state op o members = ap (membership_state op members) (resolve-state c o causes)

  matches-state :
      (p : PathNode) (pattern : Text)
      → (evaluate_matches c p pattern causes).0 ≡ (evaluate_matches c p pattern []).0
  unfolding evaluate_matches
  matches-state p pattern =
      matches_state-state pattern (resolve c (path p) causes).0 (resolve c (path p) causes).1 []
      ∙ ap (λ o. (matches_state pattern o []).0) (resolve-state c (path p) causes)
      ∙ matches_state-state pattern (resolve c (path p) []).0 [] (resolve c (path p) []).1

-- A state that is read as settled or not, and as true or not, is determined.
read : (s : State) → s ≡ (if not (is_unsettled s) then of_bool (is_true_state s) else unsettled)
read is_true = refl
read is_false = refl
read unsettled = refl

abbrev absorbed : Context → Node → State
absorbed c n = if settles c n then of_bool (holds c n) else unsettled

-- What the states of the operands say together.
record Reads (c : Context) (ns : Nodes) (states : List State) : Type 0 where
  settled : any is_unsettled states ≡ not (settle_all c ns)
  every : settle_all c ns ≡ true → all is_true_state states ≡ all_hold c ns
  some_one : settle_all c ns ≡ true → any is_true_state states ≡ any_holds c ns

-- The three readings of one more operand, over the Booleans that they come from.
module _ (settled_first holds_first settled_rest : Bool) where
  abbrev first_state : State
  first_state = if settled_first then of_bool holds_first else unsettled

  cons_settled :
      (u : Bool)
      → u ≡ not settled_rest
      → (is_unsettled first_state || u) ≡ not (settled_first && settled_rest)
  cons_settled u h = ground arith

  cons_every :
      (x y : Bool)
      → (settled_rest ≡ true → x ≡ y)
      → settled_first && settled_rest ≡ true
      → (is_true_state first_state && x) ≡ (holds_first && y)
  cons_every x y h k = ground (arith, h)

  cons_some :
      (x y : Bool)
      → (settled_rest ≡ true → x ≡ y)
      → settled_first && settled_rest ≡ true
      → (is_true_state first_state || x) ≡ (holds_first || y)
  cons_some x y h k = ground (arith, h)

Reads-cons :
    (c : Context) (n : Node) (ns : Nodes) (s : State) (states : List State)
    → s ≡ absorbed c n
    → Reads c ns states
    → Reads c (Nodes.cons n ns) (s ∷ states)
Reads-cons c n ns s states e r =
    subst (λ t. Reads c (Nodes.cons n ns) (t ∷ states)) (sym e)
      (record {
        settled = cons_settled (settles c n) (holds c n) (settle_all c ns) _ r.settled;
        every = cons_every (settles c n) (holds c n) (settle_all c ns) _ _ r.every;
        some_one = cons_some (settles c n) (holds c n) (settle_all c ns) _ _ r.some_one;
      })

combine-Reads :
    (c : Context) (ns : Nodes) (states : List State)
    → Reads c ns states
    → (combine_states true states ≡ absorbed c (conjunction ns))
      × (combine_states false states ≡ absorbed c (disjunction ns))
unfolding combine_states
combine-Reads c ns states r = ground (arith, r.every, r.some_one)

negate-absorbed : (c : Context) (n : Node) → negate (absorbed c n) ≡ absorbed c (negation n)
negate-absorbed c n = ground arith

mutual
  unfolding evaluate_node

  node-absorbed :
      (c : Context) (n : Node) (causes : List Cause) → (evaluate_node c n causes).0 ≡ absorbed c n
  node-absorbed c (conjunction ns) causes =
      (combine-Reads c ns (evaluate_nodes c ns causes).0 (nodes-Reads c ns causes)).0
  node-absorbed c (disjunction ns) causes =
      (combine-Reads c ns (evaluate_nodes c ns causes).0 (nodes-Reads c ns causes)).1
  node-absorbed c (negation n) causes = ap negate (node-absorbed c n causes) ∙ negate-absorbed c n
  node-absorbed c (present i) causes = read (of_bool (item_ok c i))
  node-absorbed c (fresh i) causes = read (of_bool (is_fresh c i))
  node-absorbed c (matches p pattern) causes =
      matches-state c causes p pattern ∙ read (evaluate_matches c p pattern []).0
  node-absorbed c (membership op o members) causes =
      membership-state c causes op o members ∙ read (evaluate_membership c op o members []).0
  node-absorbed c (Node.compare op l r) causes =
      compare-state c causes op l r ∙ read (evaluate_compare c op l r []).0

  nodes-Reads :
      (c : Context) (ns : Nodes) (causes : List Cause) → Reads c ns (evaluate_nodes c ns causes).0
  nodes-Reads c Nodes.nil causes = record {
    settled = refl;
    every = λ _. refl;
    some_one = λ _. refl;
  }
  nodes-Reads c (Nodes.cons n ns) causes =
      Reads-cons c n ns (evaluate_node c n causes).0 _ (node-absorbed c n causes)
        (nodes-Reads c ns (evaluate_node c n causes).1)

-- Unsettled is absorbing, whatever has been noted before: an expression with an unsettled atom
-- anywhere, also where the rest would decide it, is unsettled; any other expression has the value
-- of its ordinary two-valued reading.
pub evaluate_node-absorbing :
    (c : Context) (n : Node) (causes : List Cause)
    → (evaluate_node c n causes).0 ≡ (if settles c n then of_bool (holds c n) else unsettled)
evaluate_node-absorbing = node-absorbed
