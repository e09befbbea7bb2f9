-- ===== src/Evaluate/Causes.antt =====
-- What an evaluation notes: a cause wherever it comes to unsettled, and nothing where it settles.
use Prim.Native.Nat.{Ordering}
use verify_run.Glob.{glob}
use verify_run.Base.{
  ap, not, sym, all, none, some, codes, Bool, true, false, ◌||◌, List, [], ◌∷◌, ◌≡◌, ◌≢◌, refl, ◌∙◌,
  arith, any, Option, Text,
}
use verify_run.Context.{
  Context, Cause, Resolved, not_settled, absent, value, note, find_item, resolve, descend_step,
  descend, readable, or_absent, resolve_evidence, resolve_root,
}
use verify_run.Expr.{
  Segment, member, Root, Node, conjunction, disjunction, negation, membership, matches, fresh,
  present, Nodes, Operand, Comparison, Containment, literal, path,
}
use verify_run.Value.{Value, str, dict, get, Items}
use verify_run.Evaluate.{
  State, is_true, is_false, unsettled, of_bool, is_unsettled, is_true_state, negate, combine_states,
  equal_resolved, order_of, containment, found_in, ordered, order_state, compare_state,
  matches_state, membership_state, item_ok, is_fresh, evaluate_compare, evaluate_membership,
  evaluate_matches, evaluate_node, evaluate_nodes,
}

-- What is noted by a part of an evaluation that is `open` (unsettled) or not.
pub record Notes (is_open : Bool) (before after : List Cause) : Type 0 where
  pub kept : before ≢ [] → after ≢ []
  pub told : is_open ≡ true → after ≢ []
  pub quiet : is_open ≡ false → after ≡ before

pub note-ne-nil : (cause : Cause) (causes : List Cause) → note cause causes ≢ []
unfolding note
note-ne-nil cause [] h = cc
note-ne-nil cause (x ∷ causes) h = ground arith

Notes-none : (b : Bool) (causes : List Cause) → b ≡ false → Notes b causes causes
Notes-none b causes e = record { kept = λ h. h; told = λ h. cc; quiet = λ _. refl }

Notes-note :
    (b : Bool) (cause : Cause) (causes : List Cause) → b ≡ true → Notes b causes (note cause causes)
Notes-note b cause causes e = record {
  kept = λ _. note-ne-nil cause causes;
  told = λ _. note-ne-nil cause causes;
  quiet = λ h. cc;
}

Notes-then :
    (a b o : Bool) (x y z : List Cause) → o ≡ (a || b) → Notes a x y → Notes b y z → Notes o x z
Notes-then true b o x y z e h k = record {
  kept = λ n. k.kept (h.kept n);
  told = λ _. k.kept (h.told refl);
  quiet = λ q. cc;
}
Notes-then false b o x y z e h k = record {
  kept = λ n. k.kept (h.kept n);
  told = λ t. k.told (sym e ∙ t);
  quiet = λ q. k.quiet (sym e ∙ q) ∙ h.quiet refl;
}

abbrev open_operand : Resolved → Bool
open_operand not_settled = true
open_operand _ = false

descend_step-closed : (r : Resolved) (s : Segment) → open_operand (descend_step r s) ≡ false
unfolding descend_step
descend_step-closed r s = ground arith

descend-closed :
    (r : Resolved) (segments : List Segment)
    → open_operand r ≡ false
    → open_operand (descend r segments) ≡ false
unfolding descend
descend-closed r [] h = h
descend-closed r (s ∷ segments) h =
    descend-closed (descend_step r s) segments (descend_step-closed r s)

evidence-Notes :
    (identifier : Text) (segments : List Segment) (o : Option Value) (causes : List Cause)
    → Notes
        (open_operand (resolve_evidence identifier segments o causes).0)
        causes
        (resolve_evidence identifier segments o causes).1
evidence-Notes identifier segments none causes = Notes-note true _ causes refl
evidence-Notes identifier segments (some v) causes =
    Notes-none _ causes (descend-closed (value v) segments refl)

or_absent-closed : (o : Option Value) → open_operand (or_absent o) ≡ false
or_absent-closed none = refl
or_absent-closed (some v) = refl

root-Notes :
    (root : Root) (c : Context) (first : Text) (segments : List Segment) (causes : List Cause)
    → Notes
        (open_operand (resolve_root root c first segments causes).0)
        causes
        (resolve_root root c first segments causes).1
root-Notes Root.evidence c first segments causes =
    evidence-Notes first segments (readable (find_item first c.items)) causes
root-Notes Root.identity c first segments causes = Notes-none _ causes (
    descend-closed (or_absent (get (codes "identity") c.candidate)) (member first ∷ segments)
      (or_absent-closed (get (codes "identity") c.candidate)))
root-Notes Root.candidate c first segments causes =
    Notes-none _ causes (descend-closed (value (dict c.candidate)) (member first ∷ segments) refl)

resolve-Notes :
    (c : Context) (o : Operand) (causes : List Cause)
    → Notes (open_operand (resolve c o causes).0) causes (resolve c o causes).1
unfolding resolve
resolve-Notes c (literal v) causes = Notes-none false causes refl
resolve-Notes c (path p) causes = root-Notes p.root c p.first p.segments causes

-- A state, over the causes noted before it was reached.
abbrev pub Told : State → List Cause → List Cause → Type 0
Told s = Notes (is_unsettled s)

of_bool-settled : (b : Bool) → is_unsettled (of_bool b) ≡ false
of_bool-settled true = refl
of_bool-settled false = refl

order-Told :
    (op : Comparison) (o : Option Ordering) (causes : List Cause)
    → Told (order_state op o causes).0 causes (order_state op o causes).1
order-Told op none causes = Notes-note true _ causes refl
order-Told op (some order) causes = Notes-none _ causes (of_bool-settled (ordered op order))

-- What a comparison notes beyond its operands.
compare_state-Told :
    (op : Comparison) (l r : Resolved) (x y z : List Cause)
    → Notes (open_operand l) x y
    → Notes (open_operand r) y z
    → Told (compare_state op l r z).0 x (compare_state op l r z).1
unfolding compare_state
compare_state-Told op not_settled r x y z h k = Notes-then true _ true x y z refl h k
compare_state-Told op absent not_settled x y z h k = Notes-then false true true x y z refl h k
compare_state-Told op (value v) not_settled x y z h k = Notes-then false true true x y z refl h k
compare_state-Told Comparison.eq l r x y z h k =
    rw (of_bool-settled (equal_resolved l r)) (Notes-then false false false x y z refl h k)
compare_state-Told Comparison.ne l r x y z h k =
    rw (of_bool-settled (not (equal_resolved l r))) (Notes-then false false false x y z refl h k)
compare_state-Told op l r x y z h k =
    Notes-then false _ _ x z _ refl (Notes-then false false false x y z refl h k)
      (order-Told op (order_of l r) z)

membership_state-Told :
    (op : Containment) (members : Items) (o : Resolved) (x y : List Cause)
    → Notes (open_operand o) x y
    → Told (membership_state op members o) x y
membership_state-Told op members not_settled x y h = h
membership_state-Told op members absent x y h =
    rw (of_bool-settled (containment op (found_in absent members))) h
membership_state-Told op members (value v) x y h =
    rw (of_bool-settled (containment op (found_in (value v) members))) h

matches_state-Told :
    (pattern : Text) (o : Resolved) (x y : List Cause)
    → Notes (open_operand o) x y
    → Told (matches_state pattern o y).0 x (matches_state pattern o y).1
matches_state-Told pattern not_settled x y h = h
matches_state-Told pattern absent x y h = h
matches_state-Told pattern (value (str text)) x y h = rw (of_bool-settled (glob pattern text)) h
matches_state-Told pattern (value _) x y h =
    Notes-then false true true x y _ refl h (Notes-note true _ y refl)

-- The operands of a connective.
abbrev ToldAll : List State → List Cause → List Cause → Type 0
ToldAll states = Notes (any is_unsettled states)

combine-unsettled :
    (all_true : Bool) (states : List State)
    → is_unsettled (combine_states all_true states) ≡ any is_unsettled states
unfolding combine_states
combine-unsettled all_true states =
    ground (
      arith,
      of_bool-settled (all is_true_state states),
      of_bool-settled (any is_true_state states),
    )

negate-unsettled : (s : State) → is_unsettled (negate s) ≡ is_unsettled s
negate-unsettled s = ground arith

settled_of : (s : State) → s ≢ unsettled → is_unsettled s ≡ false
settled_of is_true h = refl
settled_of is_false h = refl
settled_of unsettled h = absurd (h refl)

mutual
  unfolding evaluate_node evaluate_compare evaluate_membership evaluate_matches

  node-Told :
      (c : Context) (n : Node) (causes : List Cause)
      → Told (evaluate_node c n causes).0 causes (evaluate_node c n causes).1
  node-Told c (conjunction ns) causes =
      rw (combine-unsettled true (evaluate_nodes c ns causes).0) (nodes-Told c ns causes)
  node-Told c (disjunction ns) causes =
      rw (combine-unsettled false (evaluate_nodes c ns causes).0) (nodes-Told c ns causes)
  node-Told c (negation n) causes =
      rw (negate-unsettled (evaluate_node c n causes).0) (node-Told c n causes)
  node-Told c (present i) causes = Notes-none _ causes (of_bool-settled (item_ok c i))
  node-Told c (fresh i) causes = Notes-none _ causes (of_bool-settled (is_fresh c i))
  node-Told c (matches p pattern) causes =
      matches_state-Told pattern (resolve c (path p) causes).0 causes (resolve c (path p) causes).1
        (resolve-Notes c (path p) causes)
  node-Told c (membership op o members) causes =
      membership_state-Told op members (resolve c o causes).0 causes (resolve c o causes).1
        (resolve-Notes c o causes)
  node-Told c (Node.compare op l r) causes =
      compare_state-Told op (resolve c l causes).0 (resolve c r (resolve c l causes).1).0 causes
        (resolve c l causes).1 (resolve c r (resolve c l causes).1).1 (resolve-Notes c l causes)
        (resolve-Notes c r (resolve c l causes).1)

  nodes-Told :
      (c : Context) (ns : Nodes) (causes : List Cause)
      → ToldAll (evaluate_nodes c ns causes).0 causes (evaluate_nodes c ns causes).1
  nodes-Told c Nodes.nil causes = Notes-none false causes refl
  nodes-Told c (Nodes.cons n ns) causes =
      Notes-then _ _ _ causes (evaluate_node c n causes).1 _ refl (node-Told c n causes)
        (nodes-Told c ns (evaluate_node c n causes).1)

-- An expression that comes to unsettled has noted at least one cause, and one that settles has noted
-- none: the causes are then what they were before.
pub evaluate_node-Told :
    (c : Context) (n : Node) (causes : List Cause)
    → ((evaluate_node c n causes).0 ≡ unsettled → (evaluate_node c n causes).1 ≢ [])
      × ((evaluate_node c n causes).0 ≢ unsettled → (evaluate_node c n causes).1 ≡ causes)
evaluate_node-Told c n causes =
    let t : Told (evaluate_node c n causes).0 causes (evaluate_node c n causes).1 =
      node-Told c n causes in
    (λ e. t.told (ap is_unsettled e), λ ne. t.quiet (settled_of _ ne))
