-- ===== src/Evaluate.antt =====
-- vfy/gate.py: the evaluation of one expression against the recorded inputs. A node is true, false
-- or unsettled, and what could not settle is noted in `unsettled_causes`, which the functions take
-- and hand back.
pub mod Settled
pub mod Causes
pub mod Freshness
use Prim.Native.Nat.{Ordering}
use verify_run.Base.{
  ℕ, ◌*◌, Bool, true, false, not, ◌&&◌, ◌||◌, Option, none, some, List, [], ◌∷◌, ◌++◌, Text,
  text_eq, if◌then◌else◌, any, all,
}
use verify_run.Base.Int.{ℤ, pos, leb_ℤ, ◌-ℤ◌}
use verify_run.Value.{Value, str, list, dict, Items, nil, cons, Fields, get, at}
use verify_run.Value.Equal.{equal}
use verify_run.Decimal.{compare_numeric}
use verify_run.Glob.{glob}
use verify_run.Context.{
  Cause, operand_unsettled, Status, ok, Item, Declaration, Context, find_item, find_declaration,
  is_ok, ok_item, note, Resolved, not_settled, absent, value, resolve,
}
use verify_run.Expr.{
  PathNode, Operand, path, Comparison, Containment, is_in, not_in, Node, conjunction, disjunction,
  negation, membership, matches, fresh, present, Nodes,
}

-- TRUE, FALSE and UNSETTLED
pub data State : Type 0 where
  is_true is_false unsettled : State

abbrev pub of_bool : Bool → State
of_bool true = is_true
of_bool false = is_false

-- `_equal`, on operands that are settled.
unfoldable pub equal_resolved : Resolved → Resolved → Bool
equal_resolved (value v) (value w) = equal v w
equal_resolved absent absent = true
equal_resolved _ _ = false

-- `_compare_numeric`, which takes ABSENT for no number.
unfoldable pub order_of : Resolved → Resolved → Option Ordering
order_of (value v) (value w) = compare_numeric v w
order_of _ _ = none

abbrev pub ordered : Comparison → Ordering → Bool
ordered Comparison.lt Ordering.lt = true
ordered Comparison.le Ordering.gt = false
ordered Comparison.le _ = true
ordered Comparison.gt Ordering.gt = true
ordered Comparison.ge Ordering.lt = false
ordered Comparison.ge _ = true
ordered _ _ = false

abbrev pub order_state : Comparison → Option Ordering → List Cause → State × List Cause
order_state op none causes = (unsettled, note operand_unsettled causes)
order_state op (some order) causes = (of_bool (ordered op order), causes)

unfoldable pub compare_state : Comparison → Resolved → Resolved → List Cause → State × List Cause
unfolding equal_resolved order_of note
compare_state op not_settled right causes = (unsettled, causes)
compare_state op left not_settled causes = (unsettled, causes)
compare_state Comparison.eq left right causes = (of_bool (equal_resolved left right), causes)
compare_state Comparison.ne left right causes = (of_bool (not (equal_resolved left right)), causes)
compare_state op left right causes = order_state op (order_of left right) causes

-- `_evaluate_compare`
unfoldable pub evaluate_compare :
    Context → Comparison → Operand → Operand → List Cause → State × List Cause
unfolding resolve compare_state
evaluate_compare c op left right causes =
    let (l, causes) = resolve c left causes in
    let (r, causes) = resolve c right causes in compare_state op l r causes

-- `any(_equal(operand, member) for member in members)`
unfoldable pub found_in : Resolved → Items → Bool
unfolding equal_resolved
found_in operand nil = false
found_in operand (cons m members) = equal_resolved operand (value m) || found_in operand members

abbrev pub containment : Containment → Bool → Bool
containment is_in found = found
containment not_in found = not found

abbrev pub membership_state : Containment → Items → Resolved → State
membership_state op members not_settled = unsettled
membership_state op members operand = of_bool (containment op (found_in operand members))

-- `_evaluate_membership`
unfoldable pub evaluate_membership :
    Context → Containment → Operand → Items → List Cause → State × List Cause
unfolding resolve found_in
evaluate_membership c op operand members causes =
    let (o, causes) = resolve c operand causes in (membership_state op members o, causes)

abbrev pub matches_state : Text → Resolved → List Cause → State × List Cause
matches_state pattern not_settled causes = (unsettled, causes)
matches_state pattern absent causes = (is_false, causes)
matches_state pattern (value (str text)) causes = (of_bool (glob pattern text), causes)
matches_state pattern (value _) causes = (unsettled, note operand_unsettled causes)

-- `_evaluate_matches`
unfoldable pub evaluate_matches : Context → PathNode → Text → List Cause → State × List Cause
unfolding resolve note
evaluate_matches c p pattern causes =
    let (o, causes) = resolve c (path p) causes in matches_state pattern o causes

-- `_item_ok`
unfoldable pub item_ok : Context → Text → Bool
item_ok c identifier = ok_item (find_item identifier c.items)

abbrev pub bound_of : Option Declaration → Option ℕ
bound_of none = none
bound_of (some d) = d.max_age_seconds

abbrev pub within_age : ℤ → Option Item → Option ℕ → Bool
within_age frozen_at none bound = false
within_age frozen_at (some i) none = is_ok i.status
within_age frozen_at (some i) (some bound) =
    is_ok i.status && leb_ℤ (frozen_at -ℤ i.acquired_at) (pos (bound * 1000000000))

-- `_is_fresh`
unfoldable pub is_fresh : Context → Text → Bool
is_fresh c identifier =
    within_age c.frozen_at (find_item identifier c.items)
      (bound_of (find_declaration identifier c.declarations))

-- `_combine`, on the states of the operands: `and` where `all_true`, else `or`.
abbrev pub is_unsettled : State → Bool
is_unsettled unsettled = true
is_unsettled _ = false

abbrev pub is_true_state : State → Bool
is_true_state is_true = true
is_true_state _ = false

unfoldable pub combine_states : Bool → List State → State
combine_states all_true states =
    if any is_unsettled states
    then unsettled
    else if all_true
    then of_bool (all is_true_state states)
    else of_bool (any is_true_state states)

abbrev pub negate : State → State
negate unsettled = unsettled
negate is_true = is_false
negate is_false = is_true

unfoldable mutual
  -- `_evaluate_node`
  pub evaluate_node : Context → Node → List Cause → State × List Cause
  evaluate_node c (conjunction operands) causes =
      let (states, causes) = evaluate_nodes c operands causes in
      (combine_states true states, causes)
  evaluate_node c (disjunction operands) causes =
      let (states, causes) = evaluate_nodes c operands causes in
      (combine_states false states, causes)
  evaluate_node c (negation operand) causes =
      let (state, causes) = evaluate_node c operand causes in (negate state, causes)
  evaluate_node c (present identifier) causes = (of_bool (item_ok c identifier), causes)
  evaluate_node c (fresh identifier) causes = (of_bool (is_fresh c identifier), causes)
  evaluate_node c (matches p pattern) causes = evaluate_matches c p pattern causes
  evaluate_node c (membership op operand members) causes =
      evaluate_membership c op operand members causes
  evaluate_node c (Node.compare op left right) causes = evaluate_compare c op left right causes

  -- The operands of `_combine`, left to right, none left out.
  pub evaluate_nodes : Context → Nodes → List Cause → List State × List Cause
  evaluate_nodes c Nodes.nil causes = ([], causes)
  evaluate_nodes c (Nodes.cons n ns) causes =
      let (state, causes) = evaluate_node c n causes in
      let (states, causes) = evaluate_nodes c ns causes in (state ∷ states, causes)
