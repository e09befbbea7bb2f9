-- ===== src/Samples/Inputs.antt =====
-- Recorded inputs of one evaluation, as vfy/gate.py reads them.
use verify_run.Base.{none, some, true, [], ◌∷◌, codes}
use verify_run.Base.Int.{pos}
use verify_run.Value.{Value, dict, field, end}
use verify_run.Context.{Context, Item, Status}
use verify_run.Expr.{Node, Nodes, Root, conjunction, present, literal, path, member, Comparison}
use verify_run.Walk.{Rule, RuleOutcome}

abbrev pub build : Item
build = record {
  id = codes "build";
  status = Status.ok;
  acquired_at = pos 4000000000;
  value = some (dict (field (codes "passed") (Value.bool true) end));
}

abbrev pub review : Item
review = record {
  id = codes "review";
  status = Status.missing;
  acquired_at = pos 9000000000;
  value = none;
}

abbrev pub inputs : Context
inputs = record {
  candidate = field (codes "amount") (Value.str (codes "12.50")) end;
  declarations =
      record { id = codes "build"; max_age_seconds = some 5; required = true }
      ∷ record { id = codes "review"; max_age_seconds = none; required = true }
      ∷ [];
  items = build ∷ review ∷ [];
  frozen_at = pos 9000000000;
}

-- candidate.amount <= "20"
abbrev pub small_amount : Node
small_amount =
    Node.compare Comparison.le
      (path (record { root = Root.candidate; first = codes "amount"; segments = [] }))
      (literal (Value.str (codes "20")))

-- evidence.review.passed == true
abbrev pub reviewed : Node
reviewed =
    Node.compare Comparison.eq
      (path (record {
        root = Root.evidence;
        first = codes "review";
        segments = member (codes "passed") ∷ [];
      }))
      (literal (Value.bool true))

-- present(review) and evidence.review.passed == true
abbrev pub open_review : Node
open_review = conjunction (Nodes.cons (present (codes "review")) (Nodes.cons reviewed Nodes.nil))

abbrev pub allow_small : Rule
allow_small = record {
  id = codes "small";
  when = small_amount;
  outcome = RuleOutcome.allow;
  reason = codes "Small amounts pass.";
  requires_evidence = codes "build" ∷ [];
}

abbrev pub block_unreviewed : Rule
block_unreviewed = record {
  id = codes "unreviewed";
  when = open_review;
  outcome = RuleOutcome.block;
  reason = codes "The review is open.";
  requires_evidence = [];
}

abbrev pub block_absent : Rule
block_absent = record {
  id = codes "absent";
  when = present (codes "review");
  outcome = RuleOutcome.block;
  reason = codes "A review stands against it.";
  requires_evidence = [];
}
