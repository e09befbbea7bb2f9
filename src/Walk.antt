-- ===== src/Walk.antt =====
-- vfy/gate.py: the walk over the rules of a rulebook (`_walk`, `_rule_state`) and the part of
-- `_prepare` that reads instants. A rule's `when` is the tree that the parser made of it.
pub mod Decision
pub mod Reasons
use verify_run.Base.{
  ℕ, suc, Bool, true, false, not, Option, none, some, List, [], ◌∷◌, ◌++◌, Text, codes,
  if◌then◌else◌, map,
}
use verify_run.Base.Digits.{to_digits}
use verify_run.Base.Int.{ℤ, ltb_ℤ, leb_ℤ}
use verify_run.Context.{Cause, Item, Context, ok_item, find_item, note}
use verify_run.Expr.{Node}
use verify_run.Evaluate.{State, is_true, is_false, unsettled, evaluate_node}

pub data Outcome : Type 0 where
  allow block hold error : Outcome

-- A rule's outcome is one of the three keys of `_RULE_CODES`, a default's one of `_DEFAULT_CODES`.
pub data RuleOutcome : Type 0 where
  allow block hold : RuleOutcome

pub data DefaultOutcome : Type 0 where
  block hold : DefaultOutcome

pub record Rule : Type 0 where
  pub id : Text
  pub when : Node
  pub outcome : RuleOutcome
  pub reason : Text
  pub requires_evidence : List Text

pub data Code : Type 0 where
  rule_allow rule_block rule_hold default_outcome_block default_outcome_hold : Code
  evidence_unsettled operand_unsettled evidence_order_invalid rulebook_not_adopted : Code
  candidate_schema_invalid snapshot_schema_invalid undeclared_evidence_id : Code
  expression_parse_error expression_type_error surrogate_not_permitted : Code
  canonical_form_invalid source_too_deep : Code

pub record Reason : Type 0 where
  pub code : Code
  pub message : Text
  pub rule_id : Option Text
  pub evidence_id : Option Text

-- The document of `_result`.
pub record Result : Type 0 where
  pub outcome : Outcome
  pub reasons : List Reason
  pub matched_rule : Option Text
  pub trace : Option (List Text)

abbrev pub outcome_of_rule : RuleOutcome → Outcome
outcome_of_rule allow = Outcome.allow
outcome_of_rule block = Outcome.block
outcome_of_rule hold = Outcome.hold

-- `_RULE_CODES`
abbrev rule_code : RuleOutcome → Code
rule_code allow = rule_allow
rule_code block = rule_block
rule_code hold = rule_hold

-- `_DEFAULT_CODES`
abbrev default_code : DefaultOutcome → Code
default_code block = default_outcome_block
default_code hold = default_outcome_hold

abbrev pub outcome_of_default : DefaultOutcome → Outcome
outcome_of_default block = Outcome.block
outcome_of_default hold = Outcome.hold

-- The first loop of `_rule_state`: the first required id whose item is not there with status ok.
unfoldable pub first_unmet : Context → List Text → Option Text
first_unmet c [] = none
first_unmet c (identifier ∷ ids) =
    if ok_item (find_item identifier c.items) then first_unmet c ids else some identifier

abbrev pub gated : Context → Node → Option Text → State × List Cause
gated c n (some identifier) = (unsettled, note (Cause.evidence_unsettled identifier) [])
gated c n none = evaluate_node c n []

-- `_rule_state`, from no causes.
unfoldable pub rule_state : Context → Rule → State × List Cause
unfolding first_unmet
rule_state c rule = gated c rule.when (first_unmet c rule.requires_evidence)

-- "%d:%s:%s" % (ordinal, rule["id"], state)
unfoldable pub state_text : State → Text
state_text is_true = codes "true"
state_text is_false = codes "false"
state_text unsettled = codes "unsettled"

unfoldable pub trace_entry : ℕ → Text → State → Text
unfolding state_text
trace_entry ordinal id state = to_digits ordinal ++ (b':' ∷ (id ++ (b':' ∷ state_text state)))

-- A cause as a reason, with the message of `_FIXED_MESSAGES`.
unfoldable pub reason_of : Text → Cause → Reason
reason_of rule_id (Cause.evidence_unsettled identifier) = record {
  code = Code.evidence_unsettled;
  message = codes "Evidence could not settle this rule.";
  rule_id = some rule_id;
  evidence_id = some identifier;
}
reason_of rule_id Cause.operand_unsettled = record {
  code = Code.operand_unsettled;
  message = codes "An operand could not settle this rule.";
  rule_id = some rule_id;
  evidence_id = none;
}

unfoldable pub matched : Rule → List Text → Result
matched rule trace = record {
  outcome = outcome_of_rule rule.outcome;
  reasons =
      record {
        code = rule_code rule.outcome;
        message = rule.reason;
        rule_id = some rule.id;
        evidence_id = none;
      }
      ∷ [];
  matched_rule = some rule.id;
  trace = some trace;
}

unfoldable pub held : Rule → List Cause → List Text → Result
unfolding reason_of
held rule causes trace = record {
  outcome = Outcome.hold;
  reasons = map (reason_of rule.id) causes;
  matched_rule = none;
  trace = some trace;
}

unfoldable pub defaulted : DefaultOutcome → List Text → Result
defaulted default_outcome trace = record {
  outcome = outcome_of_default default_outcome;
  reasons =
      record {
        code = default_code default_outcome;
        message = codes "No rule matched.";
        rule_id = none;
        evidence_id = none;
      }
      ∷ [];
  matched_rule = none;
  trace = some trace;
}

-- The loop of `_walk`, from rule number `ordinal` on, with the trace so far.
unfoldable pub walk_from : Context → DefaultOutcome → ℕ → List Rule → List Text → Result
walk_from c default_outcome ordinal [] trace = defaulted default_outcome trace
walk_from c default_outcome ordinal (rule ∷ rules) trace =
    let s : State × List Cause = rule_state c rule in
    let extended : List Text = trace ++ trace_entry ordinal rule.id s.0 ∷ [] in
    elim s.0 [
      | is_true ↦ matched rule extended
      | unsettled ↦ held rule s.1 extended
      | is_false ↦ walk_from c default_outcome (suc ordinal) rules extended
    ]

-- `_walk`
unfoldable pub walk : Context → DefaultOutcome → List Rule → Result
walk c default_outcome rules = walk_from c default_outcome 0 rules []

-- The second loop of `_prepare`: an item acquired after the freeze.
unfoldable pub late_item : ℤ → List Item → Option Item
late_item frozen_at [] = none
late_item frozen_at (i ∷ items) =
    if ltb_ℤ frozen_at i.acquired_at then some i else late_item frozen_at items

-- The result for a failure reason: `_result(registry, "ERROR", [failure], None, None)`.
abbrev pub refused : Reason → Result
refused failure = record {
  outcome = Outcome.error;
  reasons = failure ∷ [];
  matched_rule = none;
  trace = none;
}

abbrev pub late_reason : Item → Reason
late_reason i = record {
  code = evidence_order_invalid;
  message = codes "Evidence was acquired after the freeze.";
  rule_id = none;
  evidence_id = some i.id;
}

abbrev pub not_adopted : Reason
not_adopted = record {
  code = rulebook_not_adopted;
  message = codes "The rulebook was not adopted when this run started.";
  rule_id = none;
  evidence_id = none;
}

abbrev pub adopted_walk : Bool → Context → DefaultOutcome → List Rule → Result
adopted_walk false c default_outcome rules = refused not_adopted
adopted_walk true c default_outcome rules = walk c default_outcome rules

abbrev pub prepared_walk : Option Item → ℤ → Context → DefaultOutcome → List Rule → Result
prepared_walk (some i) adopted_at c default_outcome rules = refused (late_reason i)
prepared_walk none adopted_at c default_outcome rules =
    adopted_walk (leb_ℤ adopted_at c.frozen_at) c default_outcome rules

-- `evaluate`, for documents that their schemas admit and rules that parse: the checks of `_prepare`
-- on the instants, and then the walk.
unfoldable pub evaluate : Context → ℤ → DefaultOutcome → List Rule → Result
unfolding late_item
evaluate c adopted_at default_outcome rules =
    prepared_walk (late_item c.frozen_at c.items) adopted_at c default_outcome rules
