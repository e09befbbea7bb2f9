-- ===== src/Gate.antt =====
-- vfy/gate.py: `evaluate` whole, with the preparation that parses and checks the condition of every
-- rule. The validation against the two schemas and the text of an exception are parameters.
pub mod Document
pub mod Prepared
pub mod First
pub mod Conforming
use verify_run.Base.{
  ℕ, Bool, true, false, Option, none, some, List, [], ◌∷◌, ◌++◌, Text, codes, map,
}
use verify_run.Base.Int.{ℤ, leb_ℤ}
use verify_run.Context.{Item, Declaration, Context}
use verify_run.Value.{Fields}
use verify_run.Expr.{Node}
use verify_run.Expr.Lexer.{
  Refusal, parse_error, type_error, surrogate_not_permitted, canonical_form_invalid,
  source_too_deep, value_error, Parsed, done, refused, out_of_fuel,
}
use verify_run.Expr.Evidence.{ParsedExpression, parse_expression, first_undeclared}
use verify_run.Rulebook.{RuleSource, RulebookValue}
use verify_run.Walk.{
  Outcome, Code, Reason, Result, Rule, DefaultOutcome, walk, late_item, late_reason, not_adopted,
}

-- The ids of `{item["id"] for item in loaded_rulebook.value()["evidence"]}`.
abbrev pub declared_ids : List Declaration → List Text
declared_ids [] = []
declared_ids (d ∷ ds) = d.id ∷ declared_ids ds

-- What the preparation comes to: the rules with their trees, or the first failure. `unfinished` stands
-- for a ValueError of `int` in the parser, which is not caught here and escapes from `evaluate`; and for
-- a parser out of fuel, which does not happen.
pub data Preparation : Type 0 where
  prepared : List Rule → Preparation
  failed : Reason → Preparation
  unfinished : Preparation

-- A rule with the tree of its condition.
abbrev pub with_tree : RuleSource → Node → Rule
with_tree r tree = record {
  id = r.id;
  when = tree;
  outcome = r.outcome;
  reason = r.reason;
  requires_evidence = r.requires_evidence;
}

abbrev pub and_rule : Rule → Preparation → Preparation
and_rule rule (prepared rules) = prepared (rule ∷ rules)
and_rule rule (failed reason) = failed reason
and_rule rule unfinished = unfinished

-- `schema.validate` of the candidate and of the snapshot: the failure it raises; and `str` of an
-- exception of the parser, and of the id that is not declared.
module _ (message : Refusal → Text) (undeclared_message : Text → Text) where
  abbrev pub rule_failure : RuleSource → Code → Text → Preparation
  rule_failure r code text =
      failed (record { code = code; message = text; rule_id = some r.id; evidence_id = none })

  abbrev pub checked_rule : RuleSource → ParsedExpression → Option Text → Preparation → Preparation
  checked_rule r parsed (some id) rest =
      rule_failure r Code.undeclared_evidence_id (undeclared_message id)
  checked_rule r parsed none rest = and_rule (with_tree r parsed.tree) rest

  abbrev pub refused_rule : RuleSource → Refusal → Preparation
  refused_rule r (parse_error fault at token) =
      rule_failure r Code.expression_parse_error (message (parse_error fault at token))
  refused_rule r (type_error fault at token) =
      rule_failure r Code.expression_type_error (message (type_error fault at token))
  refused_rule r surrogate_not_permitted =
      rule_failure r Code.surrogate_not_permitted (message surrogate_not_permitted)
  refused_rule r canonical_form_invalid =
      rule_failure r Code.canonical_form_invalid (message canonical_form_invalid)
  refused_rule r source_too_deep = rule_failure r Code.source_too_deep (message source_too_deep)
  refused_rule r value_error = unfinished

  abbrev pub parsed_rule :
      List Text → RuleSource → Parsed ParsedExpression → Preparation → Preparation
  parsed_rule known r (refused e) rest = refused_rule r e
  parsed_rule known r out_of_fuel rest = unfinished
  parsed_rule known r (done parsed s) rest =
      checked_rule r parsed (first_undeclared known parsed.referenced) rest

  -- The last loop of `_prepare`.
  unfoldable pub prepare_rules : List Text → List RuleSource → Preparation
  unfolding parse_expression first_undeclared
  prepare_rules known [] = prepared []
  prepare_rules known (r ∷ rs) =
      parsed_rule known r (parse_expression r.when) (prepare_rules known rs)

  abbrev pub refuse : Reason → Option Result
  refuse reason =
      some (record {
        outcome = Outcome.error;
        reasons = reason ∷ [];
        matched_rule = none;
        trace = none;
      })

  abbrev pub walk_prepared : Context → DefaultOutcome → Preparation → Option Result
  walk_prepared c d (prepared rules) = some (walk c d rules)
  walk_prepared c d (failed reason) = refuse reason
  walk_prepared c d unfinished = none

  abbrev pub after_adoption : Bool → Context → RulebookValue → Option Result
  after_adoption false c value = refuse not_adopted
  after_adoption true c value =
      walk_prepared c value.default_outcome
        (prepare_rules (declared_ids value.evidence) value.rules)

  abbrev pub after_order : Option Item → ℤ → Context → RulebookValue → Option Result
  after_order (some i) adopted_at c value = refuse (late_reason i)
  after_order none adopted_at c value = after_adoption (leb_ℤ adopted_at c.frozen_at) c value

  abbrev pub context_of : RulebookValue → Fields → List Item → ℤ → Context
  context_of value candidate items frozen_at = record {
    candidate = candidate;
    declarations = value.evidence;
    items = items;
    frozen_at = frozen_at;
  }

  -- `evaluate`, from the failures of the two schemas on; `none` is the ValueError that escapes.
  unfoldable pub evaluate :
      Option Text → Option Text → RulebookValue → ℤ → Fields → List Item → ℤ → Option Result
  unfolding late_item
  evaluate (some text) snapshot_failure value adopted_at candidate items frozen_at =
      refuse (record {
        code = Code.candidate_schema_invalid;
        message = text;
        rule_id = none;
        evidence_id = none;
      })
  evaluate none (some text) value adopted_at candidate items frozen_at = refuse (record {
    code = Code.snapshot_schema_invalid;
    message = text;
    rule_id = none;
    evidence_id = none;
  })
  evaluate none none value adopted_at candidate items frozen_at =
      after_order (late_item frozen_at items) adopted_at
        (context_of value candidate items frozen_at) value
