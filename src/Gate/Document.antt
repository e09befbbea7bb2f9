-- ===== src/Gate/Document.antt =====
-- The document that `_result` of vfy/gate.py makes of a result, before it is written as canonical text.
use verify_run.Base.{Option, none, some, List, [], ◌∷◌, Text, codes, map}
use verify_run.Value.{Value, str, list, dict, Items, cons, nil, Fields, end, field}
use verify_run.Walk.{Outcome, Code, Reason, Result}

abbrev pub outcome_text : Outcome → Text
outcome_text Outcome.allow = codes "ALLOW"
outcome_text Outcome.block = codes "BLOCK"
outcome_text Outcome.hold = codes "HOLD"
outcome_text Outcome.error = codes "ERROR"

abbrev code_text : Code → Text
code_text Code.rule_allow = codes "rule_allow"
code_text Code.rule_block = codes "rule_block"
code_text Code.rule_hold = codes "rule_hold"
code_text Code.default_outcome_block = codes "default_outcome_block"
code_text Code.default_outcome_hold = codes "default_outcome_hold"
code_text Code.evidence_unsettled = codes "evidence_unsettled"
code_text Code.operand_unsettled = codes "operand_unsettled"
code_text Code.evidence_order_invalid = codes "evidence_order_invalid"
code_text Code.rulebook_not_adopted = codes "rulebook_not_adopted"
code_text Code.candidate_schema_invalid = codes "candidate_schema_invalid"
code_text Code.snapshot_schema_invalid = codes "snapshot_schema_invalid"
code_text Code.undeclared_evidence_id = codes "undeclared_evidence_id"
code_text Code.expression_parse_error = codes "expression_parse_error"
code_text Code.expression_type_error = codes "expression_type_error"
code_text Code.surrogate_not_permitted = codes "surrogate_not_permitted"
code_text Code.canonical_form_invalid = codes "canonical_form_invalid"
code_text Code.source_too_deep = codes "source_too_deep"

abbrev pub optional_field : Text → Option Text → Fields → Fields
optional_field name none rest = rest
optional_field name (some t) rest = field name (str t) rest

abbrev reason_value : Reason → Value
reason_value r = dict (
    field (codes "code") (str (code_text r.code)) (
      field (codes "message") (str r.message) (
        optional_field (codes "rule_id") r.rule_id
          (optional_field (codes "evidence_id") r.evidence_id end))))

abbrev items_from : List Value → Items
items_from [] = nil
items_from (v ∷ vs) = cons v (items_from vs)

abbrev trace_field : Option (List Text) → Fields
trace_field none = end
trace_field (some trace) = field (codes "trace") (list (items_from (map str trace))) end

-- The document of `_result` in vfy/gate.py.
abbrev pub result_document : Result → Value
result_document r = dict (
    field (codes "outcome") (str (outcome_text r.outcome)) (
      field (codes "reasons") (list (items_from (map reason_value r.reasons)))
        (optional_field (codes "matched_rule") r.matched_rule (trace_field r.trace))))
