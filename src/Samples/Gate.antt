-- ===== src/Samples/Gate.antt =====
-- vfy/gate.py: one rulebook, from the texts of its conditions to a result.
use verify_run.Base.{◌≡◌, refl, Bool, false, none, some, List, [], ◌∷◌, Text, codes}
use verify_run.Base.Int.{pos}
use verify_run.Expr.Lexer.{Refusal, refused}
use verify_run.Gate.{failed, prepare_rules, evaluate}
use verify_run.Gate.First.{Prepares, prepare_rules-Prepares}
use verify_run.Expr.Evidence.{parse_expression}
use verify_run.Rulebook.{RuleSource}
use verify_run.Gate.Prepared.{evaluate-Permits, Permits}
use verify_run.Gate.Conforming.{candidate_schema_id, failure_of, evaluate-Conforms}
use verify_run.Base.Attempt.{returned}
use verify_run.Schema.{Schemas, find_schema}
use verify_run.Schema.Validate.{validate}
use verify_run.Schema.Conforms.{Conforms}
use verify_run.Value.{dict, str, Fields, field, end}
use verify_run.Walk.{Code, Outcome, RuleOutcome, Result}
use verify_run.Samples.Rulebook.{value, allow_small}

abbrev pub no_message : Refusal → Text
no_message _ = []

abbrev pub candidate : Fields
candidate = field (codes "amount") (str (codes "12.50")) end

abbrev pub allowed : Result
allowed = record {
  outcome = Outcome.allow;
  reasons =
      record {
        code = verify_run.Walk.Code.rule_allow;
        message = codes "Small amounts pass.";
        rule_id = some (codes "small");
        evidence_id = none;
      }
      ∷ [];
  matched_rule = some (codes "small");
  trace = some (codes "0:small:true" ∷ []);
}

allows : evaluate no_message (λ t. t) none none value (pos 0) candidate [] (pos 0) ≡ some allowed
unfolding evaluate verify_run.Gate.prepare_rules verify_run.Base.text_eq verify_run.Walk.walk
    verify_run.Walk.walk_from verify_run.Walk.rule_state verify_run.Evaluate.evaluate_node
    verify_run.Evaluate.evaluate_compare verify_run.Decimal.compare_numeric
    verify_run.Decimal.numeric_parts verify_run.Decimal.compare_parts verify_run.Walk.matched
    verify_run.Walk.trace_entry verify_run.Base.Digits.to_digits
allows = refl

evaluate-Permits_example : Permits no_message (λ t. t) none none value (pos 0) candidate [] (pos 0)
evaluate-Permits_example =
    evaluate-Permits no_message (λ t. t) none none value (pos 0) candidate [] (pos 0) allowed allows
      refl

abbrev unknown : RuleSource
unknown = record {
  id = codes "unknown";
  when = codes "fresh(test)";
  outcome = RuleOutcome.allow;
  reason = [];
  requires_evidence = [];
}

abbrev beyond : RuleSource
beyond = record {
  id = codes "beyond";
  when = codes "candidate.list[9007199254740992] == 1";
  outcome = RuleOutcome.allow;
  reason = [];
  requires_evidence = [];
}

-- The second rule names evidence that is not declared.
prepare_rules-Prepares_example :
    Prepares no_message
      (λ t. t)
      (codes "build" ∷ [])
      (allow_small ∷ unknown ∷ beyond ∷ [])
      (prepare_rules no_message (λ t. t) (codes "build" ∷ []) (allow_small ∷ unknown ∷ beyond ∷ []))
prepare_rules-Prepares_example =
    prepare_rules-Prepares no_message (λ t. t) (codes "build" ∷ [])
      (allow_small ∷ unknown ∷ beyond ∷ [])

names_the_second :
    prepare_rules no_message (λ t. t) (codes "build" ∷ []) (allow_small ∷ unknown ∷ beyond ∷ [])
    ≡ failed (record {
      code = Code.undeclared_evidence_id;
      message = codes "test";
      rule_id = some (codes "unknown");
      evidence_id = none;
    })
unfolding prepare_rules verify_run.Base.text_eq verify_run.Base.Digits.to_digits
    verify_run.Base.text_lt
names_the_second = refl

-- An index that no canonical document holds.
index_beyond : parse_expression beyond.when ≡ refused Refusal.canonical_form_invalid
unfolding parse_expression verify_run.Base.text_eq verify_run.Base.text_lt
    verify_run.Base.Digits.to_digits verify_run.Base.Digits.value_from
index_beyond = refl

abbrev object_document : Fields
object_document =
    field (codes "$id") (str candidate_schema_id) (field (codes "type") (str (codes "object")) end)

abbrev schemas : Schemas
schemas = (candidate_schema_id, object_document) ∷ []

-- No pattern occurs in it.
abbrev unmatched : Text → Text → Bool
unmatched pattern s = false

admits_it : validate unmatched 1 (dict candidate) candidate_schema_id schemas ≡ returned tt
unfolding validate verify_run.Base.text_eq verify_run.Value.get
admits_it = refl

allows_checked :
    evaluate no_message
      (λ t. t)
      (failure_of (λ stop. []) (validate unmatched 1 (dict candidate) candidate_schema_id schemas))
      none
      value
      (pos 0)
      candidate
      []
      (pos 0)
    ≡ some allowed
allows_checked = rw (admits_it) allows

evaluate-Conforms_example :
    (document : Fields) × (find_schema candidate_schema_id schemas ≡ some document)
    × Conforms unmatched schemas 0 candidate_schema_id (dict candidate) (dict document)
evaluate-Conforms_example =
    evaluate-Conforms no_message (λ t. t) (λ stop. []) unmatched 1 schemas none value (pos 0)
      candidate [] (pos 0) allowed allows_checked refl
