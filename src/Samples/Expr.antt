-- ===== src/Samples/Expr.antt =====
-- vfy/expr.py: one source, parsed, and the evidence that it reads.
use verify_run.Base.{◌≡◌, refl, true, false, List, [], ◌∷◌, Text, codes, text_mem}
use verify_run.Context.{Context}
use verify_run.Expr.Lexer.{Refusal, done, refused}
use verify_run.Expr.Parser.{parse}
use verify_run.Expr.Evidence.{evidence_ids}
use verify_run.Expr.Reach.{Agree, evaluate_node-evidence_ids}
use verify_run.Evaluate.{evaluate_node}
use verify_run.Samples.Inputs.{inputs, small_amount}

-- candidate.amount <= "20"
abbrev source : Text
source = codes "candidate.amount <= \"20\""

parses : parse source ≡ done small_amount []
unfolding parse verify_run.Base.text_eq
parses = refl

unclosed : (e : Refusal) × (parse (codes "not (present(build)") ≡ refused e)
unfolding parse verify_run.Base.text_eq
unclosed = (_, refl)

-- The inputs without the evidence, which the source does not read.
abbrev other : Context
other = record {
  candidate = inputs.candidate;
  declarations = [];
  items = [];
  frozen_at = inputs.frozen_at;
}

no_ids : (id : Text) → text_mem id (evidence_ids small_amount []) ≡ true → ⊥
unfolding evidence_ids verify_run.Expr.Evidence.path_ids
no_ids id m = cc

agree : Agree (evidence_ids small_amount []) inputs other
agree = record {
  same_candidate = refl;
  same_freeze = refl;
  same_item = λ id m. absurd (no_ids id m);
  same_declaration = λ id m. absurd (no_ids id m);
}

evaluate_node-evidence_ids_example :
    evaluate_node inputs small_amount [] ≡ evaluate_node other small_amount []
evaluate_node-evidence_ids_example = evaluate_node-evidence_ids inputs other small_amount [] agree
