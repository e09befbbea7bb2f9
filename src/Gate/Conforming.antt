-- ===== src/Gate/Conforming.antt =====
-- `evaluate` of vfy/gate.py with the validator of vfy/schema.py in it.
use verify_run.Base.{◌≡◌, refl, ℕ, Bool, Option, none, some, Text, List, codes}
use verify_run.Base.Attempt.{Attempt, raised, returned}
use verify_run.Base.Int.{ℤ}
use verify_run.Context.{Item}
use verify_run.Expr.Lexer.{Refusal}
use verify_run.Gate
use verify_run.Gate.Prepared.{evaluate-Permits}
use verify_run.Rulebook.{RulebookValue}
use verify_run.Schema.{Stop, Schemas, find_schema}
use verify_run.Schema.Validate.{validate}
use verify_run.Schema.Conforms.{Conforms}
use verify_run.Schema.Accepted.{validate-Conforms}
use verify_run.Value.{Fields, dict}
use verify_run.Walk.{Outcome, Result}

-- CANDIDATE_SCHEMA_ID
abbrev pub candidate_schema_id : Text
candidate_schema_id = codes "https://verifyrun.com/spec/v1/candidate.schema.json"

-- `str(invalid)` of what the validator raises. An exception that `_prepare` does not catch counts as a
-- failure too: it yields no ALLOW either.
abbrev pub failure_of : (Stop → Text) → Attempt Stop (Unit {0}) → Option Text
failure_of show (returned t) = none
failure_of show (raised stop) = some (show stop)

failure_of-none :
    (show : Stop → Text) (a : Attempt Stop (Unit {0})) → failure_of show a ≡ none → a ≡ returned tt
failure_of-none show (returned t) h = refl
failure_of-none show (raised stop) h = cc

-- Where the gate validates the candidate against a registry and comes to ALLOW, the registry has the
-- candidate's schema and the candidate conforms to it.
pub evaluate-Conforms :
    (message : Refusal → Text) (undeclared_message : Text → Text) (show : Stop → Text)
    (fullmatch : Text → Text → Bool) (fuel : ℕ) (registry : Schemas)
    (snapshot_failure : Option Text) (value : RulebookValue) (adopted_at : ℤ) (candidate : Fields)
    (items : List Item) (frozen_at : ℤ) (r : Result)
    → Gate.evaluate message undeclared_message
        (failure_of show (validate fullmatch fuel (dict candidate) candidate_schema_id registry))
        snapshot_failure
        value
        adopted_at
        candidate
        items
        frozen_at
      ≡ some r
    → r.outcome ≡ Outcome.allow
    → (document : Fields) × (find_schema candidate_schema_id registry ≡ some document)
      × Conforms fullmatch registry 0 candidate_schema_id (dict candidate) (dict document)
evaluate-Conforms message undeclared_message show fullmatch fuel registry snapshot_failure value
      adopted_at candidate items frozen_at r h allowed =
    let checked : Attempt Stop (Unit {0}) =
      validate fullmatch fuel (dict candidate) candidate_schema_id registry in
    let permits =
      evaluate-Permits message undeclared_message (failure_of show checked) snapshot_failure value
        adopted_at candidate items frozen_at r h allowed in
    let (document, found, listed, conforms) =
      validate-Conforms fullmatch registry fuel (dict candidate) candidate_schema_id
        (failure_of-none show checked permits.0) in
    (document, found, conforms)
