-- ===== src/Samples/Schema.antt =====
-- vfy/schema.py: one registry, and values against it.
use verify_run.Base.{
  ◌≡◌, refl, ℕ, ◌≤◌, arith, true, false, Bool, Option, none, some, List, [], ◌∷◌, Text, codes,
  text_mem, text_eq,
}
use verify_run.Base.Attempt.{returned, raised}
use verify_run.Base.Int.{ℤ, pos}
use verify_run.Instant.{instant}
use verify_run.Schema.{Schemas, find_schema, failed, Keyword, unfinished}
use verify_run.Schema.Registry.{build_registry}
use verify_run.Schema.Validate.{validate, validate_node, root}
use verify_run.Schema.Checks.{code_by_id}
use verify_run.Schema.Cycle.{looping, alone, looping-unfinished}
use verify_run.Schema.Formats.{validate_node-instant}
use verify_run.Schema.Conforms.{Conforms, own, leaf}
use verify_run.Schema.Accepted.{validate-Conforms}
use verify_run.Schema.Enough.{Conforms-validate}
use verify_run.Value.{Value, str, list, dict, Fields, field, end, cons, nil, get}

abbrev id : Text
id = codes "https://verifyrun.com/spec/v1/candidate.schema.json"

abbrev dated : Fields
dated =
    field (codes "type") (str (codes "string"))
      (field (codes "format") (str (codes "date-time")) end)

-- An object with a required instant, by reference, and a list of integers from 1 on.
abbrev document : Fields
document = field (codes "$id") (str id) (
    field (codes "type") (str (codes "object")) (
      field (codes "required") (list (cons (str (codes "at")) nil)) (
        field (codes "additionalProperties") (Value.bool false) (
          field (codes "properties")
            (dict (
              field (codes "at") (dict (field (codes "$ref") (str (codes "#/$defs/instant")) end)) (
                field (codes "n")
                  (dict (
                    field (codes "type") (str (codes "array")) (
                      field (codes "items") (dict (field (codes "minimum") (Value.int (pos 1)) end))
                        end)))
                  end)))
            (field (codes "$defs") (dict (field (codes "instant") (dict dated) end)) end)))))

abbrev registry : Schemas
registry = (id, document) ∷ []

abbrev value : Value
value = dict (
    field (codes "n") (list (cons (Value.int (pos 1)) nil))
      (field (codes "at") (str (codes "2024-01-01T00:00:00Z")) end))

abbrev never : Text → Text → Bool
never pattern s = true

builds_it : build_registry (λ p. true) (dict document ∷ []) ≡ returned registry
unfolding build_registry get text_eq
builds_it = refl

accepts : validate never 8 value id registry ≡ returned tt
unfolding validate text_eq get verify_run.Base.text_lt verify_run.Instant.match_date_time
    verify_run.Instant.in_calendar verify_run.Instant.month_days
accepts = refl

refuses_zero :
    validate never 8
      (dict (
        field
          (codes "at")
          (str (codes "2024-01-01T00:00:00Z"))
          (field (codes "n") (list (cons (Value.int (pos 0)) nil)) end)))
      id
      registry
    ≡ raised (
        failed (record {
          instance_path = codes "$.n[0]";
          schema_path = codes "$.properties.n.items.minimum";
          keyword = Keyword.minimum;
        }))
unfolding validate text_eq get verify_run.Base.text_lt verify_run.Instant.match_date_time
    verify_run.Instant.in_calendar verify_run.Instant.month_days verify_run.Base.Digits.to_digits
refuses_zero = refl

validate-Conforms_example :
    (found : Fields) × (find_schema id registry ≡ some found)
    × (text_mem id code_by_id ≡ true)
    × Conforms never registry 0 id value (dict found)
validate-Conforms_example = validate-Conforms never registry 8 value id accepts

known_id : text_mem id code_by_id ≡ true
unfolding text_eq
known_id = refl

looping-unfinished_example :
    (build_registry (λ p. true) (dict (looping id) ∷ []) ≡ returned (alone id))
    × (validate never 1000 value id (alone id) ≡ raised unfinished)
looping-unfinished_example =
    looping-unfinished (λ p. true) never b'h'
      (codes "ttps://verifyrun.com/spec/v1/candidate.schema.json") 1000 value known_id

dates :
    validate_node never 1 registry (root id) (str (codes "2024-01-01T00:00:00Z")) (dict dated)
    ≡ returned tt
unfolding validate_node get text_eq verify_run.Instant.match_date_time
    verify_run.Instant.in_calendar verify_run.Instant.month_days
dates = refl

no_reference : get (codes "$ref") dated ≡ none
unfolding get text_eq
no_reference = refl

asks : get (codes "format") dated ≡ some (str (codes "date-time"))
unfolding get text_eq
asks = refl

validate_node-instant_example : (z : ℤ) × (instant (codes "2024-01-01T00:00:00Z") ≡ some z)
validate_node-instant_example =
    validate_node-instant never 1 registry (root id) (codes "2024-01-01T00:00:00Z") dated
      no_reference asks dates

-- A document for the integers from 1 on.
abbrev from_one : Fields
from_one = field (codes "$id") (str id) (field (codes "minimum") (Value.int (pos 1)) end)

no_reference_there : get (codes "$ref") from_one ≡ none
unfolding get text_eq
no_reference_there = refl

found_it : find_schema id ((id, from_one) ∷ []) ≡ some from_one
unfolding find_schema text_eq
found_it = refl

conforming : Conforms never ((id, from_one) ∷ []) 0 id (Value.int (pos 2)) (dict from_one)
unfolding get text_eq
conforming =
    own 0 id (Value.int (pos 2)) from_one refl no_reference_there refl
      (leaf 0 id (Value.int (pos 2)) from_one refl) tt tt (omega arith)

Conforms-validate_example :
    (k : ℕ) × ((n : ℕ)
      → k ≤ n
      → validate never n (Value.int (pos 2)) id ((id, from_one) ∷ []) ≡ returned tt)
Conforms-validate_example =
    Conforms-validate never ((id, from_one) ∷ []) (Value.int (pos 2)) id from_one found_it known_id
      conforming
