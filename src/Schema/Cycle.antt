-- ===== src/Schema/Cycle.antt =====
-- A document of vfy/schema.py that refers to itself.
use verify_run.Base.{
  ◌≡◌, refl, ℕ, zero, suc, Bool, true, [], ◌∷◌, Text, codes, text_eq, text_eq_refl, text_mem,
}
use verify_run.Base.Attempt.{raised, returned}
use verify_run.Schema.{unfinished, Schemas, find_schema}
use verify_run.Schema.Reference.{resolve, partition}
use verify_run.Schema.Registry.{
  build_registry, check_documents, check_schema_node, collect_documents,
}
use verify_run.Schema.Validate.{validate_node, validate, root}
use verify_run.Schema.Checks.{Place, code_by_id}
use verify_run.Value.{Value, str, dict, Fields, field, end, get}

-- `{"$id": id, "$ref": "#"}`
abbrev pub looping : Text → Fields
looping id = field (codes "$id") (str id) (field (codes "$ref") (str (codes "#")) end)

abbrev pub alone : Text → Schemas
alone id = (id, looping id) ∷ []

resolve-looping :
    (id : Text) → resolve (str (codes "#")) id (alone id) ≡ returned (dict (looping id), id)
unfolding resolve partition find_schema
resolve-looping id = rw (text_eq_refl id) refl

validate_node-looping :
    (fullmatch : Text → Text → Bool) (fuel : ℕ) (id : Text) (p : Place) (v : Value)
    → p.identifier ≡ id
    → p.depth_ ≡ 0
    → validate_node fullmatch fuel (alone id) p v (dict (looping id)) ≡ raised unfinished
unfolding validate_node get text_eq
validate_node-looping fullmatch zero id p v e d = refl
validate_node-looping fullmatch (suc fuel) id p v e d =
    rw (d, e, resolve-looping id) (validate_node-looping fullmatch fuel id _ v refl refl)

-- A document that refers to itself is admitted by the registry; and whatever bound is put on the
-- nesting of the calls, validating any value against it reaches that bound: it neither accepts the value nor
-- refuses it, and the limit on depth is never what stops it.
pub looping-unfinished :
    (compiles : Text → Bool) (fullmatch : Text → Text → Bool) (c : ℕ) (s : Text) (fuel : ℕ)
    (v : Value)
    → text_mem (c ∷ s) code_by_id ≡ true
    → (build_registry compiles (dict (looping (c ∷ s)) ∷ []) ≡ returned (alone (c ∷ s)))
      × (validate fullmatch fuel v (c ∷ s) (alone (c ∷ s)) ≡ raised unfinished)
unfolding build_registry collect_documents check_documents check_schema_node find_schema validate
    get text_eq
looping-unfinished compiles fullmatch c s fuel v known = (
  rw (resolve-looping (c ∷ s)) refl,
  rw (text_eq_refl (c ∷ s), known)
      (validate_node-looping fullmatch fuel (c ∷ s) (root (c ∷ s)) v refl refl),
)
