-- ===== src/Schema/Validate.antt =====
-- `validate` of vfy/schema.py, with `_validate_node` and `_validate_object`. A `$ref` may lead anywhere,
-- so the nodes are visited on fuel; the matching of regular expressions is a parameter.
use verify_run.Base.{
  ℕ, zero, suc, Bool, false, Option, none, some, List, [], ◌∷◌, ◌++◌, Text, codes, text_mem, leb,
  length,
}
use verify_run.Base.Attempt.{Attempt, raised, returned, require, or_raise, ◌>>=◌}
use verify_run.Base.Digits.{to_digits}
use verify_run.Base.Int.{pos}
use verify_run.Canon.{sort, members}
use verify_run.Schema.{
  Keyword, Stop, schema_registry_invalid, malformed, unfinished, max_depth, Schemas, find_schema,
  as_fields, type_of, member,
}
use verify_run.Schema.Reference.{resolve}
use verify_run.Value.{Value, bool, int, str, list, dict, Fields, Items, nil, cons, get}
use verify_run.Schema.Checks.{
  is_date_time, code_by_id, Place, fail_at, below, target_path, has_type, texts_of, fields_or_none,
  check_required, check_enum, check_const, check_least, count, check_format,
}

-- A visit of a node: `_validate_node`, one level down.
abbrev pub Visit : Type 0
Visit = Place → Value → Value → Attempt Stop (Unit {0})

abbrev pub visit_declared : Visit → Place → Text → Value → Option Value → Attempt Stop (Unit {0})
visit_declared visit p name v none = returned tt
visit_declared visit p name v (some s) =
    visit
      (below p (member p.instance_path name) (member (p.schema_path ++ codes ".properties") name)) v
      s

-- The loop over the declared members.
unfoldable pub visit_members :
    Visit → Place → Fields → List (Text × Value) → Attempt Stop (Unit {0})
visit_members visit p properties [] = returned tt
visit_members visit p properties (m ∷ ms) =
    visit_declared visit p m.0 m.1 (get m.0 properties) >>= λ _. visit_members visit p properties ms

abbrev pub visit_additional :
    Visit → Place → Text → Value → Option Value → Value → Attempt Stop (Unit {0})
visit_additional visit p name v (some s) additional = returned tt
visit_additional visit p name v none (bool false) = raised (
    fail_at Keyword.additional_properties (member p.instance_path name)
      (p.schema_path ++ codes ".additionalProperties"))
visit_additional visit p name v none (dict s) =
    visit (below p (member p.instance_path name) (p.schema_path ++ codes ".additionalProperties")) v
      (dict s)
visit_additional visit p name v none _ = returned tt

-- The loop over the other members.
unfoldable pub visit_others :
    Visit → Place → Fields → Value → List (Text × Value) → Attempt Stop (Unit {0})
visit_others visit p properties additional [] = returned tt
visit_others visit p properties additional (m ∷ ms) =
    visit_additional visit p m.0 m.1 (get m.0 properties) additional >>= λ _.
    visit_others visit p properties additional ms

abbrev pub if_additional : Visit → Place → Fields → Fields → Option Value → Attempt Stop (Unit {0})
if_additional visit p value properties none = returned tt
if_additional visit p value properties (some additional) =
    visit_others visit p properties additional (sort (members value))

-- `_validate_object`
unfoldable pub validate_object : Visit → Place → Value → Fields → Attempt Stop (Unit {0})
unfolding check_required visit_members visit_others sort
validate_object visit p (dict value) schema =
    fields_or_none (get (codes "properties") schema) >>= λ properties.
    texts_of (get (codes "required") schema) >>= λ needed. check_required p value needed >>= λ _.
    visit_members visit p properties (sort (members value)) >>= λ _.
    if_additional visit p value properties (get (codes "additionalProperties") schema)
validate_object visit p _ schema = returned tt

unfoldable pub visit_items : Visit → Place → ℕ → Value → Items → Attempt Stop (Unit {0})
visit_items visit p index s nil = returned tt
visit_items visit p index s (cons x xs) =
    visit
      (below p (p.instance_path ++ (b'[' ∷ (to_digits index ++ b']' ∷ [])))
        (p.schema_path ++ codes ".items"))
      x s
    >>= λ _. visit_items visit p (suc index) s xs

abbrev pub if_items : Visit → Place → Items → Option Value → Attempt Stop (Unit {0})
if_items visit p xs (some (dict s)) = visit_items visit p 0 (dict s) xs
if_items visit p xs _ = returned tt

abbrev pub root : Text → Place
root id = record { instance_path = codes "$"; schema_path = codes "$"; identifier = id; depth_ = 0 }

module _ (fullmatch : Text → Text → Bool) where
  abbrev pub check_pattern : Place → Text → Option Value → Attempt Stop (Unit {0})
  check_pattern p s none = returned tt
  check_pattern p s (some (str pattern)) =
      require (fullmatch pattern s)
        (fail_at Keyword.pattern p.instance_path (p.schema_path ++ codes ".pattern"))
  check_pattern p s (some _) = raised malformed

  -- The checks on the kinds of values, from the arrays on.
  abbrev pub check_kind : Visit → Place → Value → Fields → Attempt Stop (Unit {0})
  check_kind visit p (list xs) schema =
      check_least (fail_at Keyword.min_items p.instance_path (p.schema_path ++ codes ".minItems"))
        (pos (count xs)) (get (codes "minItems") schema)
      >>= λ _. if_items visit p xs (get (codes "items") schema)
  check_kind visit p (str s) schema =
      check_least (fail_at Keyword.min_length p.instance_path (p.schema_path ++ codes ".minLength"))
        (pos (length s)) (get (codes "minLength") schema)
      >>= λ _. check_pattern p s (get (codes "pattern") schema) >>= λ _.
          check_format p s (get (codes "format") schema)
  check_kind visit p (int z) schema =
      check_least (fail_at Keyword.minimum p.instance_path (p.schema_path ++ codes ".minimum")) z
        (get (codes "minimum") schema)
  check_kind visit p _ schema = returned tt

  -- A node without a `$ref`.
  unfoldable pub validate_own : Visit → Place → Value → Fields → Attempt Stop (Unit {0})
  unfolding validate_object visit_items is_date_time
  validate_own visit p v schema =
      require (has_type (get (codes "type") schema) (type_of v))
        (fail_at Keyword.type_ p.instance_path (p.schema_path ++ codes ".type"))
      >>= λ _. validate_object visit p v schema >>= λ _.
          check_enum p v (get (codes "enum") schema) >>= λ _.
          check_const p v (get (codes "const") schema) >>= λ _. check_kind visit p v schema

  abbrev pub follow_reference :
      (Place → Value → Value → Attempt Stop (Unit {0}))
      → Place
      → Value
      → Value
      → Value × Text
      → Attempt Stop (Unit {0})
  follow_reference again p v reference target =
      again
        (record {
          instance_path = p.instance_path;
          schema_path = target_path reference;
          identifier = target.1;
          depth_ = p.depth_;
        })
        v target.0

  abbrev pub by_reference :
      Visit → Schemas → Place → Value → Fields → Option Value → Attempt Stop (Unit {0})
  by_reference visit registry p v schema (some reference) =
      resolve reference p.identifier registry >>= follow_reference visit p v reference
  by_reference visit registry p v schema none = validate_own visit p v schema

  -- `_validate_node`
  unfoldable pub validate_node : ℕ → Schemas → Visit
  unfolding resolve validate_own
  validate_node zero registry p v schema = raised unfinished
  validate_node (suc fuel) registry p v schema =
      require (leb p.depth_ max_depth) (fail_at Keyword.depth p.instance_path p.schema_path)
      >>= λ _. as_fields schema >>= λ fields.
          by_reference (validate_node fuel registry) registry p v fields (get (codes "$ref") fields)

  -- `validate`
  unfoldable pub validate : ℕ → Value → Text → Schemas → Attempt Stop (Unit {0})
  unfolding validate_node find_schema
  validate fuel value schema_id registry =
      or_raise schema_registry_invalid (find_schema schema_id registry) >>= λ document.
      require (text_mem schema_id code_by_id) schema_registry_invalid >>= λ _.
      validate_node fuel registry (root schema_id) value (dict document)
