-- ===== src/Schema/Registry.antt =====
-- `build_registry` of vfy/schema.py, with `_check_schema_node` and `_check_pattern`. The nodes of a
-- document are checked on fuel, its weight; whether a pattern compiles is a parameter.
use verify_run.Base.{
  ℕ, zero, suc, Bool, true, false, not, ◌&&◌, ◌||◌, Option, none, some, List, [], ◌∷◌, ◌++◌, Text,
  codes, text_eq, text_mem, leb, ◌==◌, any,
}
use verify_run.Base.Attempt.{Attempt, raised, returned, require, ◌>>=◌}
use verify_run.Canon.{weight}
use verify_run.Schema.{Schemas, Stop, schema_registry_invalid, malformed, unfinished, find_schema}
use verify_run.Schema.Reference.{resolve}
use verify_run.Value.{Value, null, str, dict, Fields, end, field, get}

-- SUPPORTED
abbrev pub supported : List Text
supported =
    codes "type"
    ∷ codes "required"
    ∷ codes "properties"
    ∷ codes "additionalProperties"
    ∷ codes "items"
    ∷ codes "enum"
    ∷ codes "const"
    ∷ codes "pattern"
    ∷ codes "format"
    ∷ codes "minItems"
    ∷ codes "minLength"
    ∷ codes "minimum"
    ∷ codes "$schema"
    ∷ codes "$id"
    ∷ codes "title"
    ∷ codes "description"
    ∷ codes "default"
    ∷ codes "$defs"
    ∷ codes "$ref"
    ∷ []

-- SUPPORTED_TYPES
abbrev pub supported_types : List Text
supported_types =
    codes "object" ∷ codes "array" ∷ codes "string" ∷ codes "integer" ∷ codes "boolean" ∷ []

-- _FORBIDDEN_REGEX
abbrev pub forbidden_regex : List Text
forbidden_regex =
    codes "(?="
    ∷ codes "(?!"
    ∷ codes "(?<"
    ∷ codes "(?P"
    ∷ codes "(?i"
    ∷ codes "(?m"
    ∷ codes "(?s"
    ∷ codes "(?x"
    ∷ codes "\\d"
    ∷ codes "\\w"
    ∷ codes "\\s"
    ∷ codes "\\b"
    ∷ codes "\\B"
    ∷ codes "\\A"
    ∷ codes "\\Z"
    ∷ codes "\\z"
    ∷ codes "\\G"
    ∷ []

unfoldable pub starts_with : Text → Text → Bool
starts_with [] s = true
starts_with (c ∷ p) [] = false
starts_with (c ∷ p) (d ∷ s) = (c == d) && starts_with p s

abbrev pub ends_in : ℕ → Text → Bool
ends_in c [] = false
ends_in c (d ∷ []) = d == c
ends_in c (d ∷ e ∷ s) = ends_in c (e ∷ s)

-- `part in text`
unfoldable pub within : Text → Text → Bool
unfolding starts_with
within part [] = starts_with part []
within part (c ∷ s) = starts_with part (c ∷ s) || within part s

-- `_BACKREFERENCE.search`
unfoldable pub has_backreference : Text → Bool
has_backreference [] = false
has_backreference (c ∷ []) = false
has_backreference (c ∷ d ∷ s) =
    ((c == b'\\') && (leb b'1' d && leb d b'9')) || has_backreference (d ∷ s)

-- The keys of a node, `sorted(node)` up to its order.
abbrev pub all_keys : (Text → Bool) → Fields → Bool
all_keys test end = true
all_keys test (field k v rest) = test k && all_keys test rest

abbrev type_ok : Option Value → Bool
type_ok none = true
type_ok (some null) = true
type_ok (some (str t)) = text_mem t supported_types
type_ok (some _) = false

abbrev format_ok : Option Value → Bool
format_ok none = true
format_ok (some (str t)) = text_eq t (codes "date-time")
format_ok (some _) = false

abbrev id_of : Option Value → Attempt Stop Text
id_of (some (str (c ∷ s))) = returned (c ∷ s)
id_of _ = raised schema_registry_invalid

abbrev absent : Option Fields → Bool
absent none = true
absent (some f) = false

-- The first loop of `build_registry`.
unfoldable pub collect_documents : Schemas → List Value → Attempt Stop Schemas
unfolding find_schema
collect_documents registry [] = returned registry
collect_documents registry (dict document ∷ rest) =
    id_of (get (codes "$id") document) >>= λ identifier.
    require (absent (find_schema identifier registry)) schema_registry_invalid >>= λ _.
    collect_documents (registry ++ (identifier, document) ∷ []) rest
collect_documents registry (v ∷ rest) = raised schema_registry_invalid

module _ (compiles : Text → Bool) where
  -- `_check_pattern`
  abbrev pub check_pattern : Option Value → Attempt Stop (Unit {0})
  check_pattern none = returned tt
  check_pattern (some (str p)) =
      require (starts_with (codes "^") p && ends_in b'$' p) schema_registry_invalid >>= λ _.
      require (not (any (λ construct. within construct p) forbidden_regex)) schema_registry_invalid
      >>= λ _. require (not (has_backreference p)) schema_registry_invalid >>= λ _.
          require (compiles p) schema_registry_invalid
  check_pattern (some _) = raised schema_registry_invalid

  abbrev check_reference : Option Value → Text → Schemas → Attempt Stop (Unit {0})
  check_reference none identifier registry = returned tt
  check_reference (some r) identifier registry = resolve r identifier registry >>= λ _. returned tt

  -- The children under a keyword: those of a mapping, or the one node that is a mapping.
  abbrev each_child : (Value → Attempt Stop (Unit {0})) → Fields → Attempt Stop (Unit {0})
  each_child check end = returned tt
  each_child check (field k v rest) = check v >>= λ _. each_child check rest

  abbrev children : (Value → Attempt Stop (Unit {0})) → Option Value → Attempt Stop (Unit {0})
  children check none = returned tt
  children check (some (dict f)) = each_child check f
  children check (some _) = raised malformed

  abbrev one_child : (Value → Attempt Stop (Unit {0})) → Option Value → Attempt Stop (Unit {0})
  one_child check (some (dict f)) = check (dict f)
  one_child check _ = returned tt

  abbrev check_keywords :
      (Value → Attempt Stop (Unit {0})) → Fields → Text → Schemas → Attempt Stop (Unit {0})
  check_keywords check node identifier registry =
      require (all_keys (λ k. text_mem k supported) node) schema_registry_invalid >>= λ _.
      require (type_ok (get (codes "type") node)) schema_registry_invalid >>= λ _.
      require (format_ok (get (codes "format") node)) schema_registry_invalid >>= λ _.
      check_pattern (get (codes "pattern") node) >>= λ _.
      check_reference (get (codes "$ref") node) identifier registry >>= λ _.
      children check (get (codes "properties") node) >>= λ _.
      children check (get (codes "$defs") node) >>= λ _.
      one_child check (get (codes "items") node) >>= λ _.
      one_child check (get (codes "additionalProperties") node)

  -- `_check_schema_node`
  unfoldable pub check_schema_node : ℕ → Text → Schemas → Value → Attempt Stop (Unit {0})
  unfolding resolve within has_backreference
  check_schema_node zero identifier registry node = raised unfinished
  check_schema_node (suc fuel) identifier registry (dict node) =
      check_keywords (check_schema_node fuel identifier registry) node identifier registry
  check_schema_node (suc fuel) identifier registry _ = raised schema_registry_invalid

  unfoldable pub check_documents : Schemas → Schemas → Attempt Stop (Unit {0})
  unfolding check_schema_node
  check_documents registry [] = returned tt
  check_documents registry (d ∷ ds) =
      check_schema_node (weight (dict d.1)) d.0 registry (dict d.1) >>= λ _.
      check_documents registry ds

  -- `build_registry`
  unfoldable pub build_registry : List Value → Attempt Stop Schemas
  unfolding collect_documents check_documents
  build_registry documents = collect_documents [] documents >>= λ registry.
      check_documents registry registry >>= λ _. returned registry
