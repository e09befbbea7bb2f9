-- ===== src/Schema.antt =====
-- vfy/schema.py: the parts that checking a registry and validating a value share. A schema is a value as
-- the loader hands it over. Where a keyword's value is not of a kind that the code goes through,
-- counts or compares, the model stops with `malformed`, also where the code has first other members to look
-- at; regular expressions are a parameter.
pub mod Equal
pub mod Reference
pub mod Registry
pub mod Checks
pub mod Validate
pub mod Formats
pub mod Cycle
pub mod Conforms
pub mod Accepted
pub mod Returned
pub mod Steps
pub mod Enough
use verify_run.Base.{
  ℕ, zero, suc, Bool, true, false, ◌&&◌, ◌||◌, Option, none, some, List, [], ◌∷◌, ◌++◌, Text, codes,
  text_eq, text_mem, ◌==◌, ltb, if◌then◌else◌,
}
use verify_run.Base.Attempt.{Attempt, raised, returned}
use verify_run.Canon.{control_escape}
use verify_run.Expr.Lexer.{word_at}
use verify_run.Value.{Value, null, bool, int, str, list, dict, Fields, get}

-- The keywords that a failure names.
pub data Keyword : Type 0 where
  depth type_ required additional_properties enum const min_items min_length pattern format
        minimum :
      Keyword

-- The typed failure of a schema, without its message.
pub record Violation : Type 0 where
  pub instance_path : Text
  pub schema_path : Text
  pub keyword : Keyword

-- The typed failure of a value; that of the registry; a keyword that is not of the kind that its check
-- reads; and, for `unfinished`, the bound on the nesting of the calls, which in CPython is that of the
-- interpreter, with a RecursionError that nothing here catches.
pub data Stop : Type 0 where
  failed : Violation → Stop
  schema_registry_invalid malformed unfinished : Stop

-- MAX_DEPTH
abbrev pub max_depth : ℕ
max_depth = 64

-- The dict `registry`: the documents by their `$id`.
abbrev pub Schemas : Type 0
Schemas = List (Text × Fields)

unfoldable pub find_schema : Text → Schemas → Option Fields
find_schema id [] = none
find_schema id (d ∷ ds) = if text_eq d.0 id then some d.1 else find_schema id ds

abbrev pub as_fields : Value → Attempt Stop Fields
as_fields (dict f) = returned f
as_fields _ = raised malformed

-- `_type_of`
abbrev pub type_of : Value → Text
type_of null = codes "null"
type_of (bool b) = codes "boolean"
type_of (int z) = codes "integer"
type_of (str s) = codes "string"
type_of (list xs) = codes "array"
type_of (dict f) = codes "object"

abbrev json_character : ℕ → Text
json_character c =
    if (c == b'"') || (c == b'\\')
    then b'\\' ∷ c ∷ []
    else if ltb c 32
    then control_escape c
    else c ∷ []

abbrev json_pieces : Text → Text
json_pieces [] = []
json_pieces (c ∷ s) = json_character c ++ json_pieces s

-- `_json_string`
abbrev pub json_string : Text → Text
json_string s = b'"' ∷ (json_pieces s ++ b'"' ∷ [])

-- `_PLAIN_MEMBER.match`
abbrev pub plain_member : Option (Text × Text) → Bool
plain_member (some (w, [])) = true
plain_member _ = false

-- `_member`
unfoldable pub member : Text → Text → Text
unfolding word_at
member path name =
    if plain_member (word_at name)
    then path ++ (b'.' ∷ name)
    else path ++ (b'[' ∷ (json_string name ++ b']' ∷ []))
