-- ===== src/Schema/Checks.antt =====
-- The checks of `_validate_node` in vfy/schema.py that visit no other node, and `_is_date_time`.
use verify_run.Base.{
  ℕ, suc, Bool, true, false, not, ◌||◌, Option, none, some, List, [], ◌∷◌, ◌++◌, Text, codes,
  text_eq, ◌==◌, if◌then◌else◌,
}
use verify_run.Base.Attempt.{Attempt, raised, returned, require, ◌>>=◌}
use verify_run.Base.Int.{ℤ, pos, ltb_ℤ}
use verify_run.Instant.{DateTime, match_date_time, in_calendar}
use verify_run.Schema.{Keyword, Stop, failed, malformed, as_fields, member}
use verify_run.Schema.Equal.{exact}
use verify_run.Schema.Reference.{partition}
use verify_run.Value.{
  Value, null, bool, int, str, list, dict, Fields, field, Items, nil, cons, end, get,
}

abbrev pub calendar_day : Option DateTime → Bool
calendar_day none = false
calendar_day (some t) = in_calendar t

-- `_is_date_time`
unfoldable pub is_date_time : Text → Bool
is_date_time s = calendar_day (match_date_time s)

-- CODE_BY_ID
abbrev pub code_by_id : List Text
code_by_id =
    codes "https://verifyrun.com/spec/v1/candidate.schema.json"
    ∷ codes "https://verifyrun.com/spec/v1/rulebook.schema.json"
    ∷ codes "https://verifyrun.com/spec/v1/evidence.schema.json"
    ∷ codes "https://verifyrun.com/spec/v1/outcome.schema.json"
    ∷ codes "https://verifyrun.com/spec/v1/authorization.schema.json"
    ∷ codes "https://verifyrun.com/spec/v1/receipt.schema.json"
    ∷ []

-- Where a node is visited.
pub record Place : Type 0 where
  pub instance_path : Text
  pub schema_path : Text
  pub identifier : Text
  pub depth_ : ℕ

-- `_fail`
abbrev pub fail_at : Keyword → Text → Text → Stop
fail_at keyword instance_path schema_path =
    failed (record { instance_path = instance_path; schema_path = schema_path; keyword = keyword })

abbrev pub below : Place → Text → Text → Place
below p instance_path schema_path = record {
  instance_path = instance_path;
  schema_path = schema_path;
  identifier = p.identifier;
  depth_ = suc p.depth_;
}

-- `"$" if "#" not in schema["$ref"] else ...`; a text without `#` has an empty fragment.
abbrev pub dotted : Text → Text
dotted [] = []
dotted (c ∷ s) = (if c == b'/' then b'.' else c) ∷ dotted s

abbrev pub target_path : Value → Text
target_path (str r) = b'$' ∷ dotted (partition b'#' r).1
target_path _ = codes "$"

abbrev pub has_type : Option Value → Text → Bool
has_type none actual = true
has_type (some null) actual = true
has_type (some (str declared)) actual = text_eq declared actual
has_type (some _) actual = false

-- What iterating over a value gives: the members of a list, the characters of a string, the keys of a
-- mapping.
abbrev characters : Text → Items
characters [] = nil
characters (c ∷ s) = cons (str (c ∷ [])) (characters s)

abbrev key_items : Fields → Items
key_items end = nil
key_items (field k v rest) = cons (str k) (key_items rest)

abbrev pub iterated : Value → Option Items
iterated (list xs) = some xs
iterated (str s) = some (characters s)
iterated (dict f) = some (key_items f)
iterated _ = none

abbrev item_texts : Items → Attempt Stop (List Text)
item_texts nil = returned []
item_texts (cons (str t) xs) = item_texts xs >>= λ ts. returned (t ∷ ts)
item_texts _ = raised malformed

abbrev iterated_texts : Option Items → Attempt Stop (List Text)
iterated_texts none = raised malformed
iterated_texts (some xs) = item_texts xs

abbrev pub texts_of : Option Value → Attempt Stop (List Text)
texts_of none = returned []
texts_of (some v) = iterated_texts (iterated v)

abbrev pub fields_or_none : Option Value → Attempt Stop Fields
fields_or_none none = returned end
fields_or_none (some v) = as_fields v

abbrev pub is_there : Option Value → Bool
is_there (some v) = true
is_there none = false

unfoldable pub check_required : Place → Fields → List Text → Attempt Stop (Unit {0})
unfolding member
check_required p value [] = returned tt
check_required p value (name ∷ names) =
    require (is_there (get name value))
      (fail_at Keyword.required (member p.instance_path name) (p.schema_path ++ codes ".required"))
    >>= λ _. check_required p value names

abbrev pub any_exact : Value → Items → Bool
any_exact v nil = false
any_exact v (cons x xs) = exact v x || any_exact v xs

abbrev pub check_options : Place → Value → Option Items → Attempt Stop (Unit {0})
check_options p v none = raised malformed
check_options p v (some options) =
    require (any_exact v options)
      (fail_at Keyword.enum p.instance_path (p.schema_path ++ codes ".enum"))

abbrev pub check_enum : Place → Value → Option Value → Attempt Stop (Unit {0})
check_enum p v none = returned tt
check_enum p v (some w) = check_options p v (iterated w)

abbrev pub check_const : Place → Value → Option Value → Attempt Stop (Unit {0})
check_const p v none = returned tt
check_const p v (some w) =
    require (exact v w) (fail_at Keyword.const p.instance_path (p.schema_path ++ codes ".const"))

-- A boolean counts as a number here.
abbrev pub bool_bound : Bool → ℤ
bool_bound true = pos 1
bool_bound false = pos 0

-- `"minItems" in schema and len(value) < schema["minItems"]`, and the other two bounds.
abbrev pub check_least : Stop → ℤ → Option Value → Attempt Stop (Unit {0})
check_least stop n none = returned tt
check_least stop n (some (int least)) = require (not (ltb_ℤ n least)) stop
check_least stop n (some (bool b)) = require (not (ltb_ℤ n (bool_bound b))) stop
check_least stop n (some _) = raised malformed

abbrev pub count : Items → ℕ
count nil = 0
count (cons x xs) = suc (count xs)

abbrev pub check_format : Place → Text → Option Value → Attempt Stop (Unit {0})
check_format p s (some (str f)) =
    require (not (text_eq f (codes "date-time")) || is_date_time s)
      (fail_at Keyword.format p.instance_path (p.schema_path ++ codes ".format"))
check_format p s _ = returned tt
