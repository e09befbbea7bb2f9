-- ===== src/Schema/Formats.antt =====
-- The format `date-time` of vfy/schema.py and the instants of vfy/rulebook.py.
use verify_run.Base.{
  ◌≡◌, refl, ℕ, zero, suc, Bool, true, not, ◌||◌, ◌++◌, Option, none, some, Text, codes, text_eq,
  text_eq_refl, leb, length, Option-cases, inl, inr,
}
use verify_run.Base.Attempt.{returned, returned-bind, returned-require, require_inv, require}
use verify_run.Base.Int.{ℤ, pos}
use verify_run.Instant.{DateTime, match_date_time, in_calendar, instant, instant_of}
use verify_run.Schema.{Keyword, Schemas, max_depth}
use verify_run.Schema.Validate.{validate_node, validate_own, validate_object, check_pattern}
use verify_run.Schema.Checks.{
  Place, is_date_time, calendar_day, has_type, check_enum, check_const, check_least, fail_at,
}
use verify_run.Value.{str, dict, Fields, get}

is_date_time-instant : (t : Text) → is_date_time t ≡ true → (z : ℤ) × (instant t ≡ some z)
unfolding is_date_time instant
is_date_time-instant t h = elim (Option-cases (match_date_time t)) [
  | inl e ↦ cc (rw e at h)
  | inr (d, e) ↦ (instant_of d, rw (e, calendar (match_date_time t) d e h) refl)
]
  where
    calendar :
        (o : Option DateTime) (d : DateTime)
        → o ≡ some d
        → calendar_day o ≡ true
        → in_calendar d ≡ true
    calendar o d e k = rw e at k

-- Where a node that asks for a date-time accepts a text, the text has an instant, so reading it raises
-- nothing.
pub validate_node-instant :
    (fullmatch : Text → Text → Bool) (fuel : ℕ) (registry : Schemas) (p : Place) (t : Text)
    (schema : Fields)
    → get (codes "$ref") schema ≡ none
    → get (codes "format") schema ≡ some (str (codes "date-time"))
    → validate_node fullmatch fuel registry p (str t) (dict schema) ≡ returned tt
    → (z : ℤ) × (instant t ≡ some z)
unfolding validate_node validate_own validate_object
validate_node-instant fullmatch zero registry p t schema own asks h = cc
validate_node-instant fullmatch (suc fuel) registry p t schema own asks h =
    let (shallow, h1) = returned-require (leb p.depth_ max_depth) _ _ tt h in through (rw own at h1)
  where
    asked :
        (b : Bool)
        → require
            (not (text_eq (codes "date-time") (codes "date-time")) || b)
            (fail_at Keyword.format p.instance_path (p.schema_path ++ codes ".format"))
          ≡ returned tt
        → b ≡ true
    asked b k = require_inv b _ (rw (text_eq_refl (codes "date-time")) at k)

    through :
        validate_own fullmatch (validate_node fullmatch fuel registry) p (str t) schema
          ≡ returned tt
        → (z : ℤ) × (instant t ≡ some z)
    through k =
        let (typed, k1) =
          returned-require (has_type (get (codes "type") schema) (codes "string")) _ _ tt k in
        let (u, listed, k2) =
          returned-bind (check_enum p (str t) (get (codes "enum") schema)) _ tt k1 in
        let (v, constant, k3) =
          returned-bind (check_const p (str t) (get (codes "const") schema)) _ tt k2 in
        let (w, long, k4) =
          returned-bind (check_least _ (pos (length t)) (get (codes "minLength") schema)) _ tt k3 in
        let (x, matched, k5) =
          returned-bind (check_pattern fullmatch p t (get (codes "pattern") schema)) _ tt k4 in
        is_date_time-instant t (asked (is_date_time t) (rw asks at k5))
