-- ===== src/Schema/Returned.antt =====
-- The checks of vfy/schema.py on one value return where what they ask for holds.
use verify_run.Base.{
  ◌≡◌, refl, not, text_eq_iff, Bool-cases, Bool, true, Option, none, some, List, [], ◌∷◌, Text,
  codes, text_eq, arith, inl, inr,
}
use verify_run.Base.Attempt.{returned}
use verify_run.Base.Int.{ℤ, ◌≤ℤ◌, ltb_ℤ}
use verify_run.Schema.{Schemas, Stop}
use verify_run.Schema.Validate.{check_pattern}
use verify_run.Schema.Checks.{
  Place, iterated, bool_bound, check_options, check_required, check_enum, check_const, check_least,
  check_format,
}
use verify_run.Value.{Value, null, bool, int, str, list, dict, Fields, Items}
use verify_run.Schema.Conforms.{
  Complete, Offered, Enumerated, Constant, AtLeast, Matched, Formatted,
}

pub check_required-returned :
    (p : Place) (value : Fields) (names : List Text)
    → Complete value names
    → check_required p value names ≡ returned tt
unfolding check_required
check_required-returned p value [] h = refl
check_required-returned p value (name ∷ names) (there, h) =
    rw (there) (check_required-returned p value names h)

check_options-returned :
    (p : Place) (v : Value) (o : Option Items) → Offered v o → check_options p v o ≡ returned tt
check_options-returned p v none h = absurd h
check_options-returned p v (some options) h = rw h refl

pub check_enum-returned :
    (p : Place) (v : Value) (o : Option Value) → Enumerated v o → check_enum p v o ≡ returned tt
check_enum-returned p v none h = refl
check_enum-returned p v (some w) h = check_options-returned p v (iterated w) h

pub check_const-returned :
    (p : Place) (v : Value) (o : Option Value) → Constant v o → check_const p v o ≡ returned tt
check_const-returned p v none h = refl
check_const-returned p v (some w) h = rw (h) refl

less : (a b : ℤ) → b ≤ℤ a → not (ltb_ℤ a b) ≡ true
less a b k = ground arith

pub check_least-returned :
    (stop : Stop) (n : ℤ) (o : Option Value) → AtLeast n o → check_least stop n o ≡ returned tt
check_least-returned stop n none h = refl
check_least-returned stop n (some (int least)) h = rw (less n least h) refl
check_least-returned stop n (some null) h = absurd h
check_least-returned stop n (some (bool b)) h = rw (less n (bool_bound b) h) refl
check_least-returned stop n (some (list xs)) h = absurd h
check_least-returned stop n (some (str s)) h = absurd h
check_least-returned stop n (some (dict f)) h = absurd h

module _ (fullmatch : Text → Text → Bool) (registry : Schemas) where
  pub check_pattern-returned :
      (p : Place) (s : Text) (o : Option Value)
      → Matched fullmatch registry s o
      → check_pattern fullmatch p s o ≡ returned tt
  check_pattern-returned p s none h = refl
  check_pattern-returned p s (some (str pattern)) h = rw (h) refl
  check_pattern-returned p s (some null) h = absurd h
  check_pattern-returned p s (some (bool b)) h = absurd h
  check_pattern-returned p s (some (int z)) h = absurd h
  check_pattern-returned p s (some (list xs)) h = absurd h
  check_pattern-returned p s (some (dict f)) h = absurd h

  pub check_format-returned :
      (p : Place) (s : Text) (o : Option Value)
      → Formatted fullmatch registry s o
      → check_format p s o ≡ returned tt
  check_format-returned p s none h = refl
  check_format-returned p s (some (str f)) h = elim (Bool-cases (text_eq f (codes "date-time"))) [
    | inl e ↦ rw (e, h ((text_eq_iff f (codes "date-time")).0 e)) refl
    | inr e ↦ rw (e) refl
  ]
  check_format-returned p s (some null) h = refl
  check_format-returned p s (some (bool b)) h = refl
  check_format-returned p s (some (int z)) h = refl
  check_format-returned p s (some (list xs)) h = refl
  check_format-returned p s (some (dict f)) h = refl
