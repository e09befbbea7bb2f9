-- ===== src/Schema/Accepted.antt =====
-- `validate` of vfy/schema.py, from what it accepts to derivations.
use verify_run.Base.{
  ◌≡◌, refl, sym, subst, ap, not, ◌||◌, text_eq_refl, ℕ, zero, suc, Bool, true, false, Option, none,
  some, List, [], ◌∷◌, Text, codes, text_eq, text_mem, leb, length, arith, Option-cases, inl, inr,
}
use verify_run.Base.Attempt.{
  returned, returned-bind, returned-require, returned-or_raise, require_inv, returned-injective,
}
use verify_run.Base.Int.{ℤ, pos, ◌≤ℤ◌, ltb_ℤ}
use verify_run.Canon.{sort, members}
use verify_run.Schema.{Schemas, Stop, find_schema, max_depth, type_of, as_fields}
use verify_run.Schema.Reference.{resolve}
use verify_run.Schema.Validate.{
  Visit, check_kind, check_pattern, visit_declared, visit_members, visit_additional, visit_others,
  if_additional, validate_object, visit_items, if_items, validate_own, validate_node, validate,
  root,
}
use verify_run.Schema.Checks.{
  Place, below, has_type, texts_of, fields_or_none, check_required, iterated, bool_bound,
  check_options, check_enum, check_const, any_exact, check_least, count, check_format, is_date_time,
  is_there, code_by_id,
}
use verify_run.Schema.Equal.{exact}
use verify_run.Value.{Value, null, bool, int, str, list, dict, Items, nil, cons, Fields, get}
use verify_run.Schema.Conforms.{
  Complete, Offered, Enumerated, Constant, AtLeast, Matched, Formatted, Bounded, Conforms, referred,
  own, Inside, object, array, leaf, Members, no_members, known, unknown, Others, unrestricted,
  no_others, declared, additional, open_to, Elements, no_schema, other_schema, closed_schema,
  no_elements, element,
}

check_required-Complete :
    (p : Place) (value : Fields) (names : List Text)
    → check_required p value names ≡ returned tt
    → Complete value names
unfolding check_required
check_required-Complete p value [] h = tt
check_required-Complete p value (name ∷ names) h =
    let (there, h1) = returned-require (is_there (get name value)) _ _ tt h in
    (there, check_required-Complete p value names h1)

check_options-Offered :
    (p : Place) (v : Value) (o : Option Items) → check_options p v o ≡ returned tt → Offered v o
check_options-Offered p v none h = cc
check_options-Offered p v (some options) h = require_inv (any_exact v options) _ h

check_enum-Enumerated :
    (p : Place) (v : Value) (o : Option Value) → check_enum p v o ≡ returned tt → Enumerated v o
check_enum-Enumerated p v none h = tt
check_enum-Enumerated p v (some w) h = check_options-Offered p v (iterated w) h

check_const-Constant :
    (p : Place) (v : Value) (o : Option Value) → check_const p v o ≡ returned tt → Constant v o
check_const-Constant p v none h = tt
check_const-Constant p v (some w) h = require_inv (exact v w) _ h

not_less : (a b : ℤ) → not (ltb_ℤ a b) ≡ true → b ≤ℤ a
not_less a b k = ground arith

check_least-AtLeast :
    (stop : Stop) (n : ℤ) (o : Option Value) → check_least stop n o ≡ returned tt → AtLeast n o
check_least-AtLeast stop n none h = tt
check_least-AtLeast stop n (some (int least)) h =
    not_less n least (require_inv (not (ltb_ℤ n least)) _ h)
check_least-AtLeast stop n (some null) h = cc
check_least-AtLeast stop n (some (bool b)) h =
    not_less n (bool_bound b) (require_inv (not (ltb_ℤ n (bool_bound b))) _ h)
check_least-AtLeast stop n (some (list xs)) h = cc
check_least-AtLeast stop n (some (str s)) h = cc
check_least-AtLeast stop n (some (dict f)) h = cc

module _ (fullmatch : Text → Text → Bool) (registry : Schemas) where
  check_pattern-Matched :
      (p : Place) (s : Text) (o : Option Value)
      → check_pattern fullmatch p s o ≡ returned tt
      → Matched fullmatch registry s o
  check_pattern-Matched p s none h = tt
  check_pattern-Matched p s (some (str pattern)) h = require_inv (fullmatch pattern s) _ h
  check_pattern-Matched p s (some null) h = cc
  check_pattern-Matched p s (some (bool b)) h = cc
  check_pattern-Matched p s (some (int z)) h = cc
  check_pattern-Matched p s (some (list xs)) h = cc
  check_pattern-Matched p s (some (dict f)) h = cc

  check_format-Formatted :
      (p : Place) (s : Text) (o : Option Value)
      → check_format p s o ≡ returned tt
      → Formatted fullmatch registry s o
  check_format-Formatted p s none h = tt
  check_format-Formatted p s (some (str f)) h = λ e. met (is_date_time s) (
      subst (λ g. not (text_eq g (codes "date-time")) || is_date_time s ≡ true) e
        (require_inv (not (text_eq f (codes "date-time")) || is_date_time s) _ h))
    where
      met :
          (b : Bool)
          → (not (text_eq (codes "date-time") (codes "date-time")) || b) ≡ true
          → b ≡ true
      met b k = rw (text_eq_refl (codes "date-time")) at k
  check_format-Formatted p s (some null) h = tt
  check_format-Formatted p s (some (bool b)) h = tt
  check_format-Formatted p s (some (int z)) h = tt
  check_format-Formatted p s (some (list xs)) h = tt
  check_format-Formatted p s (some (dict f)) h = tt

  module _ (visit : Visit)
      (sound : (p : Place) (v s : Value)
        → visit p v s ≡ returned tt
        → Conforms fullmatch registry p.depth_ p.identifier v s) where
    visit_members-Members :
        (p : Place) (properties : Fields) (ms : List (Text × Value))
        → visit_members visit p properties ms ≡ returned tt
        → Members fullmatch registry p.depth_ p.identifier properties ms
    unfolding visit_members
    visit_members-Members p properties [] h = no_members _ _ _
    visit_members-Members p properties (m ∷ ms) h =
        let (t, here, h1) =
          returned-bind (visit_declared visit p m.0 m.1 (get m.0 properties)) _ tt h in
        elim (Option-cases (get m.0 properties)) [
          | inl e ↦ unknown _ _ _ m ms e (visit_members-Members p properties ms h1)
          | inr (s, e) ↦
              known _ _ _ m s ms e (sound (below p _ _) m.1 s (rw e at here))
                (visit_members-Members p properties ms h1)
        ]

    others_step :
        (p : Place) (properties : Fields) (a : Value) (m : Text × Value) (ms : List (Text × Value))
        → get m.0 properties ≡ none
        → visit_additional visit p m.0 m.1 none a ≡ returned tt
        → Others fullmatch registry p.depth_ p.identifier properties (some a) ms
        → Others fullmatch registry p.depth_ p.identifier properties (some a) (m ∷ ms)
    others_step p properties (bool false) m ms e h rest = cc
    others_step p properties (bool true) m ms e h rest = open_to _ _ _ _ m ms e refl rest
    others_step p properties (dict s) m ms e h rest =
        additional _ _ _ s m ms e (sound (below p _ _) m.1 (dict s) h) rest
    others_step p properties null m ms e h rest = open_to _ _ _ _ m ms e refl rest
    others_step p properties (int z) m ms e h rest = open_to _ _ _ _ m ms e refl rest
    others_step p properties (str t) m ms e h rest = open_to _ _ _ _ m ms e refl rest
    others_step p properties (list xs) m ms e h rest = open_to _ _ _ _ m ms e refl rest

    visit_others-Others :
        (p : Place) (properties : Fields) (a : Value) (ms : List (Text × Value))
        → visit_others visit p properties a ms ≡ returned tt
        → Others fullmatch registry p.depth_ p.identifier properties (some a) ms
    unfolding visit_others
    visit_others-Others p properties a [] h = no_others _ _ _ _
    visit_others-Others p properties a (m ∷ ms) h =
        let (t, here, h1) =
          returned-bind (visit_additional visit p m.0 m.1 (get m.0 properties) a) _ tt h in
        elim (Option-cases (get m.0 properties)) [
          | inl e ↦
              others_step p properties a m ms e (rw e at here)
                (visit_others-Others p properties a ms h1)
          | inr (s, e) ↦ declared _ _ _ _ m s ms e (visit_others-Others p properties a ms h1)
        ]

    if_additional-Others :
        (p : Place) (value properties : Fields) (o : Option Value)
        → if_additional visit p value properties o ≡ returned tt
        → Others fullmatch registry p.depth_ p.identifier properties o (sort (members value))
    if_additional-Others p value properties none h = unrestricted _ _ _ _
    if_additional-Others p value properties (some a) h =
        visit_others-Others p properties a (sort (members value)) h

    visit_items-Elements :
        (p : Place) (index : ℕ) (s : Fields) (xs : Items)
        → visit_items visit p index (dict s) xs ≡ returned tt
        → Elements fullmatch registry p.depth_ p.identifier (some (dict s)) xs
    unfolding visit_items
    visit_items-Elements p index s nil h = no_elements _ _ _
    visit_items-Elements p index s (cons x xs) h =
        let (t, here, h1) = returned-bind (visit (below p _ _) x (dict s)) _ tt h in
        element _ _ _ x xs (sound (below p _ _) x (dict s) here)
          (visit_items-Elements p (suc index) s xs h1)

    if_items-Elements :
        (p : Place) (xs : Items) (o : Option Value)
        → if_items visit p xs o ≡ returned tt
        → Elements fullmatch registry p.depth_ p.identifier o xs
    if_items-Elements p xs none h = no_schema _ _ _
    if_items-Elements p xs (some (dict s)) h = visit_items-Elements p 0 s xs h
    if_items-Elements p xs (some (bool false)) h = closed_schema _ _ _
    if_items-Elements p xs (some (bool true)) h = other_schema _ _ _ _ refl
    if_items-Elements p xs (some null) h = other_schema _ _ _ _ refl
    if_items-Elements p xs (some (int z)) h = other_schema _ _ _ _ refl
    if_items-Elements p xs (some (str s)) h = other_schema _ _ _ _ refl
    if_items-Elements p xs (some (list ys)) h = other_schema _ _ _ _ refl

    -- What `_validate_object` and the checks on the kind of the value show together.
    validate_object-Inside :
        (p : Place) (v : Value) (f : Fields)
        → validate_object visit p v f ≡ returned tt
        → check_kind fullmatch visit p v f ≡ returned tt
        → Inside fullmatch registry p.depth_ p.identifier v f × Bounded fullmatch registry v f
    unfolding validate_object
    validate_object-Inside p (dict value) f h k =
        let (properties, e, h1) =
          returned-bind (fields_or_none (get (codes "properties") f)) _ tt h in
        let (names, n, h2) = returned-bind (texts_of (get (codes "required") f)) _ tt h1 in
        let (t, complete, h3) = returned-bind (check_required p value names) _ tt h2 in
        let (u, declared_members, h4) =
          returned-bind (visit_members visit p properties (sort (members value))) _ tt h3 in
        (
          object _ _ value f properties names n (check_required-Complete p value names complete) e
              (visit_members-Members p properties (sort (members value)) declared_members)
              (if_additional-Others p value properties (get (codes "additionalProperties") f) h4),
          tt,
        )
    validate_object-Inside p (list xs) f h k =
        let (t, least, k1) =
          returned-bind (check_least _ (pos (count xs)) (get (codes "minItems") f)) _ tt k in
        (
          array _ _ xs f (if_items-Elements p xs (get (codes "items") f) k1),
          check_least-AtLeast _ (pos (count xs)) (get (codes "minItems") f) least,
        )
    validate_object-Inside p (str s) f h k =
        let (t, least, k1) =
          returned-bind (check_least _ (pos (length s)) (get (codes "minLength") f)) _ tt k in
        let (u, matched, k2) =
          returned-bind (check_pattern fullmatch p s (get (codes "pattern") f)) _ tt k1 in
        (
          leaf _ _ (str s) f refl,
          (
            check_least-AtLeast _ (pos (length s)) (get (codes "minLength") f) least,
            check_pattern-Matched p s (get (codes "pattern") f) matched,
            check_format-Formatted p s (get (codes "format") f) k2,
          ),
        )
    validate_object-Inside p (int z) f h k =
        (leaf _ _ (int z) f refl, check_least-AtLeast _ z (get (codes "minimum") f) k)
    validate_object-Inside p (bool b) f h k = (leaf _ _ (bool b) f refl, tt)
    validate_object-Inside p null f h k = (leaf _ _ null f refl, tt)

    validate_own-Conforms :
        (p : Place) (v : Value) (f : Fields)
        → leb p.depth_ max_depth ≡ true
        → get (codes "$ref") f ≡ none
        → validate_own fullmatch visit p v f ≡ returned tt
        → Conforms fullmatch registry p.depth_ p.identifier v (dict f)
    unfolding validate_own
    validate_own-Conforms p v f shallow e h =
        let (typed, h1) = returned-require (has_type (get (codes "type") f) (type_of v)) _ _ tt h in
        let (t, inner, h2) = returned-bind (validate_object visit p v f) _ tt h1 in
        let (u, listed, h3) = returned-bind (check_enum p v (get (codes "enum") f)) _ tt h2 in
        let (w, constant, h4) = returned-bind (check_const p v (get (codes "const") f)) _ tt h3 in
        let (inside, bounded) = validate_object-Inside p v f inner h4 in
        own _ _ v f shallow e typed inside (check_enum-Enumerated p v (get (codes "enum") f) listed)
          (check_const-Constant p v (get (codes "const") f) constant) bounded

  as_fields-returned : (v : Value) (f : Fields) → as_fields v ≡ returned f → v ≡ dict f
  as_fields-returned (dict g) f h = ap dict (returned-injective h)
  as_fields-returned null f h = cc
  as_fields-returned (bool b) f h = cc
  as_fields-returned (int z) f h = cc
  as_fields-returned (str s) f h = cc
  as_fields-returned (list xs) f h = cc

  validate_node-Conforms :
      (fuel : ℕ) (p : Place) (v s : Value)
      → validate_node fullmatch fuel registry p v s ≡ returned tt
      → Conforms fullmatch registry p.depth_ p.identifier v s
  unfolding validate_node
  validate_node-Conforms zero p v s h = cc
  validate_node-Conforms (suc fuel) p v s h =
      let (shallow, h1) = returned-require (leb p.depth_ max_depth) _ _ tt h in
      let (f, is_dict, h2) = returned-bind (as_fields s) _ tt h1 in
      subst (Conforms fullmatch registry p.depth_ p.identifier v)
        (sym (as_fields-returned s f is_dict))
        (elim (Option-cases (get (codes "$ref") f)) [
          | inl e ↦
              validate_own-Conforms (validate_node fullmatch fuel registry)
                (validate_node-Conforms fuel) p v f shallow e (rw e at h2)
          | inr (r, e) ↦
              let (target, resolved, h3) =
                returned-bind (resolve r p.identifier registry) _ tt (rw e at h2) in
              referred _ _ target.1 v target.0 r f shallow e resolved
                (validate_node-Conforms fuel _ v target.0 h3)
        ])

  -- Whatever the schemas are and however their references lead on, where the validator accepts a value
  -- for an `$id`, that is one of the known ones and of the registry, and the value conforms to its
  -- document, by a derivation that stays within the bound on depth.
  pub validate-Conforms :
      (fuel : ℕ) (value : Value) (schema_id : Text)
      → validate fullmatch fuel value schema_id registry ≡ returned tt
      → (document : Fields) × (find_schema schema_id registry ≡ some document)
        × (text_mem schema_id code_by_id ≡ true)
        × Conforms fullmatch registry 0 schema_id value (dict document)
  unfolding validate
  validate-Conforms fuel value schema_id h =
      let (document, found, h1) = returned-or_raise (find_schema schema_id registry) _ _ tt h in
      let (listed, h2) = returned-require (text_mem schema_id code_by_id) _ _ tt h1 in
      (
        document,
        found,
        listed,
        validate_node-Conforms fuel (root schema_id) value (dict document) h2,
      )
