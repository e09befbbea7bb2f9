-- ===== src/Schema/Enough.antt =====
-- From derivations back to `validate` of vfy/schema.py.
use verify_run.Base.{
  ◌≡◌, refl, ◌≤◌, ◌+◌, ℕ, suc, Bool, true, Option, some, List, Text, codes, text_mem, arith,
}
use verify_run.Base.Attempt.{returned}
use verify_run.Canon.{sort, members}
use verify_run.Schema.{Schemas, find_schema}
use verify_run.Schema.Validate.{
  visit_members, visit_others, visit_items, validate_node, validate, root,
}
use verify_run.Schema.Checks.{code_by_id}
use verify_run.Value.{Value, dict, Items, Fields, get}
use verify_run.Schema.Conforms.{
  Conforms, referred, own, Inside, object, array, leaf, Members, no_members, known, unknown, Others,
  unrestricted, no_others, declared, additional, open_to, Elements, no_schema, other_schema,
  closed_schema, no_elements, element,
}
use verify_run.Schema.Steps.{
  NodeFrom, MembersFrom, OthersFrom, ElementsFrom, InsideFrom, referred_step, own_step, object_step,
  array_step, leaf_step, known_step, unknown_step, declared_step, additional_step, open_step,
  items_open, element_step,
}

module _ (fullmatch : Text → Text → Bool) (registry : Schemas) where
  mutual
    unfolding visit_members visit_others visit_items

    Conforms-enough :
        (d : ℕ) (id : Text) (v s : Value)
        → Conforms fullmatch registry d id v s
        → (k : ℕ) × NodeFrom fullmatch registry k d id v s
    Conforms-enough d id v _ (referred _ _ next _ target r f shallow e found c) =
        let (k, go) = Conforms-enough d next v target c in
        (suc k, referred_step fullmatch registry k d id next v target r f shallow e found go)
    Conforms-enough d id v _ (own _ _ _ f shallow e typed inside listed constant bounded) =
        let (k, go) = Inside-enough d id v f inside in
        (suc k, own_step fullmatch registry k d id v f shallow e typed go listed constant bounded)

    Inside-enough :
        (d : ℕ) (id : Text) (v : Value) (f : Fields)
        → Inside fullmatch registry d id v f
        → (k : ℕ) × InsideFrom fullmatch registry k d id v f
    Inside-enough d id _ f (object _ _ value _ properties names needed complete e ms os) =
        let (k, go) = Members-enough d id properties (sort (members value)) ms in
        let (l, rest) =
          Others-enough d id properties (get (codes "additionalProperties") f)
            (sort (members value)) os in
        (
          k + l,
          object_step fullmatch registry (k + l) d id value f properties names needed complete e
              (λ n p le. go n p (omega (arith, le))) (λ n p le. rest n p (omega (arith, le))),
        )
    Inside-enough d id _ f (array _ _ xs _ es) =
        let (k, go) = Elements-enough d id (get (codes "items") f) xs es in
        (k, array_step fullmatch registry k d id xs f go)
    Inside-enough d id v f (leaf _ _ _ _ h) = (0, leaf_step fullmatch registry d id v f h)

    Members-enough :
        (d : ℕ) (id : Text) (properties : Fields) (ms : List (Text × Value))
        → Members fullmatch registry d id properties ms
        → (k : ℕ) × MembersFrom fullmatch registry k d id properties ms
    Members-enough d id properties _ (no_members _ _ _) = (0, λ n p le ed ei. refl)
    Members-enough d id properties _ (known _ _ _ m s ms e c rest) =
        let (k, go) = Conforms-enough (suc d) id m.1 s c in
        let (l, on) = Members-enough d id properties ms rest in
        (k + l, known_step fullmatch registry k l d id properties m s ms e go on)
    Members-enough d id properties _ (unknown _ _ _ m ms e rest) =
        let (k, go) = Members-enough d id properties ms rest in
        (k, unknown_step fullmatch registry k d id properties m ms e go)

    Others-enough :
        (d : ℕ) (id : Text) (properties : Fields) (o : Option Value) (ms : List (Text × Value))
        → Others fullmatch registry d id properties o ms
        → (k : ℕ) × OthersFrom fullmatch registry k d id properties o ms
    Others-enough d id properties _ ms (unrestricted _ _ _ _) = (0, λ n p le ed ei. refl)
    Others-enough d id properties _ _ (no_others _ _ _ a) = (0, λ n p le ed ei. refl)
    Others-enough d id properties _ _ (declared _ _ _ a m s ms e rest) =
        let (k, go) = Others-enough d id properties (some a) ms rest in
        (k, declared_step fullmatch registry k d id properties a m s ms e go)
    Others-enough d id properties _ _ (additional _ _ _ s m ms e c rest) =
        let (k, go) = Conforms-enough (suc d) id m.1 (dict s) c in
        let (l, on) = Others-enough d id properties (some (dict s)) ms rest in
        (k + l, additional_step fullmatch registry k l d id properties s m ms e go on)
    Others-enough d id properties _ _ (open_to _ _ _ a m ms e o rest) =
        let (k, go) = Others-enough d id properties (some a) ms rest in
        (k, open_step fullmatch registry k d id properties a m ms e o go)

    Elements-enough :
        (d : ℕ) (id : Text) (o : Option Value) (xs : Items)
        → Elements fullmatch registry d id o xs
        → (k : ℕ) × ElementsFrom fullmatch registry k d id o xs
    Elements-enough d id _ xs (no_schema _ _ _) = (0, λ n p index le ed ei. refl)
    Elements-enough d id _ xs (other_schema _ _ a _ h) = (
      0,
      λ n p index le ed ei.
          items_open fullmatch registry (validate_node fullmatch n registry) p index a xs h,
    )
    Elements-enough d id _ xs (closed_schema _ _ _) = (0, λ n p index le ed ei. refl)
    Elements-enough d id _ _ (no_elements _ _ s) = (0, λ n p index le ed ei. refl)
    Elements-enough d id _ _ (element _ _ s x xs c rest) =
        let (k, go) = Conforms-enough (suc d) id x (dict s) c in
        let (l, on) = Elements-enough d id (some (dict s)) xs rest in
        (k + l, element_step fullmatch registry k l d id s x xs go on)

  -- A value that conforms to the document of a known `$id` is accepted: from some fuel on, the validator
  -- returns, with every fuel.
  pub Conforms-validate :
      (value : Value) (schema_id : Text) (document : Fields)
      → find_schema schema_id registry ≡ some document
      → text_mem schema_id code_by_id ≡ true
      → Conforms fullmatch registry 0 schema_id value (dict document)
      → (k : ℕ) × ((n : ℕ) → k ≤ n → validate fullmatch n value schema_id registry ≡ returned tt)
  unfolding validate
  Conforms-validate value schema_id document found listed c =
      let (k, go) = Conforms-enough 0 schema_id value (dict document) c in
      (k, λ n le. rw (found, listed) (go n (root schema_id) le refl refl))
