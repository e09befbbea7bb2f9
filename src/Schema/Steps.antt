-- ===== src/Schema/Steps.antt =====
-- One step of a derivation, as a step of the validator of vfy/schema.py with enough fuel.
use verify_run.Base.{
  ◌≡◌, refl, sym, subst, ap, ◌≤◌, ◌+◌, ℕ, zero, suc, Bool, true, false, Option, none, some, List,
  ◌∷◌, Text, codes, leb, length, arith,
}
use verify_run.Base.Attempt.{Attempt, returned}
use verify_run.Base.Int.{pos}
use verify_run.Canon.{sort, members}
use verify_run.Schema.{Schemas, Stop, max_depth, type_of}
use verify_run.Schema.Reference.{resolve}
use verify_run.Schema.Validate.{
  Visit, check_kind, visit_members, visit_additional, visit_others, if_additional, validate_object,
  visit_items, if_items, validate_own, validate_node,
}
use verify_run.Schema.Checks.{Place, below, has_type, texts_of, fields_or_none, count}
use verify_run.Value.{Value, null, bool, int, str, list, dict, Items, cons, Fields, get}
use verify_run.Schema.Conforms.{Complete, Enumerated, Constant, is_leaf, is_open, Bounded}
use verify_run.Schema.Returned.{
  check_required-returned, check_enum-returned, check_const-returned, check_least-returned,
  check_pattern-returned, check_format-returned,
}

module _ (fullmatch : Text → Text → Bool) (registry : Schemas) where
  -- With fuel from `k` on, at every place of that depth and document.
  abbrev pub NodeFrom : ℕ → ℕ → Text → Value → Value → Type 0
  NodeFrom k d id v s =
      (n : ℕ) (p : Place)
      → k ≤ n
      → p.depth_ ≡ d
      → p.identifier ≡ id
      → validate_node fullmatch n registry p v s ≡ returned tt

  abbrev pub MembersFrom : ℕ → ℕ → Text → Fields → List (Text × Value) → Type 0
  MembersFrom k d id properties ms =
      (n : ℕ) (p : Place)
      → k ≤ n
      → p.depth_ ≡ d
      → p.identifier ≡ id
      → visit_members (validate_node fullmatch n registry) p properties ms ≡ returned tt

  abbrev pub others_of :
      Visit → Place → Fields → Option Value → List (Text × Value) → Attempt Stop (Unit {0})
  others_of visit p properties none ms = returned tt
  others_of visit p properties (some a) ms = visit_others visit p properties a ms

  abbrev pub OthersFrom : ℕ → ℕ → Text → Fields → Option Value → List (Text × Value) → Type 0
  OthersFrom k d id properties o ms =
      (n : ℕ) (p : Place)
      → k ≤ n
      → p.depth_ ≡ d
      → p.identifier ≡ id
      → others_of (validate_node fullmatch n registry) p properties o ms ≡ returned tt

  abbrev pub items_of : Visit → Place → ℕ → Option Value → Items → Attempt Stop (Unit {0})
  items_of visit p index (some (dict s)) xs = visit_items visit p index (dict s) xs
  items_of visit p index _ xs = returned tt

  abbrev pub ElementsFrom : ℕ → ℕ → Text → Option Value → Items → Type 0
  ElementsFrom k d id o xs =
      (n : ℕ) (p : Place) (index : ℕ)
      → k ≤ n
      → p.depth_ ≡ d
      → p.identifier ≡ id
      → items_of (validate_node fullmatch n registry) p index o xs ≡ returned tt

  abbrev pub InsideFrom : ℕ → ℕ → Text → Value → Fields → Type 0
  InsideFrom k d id v f =
      (n : ℕ) (p : Place)
      → k ≤ n
      → p.depth_ ≡ d
      → p.identifier ≡ id
      → (validate_object (validate_node fullmatch n registry) p v f ≡ returned tt)
        × (Bounded fullmatch registry v f
            → check_kind fullmatch (validate_node fullmatch n registry) p v f ≡ returned tt)

  pub if_additional-others_of :
      (visit : Visit) (p : Place) (value properties : Fields) (o : Option Value)
      → if_additional visit p value properties o
        ≡ others_of visit p properties o (sort (members value))
  if_additional-others_of visit p value properties none = refl
  if_additional-others_of visit p value properties (some a) = refl

  pub if_items-items_of :
      (visit : Visit) (p : Place) (o : Option Value) (xs : Items)
      → if_items visit p xs o ≡ items_of visit p 0 o xs
  if_items-items_of visit p none xs = refl
  if_items-items_of visit p (some (dict s)) xs = refl
  if_items-items_of visit p (some null) xs = refl
  if_items-items_of visit p (some (bool b)) xs = refl
  if_items-items_of visit p (some (int z)) xs = refl
  if_items-items_of visit p (some (str s)) xs = refl
  if_items-items_of visit p (some (list ys)) xs = refl

  pub referred_step :
      (k d : ℕ) (id next : Text) (v target r : Value) (f : Fields)
      → leb d max_depth ≡ true
      → get (codes "$ref") f ≡ some r
      → resolve r id registry ≡ returned (target, next)
      → NodeFrom k d next v target
      → NodeFrom (suc k) d id v (dict f)
  unfolding validate_node
  referred_step k d id next v target r f shallow e found go zero p le ed ei =
      absurd (omega (arith, le))
  referred_step k d id next v target r f shallow e found go (suc n) p le ed ei =
      let within : leb p.depth_ max_depth ≡ true =
        subst (λ x. leb x max_depth ≡ true) (sym ed) shallow in
      let here : resolve r p.identifier registry ≡ returned (target, next) =
        subst (λ i. resolve r i registry ≡ returned (target, next)) (sym ei) found in
      rw (within, e, here) (go n _ (omega (arith, le)) ed refl)

  pub own_step :
      (k d : ℕ) (id : Text) (v : Value) (f : Fields)
      → leb d max_depth ≡ true
      → get (codes "$ref") f ≡ none
      → has_type (get (codes "type") f) (type_of v) ≡ true
      → InsideFrom k d id v f
      → Enumerated v (get (codes "enum") f)
      → Constant v (get (codes "const") f)
      → Bounded fullmatch registry v f
      → NodeFrom (suc k) d id v (dict f)
  unfolding validate_node validate_own
  own_step k d id v f shallow e typed inside listed constant bounded zero p le ed ei =
      absurd (omega (arith, le))
  own_step k d id v f shallow e typed inside listed constant bounded (suc n) p le ed ei =
      let within : leb p.depth_ max_depth ≡ true =
        subst (λ x. leb x max_depth ≡ true) (sym ed) shallow in
      let (inner, kind) = inside n p (omega (arith, le)) ed ei in
      rw
        (
          within,
          e,
          typed,
          inner,
          check_enum-returned p v (get (codes "enum") f) listed,
          check_const-returned p v (get (codes "const") f) constant,
        )
        (kind bounded)

  pub object_step :
      (k d : ℕ) (id : Text) (value f properties : Fields) (names : List Text)
      → texts_of (get (codes "required") f) ≡ returned names
      → Complete value names
      → fields_or_none (get (codes "properties") f) ≡ returned properties
      → MembersFrom k d id properties (sort (members value))
      → OthersFrom k d id properties (get (codes "additionalProperties") f) (sort (members value))
      → InsideFrom k d id (dict value) f
  unfolding validate_object
  object_step k d id value f properties names needed complete e ms os n p le ed ei = (
    rw
        (
          e,
          needed,
          check_required-returned p value names complete,
          ms n p le ed ei,
          if_additional-others_of (validate_node fullmatch n registry) p value properties
              (get (codes "additionalProperties") f),
        )
        (os n p le ed ei),
    λ b. refl,
  )

  pub array_step :
      (k d : ℕ) (id : Text) (xs : Items) (f : Fields)
      → ElementsFrom k d id (get (codes "items") f) xs
      → InsideFrom k d id (list xs) f
  unfolding validate_object
  array_step k d id xs f go n p le ed ei = (
    refl,
    λ b.
        rw
          (
            check_least-returned _ (pos (count xs)) (get (codes "minItems") f) b,
            if_items-items_of (validate_node fullmatch n registry) p (get (codes "items") f) xs,
          )
          (go n p 0 le ed ei),
  )

  pub leaf_step :
      (d : ℕ) (id : Text) (v : Value) (f : Fields) → is_leaf v ≡ true → InsideFrom 0 d id v f
  unfolding validate_object
  leaf_step d id (str s) f h n p le ed ei = (
    refl,
    λ b.
        rw
          (
            check_least-returned _ (pos (length s)) (get (codes "minLength") f) b.0,
            check_pattern-returned fullmatch registry p s (get (codes "pattern") f) b.1,
          )
          (check_format-returned fullmatch registry p s (get (codes "format") f) b.2),
  )
  leaf_step d id (int z) f h n p le ed ei =
      (refl, λ b. check_least-returned _ z (get (codes "minimum") f) b)
  leaf_step d id null f h n p le ed ei = (refl, λ b. refl)
  leaf_step d id (bool c) f h n p le ed ei = (refl, λ b. refl)
  leaf_step d id (list xs) f h n p le ed ei = cc
  leaf_step d id (dict g) f h n p le ed ei = cc

  pub known_step :
      (k l d : ℕ) (id : Text) (properties : Fields) (m : Text × Value) (s : Value)
      (ms : List (Text × Value))
      → get m.0 properties ≡ some s
      → NodeFrom k (suc d) id m.1 s
      → MembersFrom l d id properties ms
      → MembersFrom (k + l) d id properties (m ∷ ms)
  unfolding visit_members
  known_step k l d id properties m s ms e go rest n p le ed ei =
      rw (e, go n (below p _ _) (omega (arith, le)) (ap suc ed) ei)
        (rest n p (omega (arith, le)) ed ei)

  pub unknown_step :
      (k d : ℕ) (id : Text) (properties : Fields) (m : Text × Value) (ms : List (Text × Value))
      → get m.0 properties ≡ none
      → MembersFrom k d id properties ms
      → MembersFrom k d id properties (m ∷ ms)
  unfolding visit_members
  unknown_step k d id properties m ms e rest n p le ed ei = rw (e) (rest n p le ed ei)

  pub declared_step :
      (k d : ℕ) (id : Text) (properties : Fields) (a : Value) (m : Text × Value) (s : Value)
      (ms : List (Text × Value))
      → get m.0 properties ≡ some s
      → OthersFrom k d id properties (some a) ms
      → OthersFrom k d id properties (some a) (m ∷ ms)
  unfolding visit_others
  declared_step k d id properties a m s ms e rest n p le ed ei = rw (e) (rest n p le ed ei)

  pub additional_step :
      (k l d : ℕ) (id : Text) (properties s : Fields) (m : Text × Value) (ms : List (Text × Value))
      → get m.0 properties ≡ none
      → NodeFrom k (suc d) id m.1 (dict s)
      → OthersFrom l d id properties (some (dict s)) ms
      → OthersFrom (k + l) d id properties (some (dict s)) (m ∷ ms)
  unfolding visit_others
  additional_step k l d id properties s m ms e go rest n p le ed ei =
      rw (e, go n (below p _ _) (omega (arith, le)) (ap suc ed) ei)
        (rest n p (omega (arith, le)) ed ei)

  pub visit_open :
      (visit : Visit) (p : Place) (name : Text) (v a : Value)
      → is_open a ≡ true
      → visit_additional visit p name v none a ≡ returned tt
  visit_open visit p name v null h = refl
  visit_open visit p name v (bool true) h = refl
  visit_open visit p name v (bool false) h = cc
  visit_open visit p name v (int z) h = refl
  visit_open visit p name v (str s) h = refl
  visit_open visit p name v (list xs) h = refl
  visit_open visit p name v (dict f) h = cc

  pub open_step :
      (k d : ℕ) (id : Text) (properties : Fields) (a : Value) (m : Text × Value)
      (ms : List (Text × Value))
      → get m.0 properties ≡ none
      → is_open a ≡ true
      → OthersFrom k d id properties (some a) ms
      → OthersFrom k d id properties (some a) (m ∷ ms)
  unfolding visit_others
  open_step k d id properties a m ms e o rest n p le ed ei =
      rw (e, visit_open (validate_node fullmatch n registry) p m.0 m.1 a o) (rest n p le ed ei)

  pub items_open :
      (visit : Visit) (p : Place) (index : ℕ) (a : Value) (xs : Items)
      → is_open a ≡ true
      → items_of visit p index (some a) xs ≡ returned tt
  items_open visit p index null xs h = refl
  items_open visit p index (bool b) xs h = refl
  items_open visit p index (int z) xs h = refl
  items_open visit p index (str s) xs h = refl
  items_open visit p index (list ys) xs h = refl
  items_open visit p index (dict f) xs h = cc

  pub element_step :
      (k l d : ℕ) (id : Text) (s : Fields) (x : Value) (xs : Items)
      → NodeFrom k (suc d) id x (dict s)
      → ElementsFrom l d id (some (dict s)) xs
      → ElementsFrom (k + l) d id (some (dict s)) (cons x xs)
  unfolding visit_items
  element_step k l d id s x xs go rest n p index le ed ei =
      rw (go n (below p _ _) (omega (arith, le)) (ap suc ed) ei)
        (rest n p (suc index) (omega (arith, le)) ed ei)
