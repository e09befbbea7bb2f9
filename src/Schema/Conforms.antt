-- ===== src/Schema/Conforms.antt =====
-- What it is for a value to conform to a schema of vfy/schema.py: derivations with no fuel and no paths.
use verify_run.Base.{
  ◌≡◌, ℕ, suc, Bool, true, false, Option, none, some, List, [], ◌∷◌, Text, codes, leb, length, All,
}
use verify_run.Base.Attempt.{returned}
use verify_run.Base.Int.{ℤ, pos, ◌≤ℤ◌}
use verify_run.Canon.{sort, members}
use verify_run.Schema.{Schemas, max_depth, type_of}
use verify_run.Schema.Reference.{resolve}
use verify_run.Schema.Checks.{
  has_type, texts_of, fields_or_none, any_exact, iterated, bool_bound, count, is_date_time,
  is_there,
}
use verify_run.Schema.Equal.{exact}
use verify_run.Value.{Value, bool, int, str, list, dict, Items, nil, cons, Fields, get}

-- Every name is a member.
abbrev pub Complete : Fields → List Text → Type 0
Complete value = All (λ name. is_there (get name value) ≡ true)

abbrev pub Offered : Value → Option Items → Type 0
Offered v none = ⊥
Offered v (some options) = any_exact v options ≡ true

abbrev pub Enumerated : Value → Option Value → Type 0
Enumerated v none = Unit
Enumerated v (some w) = Offered v (iterated w)

abbrev pub Constant : Value → Option Value → Type 0
Constant v none = Unit
Constant v (some w) = exact v w ≡ true

abbrev pub AtLeast : ℤ → Option Value → Type 0
AtLeast n none = Unit
AtLeast n (some (int least)) = least ≤ℤ n
AtLeast n (some (bool b)) = bool_bound b ≤ℤ n
AtLeast n (some _) = ⊥

-- No nodes lie inside: all values but objects and arrays.
abbrev pub is_leaf : Value → Bool
is_leaf (dict f) = false
is_leaf (list xs) = false
is_leaf _ = true

-- The value of `additionalProperties` says nothing of a member.
abbrev pub is_open : Value → Bool
is_open (bool false) = false
is_open (dict f) = false
is_open _ = true

module _ (fullmatch : Text → Text → Bool) (registry : Schemas) where
  abbrev pub Matched : Text → Option Value → Type 0
  Matched s none = Unit
  Matched s (some (str pattern)) = fullmatch pattern s ≡ true
  Matched s (some _) = ⊥

  abbrev pub Formatted : Text → Option Value → Type 0
  Formatted s (some (str f)) = (f ≡ codes "date-time") → is_date_time s ≡ true
  Formatted s _ = Unit

  abbrev pub Bounded : Value → Fields → Type 0
  Bounded (list xs) f = AtLeast (pos (count xs)) (get (codes "minItems") f)
  Bounded (str s) f =
      AtLeast (pos (length s)) (get (codes "minLength") f)
      × Matched s (get (codes "pattern") f)
      × Formatted s (get (codes "format") f)
  Bounded (int z) f = AtLeast z (get (codes "minimum") f)
  Bounded _ f = Unit

  mutual
    -- At a depth, in the document with an `$id`.
    pub data Conforms : ℕ → Text → Value → Value → Type 0 where
      referred :
          (d : ℕ) (id next : Text) (v target r : Value) (f : Fields)
          → leb d max_depth ≡ true
          → get (codes "$ref") f ≡ some r
          → resolve r id registry ≡ returned (target, next)
          → Conforms d next v target
          → Conforms d id v (dict f)
      own :
          (d : ℕ) (id : Text) (v : Value) (f : Fields)
          → leb d max_depth ≡ true
          → get (codes "$ref") f ≡ none
          → has_type (get (codes "type") f) (type_of v) ≡ true
          → Inside d id v f
          → Enumerated v (get (codes "enum") f)
          → Constant v (get (codes "const") f)
          → Bounded v f
          → Conforms d id v (dict f)

    pub data Inside : ℕ → Text → Value → Fields → Type 0 where
      object :
          (d : ℕ) (id : Text) (value f properties : Fields) (names : List Text)
          → texts_of (get (codes "required") f) ≡ returned names
          → Complete value names
          → fields_or_none (get (codes "properties") f) ≡ returned properties
          → Members d id properties (sort (members value))
          → Others d id properties (get (codes "additionalProperties") f) (sort (members value))
          → Inside d id (dict value) f
      array :
          (d : ℕ) (id : Text) (xs : Items) (f : Fields)
          → Elements d id (get (codes "items") f) xs
          → Inside d id (list xs) f
      leaf : (d : ℕ) (id : Text) (v : Value) (f : Fields) → is_leaf v ≡ true → Inside d id v f

    -- A declared member conforms to its own schema, one level down.
    pub data Members : ℕ → Text → Fields → List (Text × Value) → Type 0 where
      no_members : (d : ℕ) (id : Text) (properties : Fields) → Members d id properties []
      known :
          (d : ℕ) (id : Text) (properties : Fields) (m : Text × Value) (s : Value)
          (ms : List (Text × Value))
          → get m.0 properties ≡ some s
          → Conforms (suc d) id m.1 s
          → Members d id properties ms
          → Members d id properties (m ∷ ms)
      unknown :
          (d : ℕ) (id : Text) (properties : Fields) (m : Text × Value) (ms : List (Text × Value))
          → get m.0 properties ≡ none
          → Members d id properties ms
          → Members d id properties (m ∷ ms)

    -- Any other member is allowed, or conforms to the schema of the additional ones.
    pub data Others : ℕ → Text → Fields → Option Value → List (Text × Value) → Type 0 where
      unrestricted :
          (d : ℕ) (id : Text) (properties : Fields) (ms : List (Text × Value))
          → Others d id properties none ms
      no_others :
          (d : ℕ) (id : Text) (properties : Fields) (a : Value) → Others d id properties (some a) []
      declared :
          (d : ℕ) (id : Text) (properties : Fields) (a : Value) (m : Text × Value) (s : Value)
          (ms : List (Text × Value))
          → get m.0 properties ≡ some s
          → Others d id properties (some a) ms
          → Others d id properties (some a) (m ∷ ms)
      additional :
          (d : ℕ) (id : Text) (properties s : Fields) (m : Text × Value) (ms : List (Text × Value))
          → get m.0 properties ≡ none
          → Conforms (suc d) id m.1 (dict s)
          → Others d id properties (some (dict s)) ms
          → Others d id properties (some (dict s)) (m ∷ ms)
      open_to :
          (d : ℕ) (id : Text) (properties : Fields) (a : Value) (m : Text × Value)
          (ms : List (Text × Value))
          → get m.0 properties ≡ none
          → is_open a ≡ true
          → Others d id properties (some a) ms
          → Others d id properties (some a) (m ∷ ms)

    pub data Elements : ℕ → Text → Option Value → Items → Type 0 where
      no_schema : (d : ℕ) (id : Text) (xs : Items) → Elements d id none xs
      other_schema :
          (d : ℕ) (id : Text) (s : Value) (xs : Items)
          → is_open s ≡ true
          → Elements d id (some s) xs
      closed_schema : (d : ℕ) (id : Text) (xs : Items) → Elements d id (some (bool false)) xs
      no_elements : (d : ℕ) (id : Text) (s : Fields) → Elements d id (some (dict s)) nil
      element :
          (d : ℕ) (id : Text) (s : Fields) (x : Value) (xs : Items)
          → Conforms (suc d) id x (dict s)
          → Elements d id (some (dict s)) xs
          → Elements d id (some (dict s)) (cons x xs)
