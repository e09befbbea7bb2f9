-- ===== src/Value.antt =====
-- The values that canonical JSON carries (vfy/canon.py: "Only JSON's own types are
-- canonicalizable"; the loaders refuse floats), and how the code reads them.
pub mod Equal
use verify_run.Base.{ℕ, zero, suc, Bool, Text, Option, none, some, text_eq, if◌then◌else◌}
use verify_run.Base.Int.{ℤ}

mutual
  pub data Value : Type 0 where
    null : Value
    bool : Bool → Value
    int : ℤ → Value
    str : Text → Value
    list : Items → Value
    dict : Fields → Value

  -- A Python `dict`, in the order of insertion.
  pub data Fields : Type 0 where
    field : Text → Value → Fields → Fields
    end : Fields

  -- A Python `list`, element by element.
  pub data Items : Type 0 where
    cons : Value → Items → Items
    nil : Items

-- `fields.get(name)`
unfoldable pub get : Text → Fields → Option Value
get name end = none
get name (field key value rest) = if text_eq key name then some value else get name rest

-- `items[index]`, `none` where `index >= len(items)`.
unfoldable pub at : ℕ → Items → Option Value
at i nil = none
at zero (cons x items) = some x
at (suc i) (cons x items) = at i items

-- `len(fields)`
abbrev pub size : Fields → ℕ
size end = 0
size (field key value rest) = suc (size rest)
