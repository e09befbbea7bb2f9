-- ===== src/Schema/Equal.antt =====
-- `_equal` of vfy/schema.py.
use verify_run.Base.{Bool, true, false, not, ◌&&◌, Option, none, some, text_eq}
use verify_run.Base.Int.{eq_ℤ}
use verify_run.Value.{
  Value, null, bool, int, str, list, dict, Fields, field, end, Items, nil, cons, get,
}

abbrev is_some : Option Value → Bool
is_some (some v) = true
is_some none = false

-- `set(left) <= set(right)`
unfoldable pub keys_in : Fields → Fields → Bool
keys_in end other = true
keys_in (field k v rest) other = is_some (get k other) && keys_in rest other

unfoldable mutual
  unfolding keys_in

  pub exact : Value → Value → Bool
  exact null null = true
  exact (bool true) (bool b) = b
  exact (bool false) (bool b) = not b
  exact (int a) (int b) = eq_ℤ a b
  exact (str a) (str b) = text_eq a b
  exact (list a) (list b) = exact_items a b
  exact (dict a) (dict b) = keys_in a b && (keys_in b a && exact_fields a b)
  exact _ _ = false

  pub exact_items : Items → Items → Bool
  exact_items nil nil = true
  exact_items (cons x xs) (cons y ys) = exact x y && exact_items xs ys
  exact_items _ _ = false

  -- `all(_equal(left[k], right[k]) for k in left)`
  pub exact_fields : Fields → Fields → Bool
  exact_fields end other = true
  exact_fields (field k v rest) other =
      elim (get k other) [ none ↦ false | some w ↦ exact v w ] && exact_fields rest other
