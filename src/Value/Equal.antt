-- ===== src/Value/Equal.antt =====
-- Equality of values: Python's `==`, which takes True for 1, and `_equal` of vfy/gate.py, which does
-- not, except inside a mapping, where it hands over to `==`.
use mathlib.Core.Path.{ap₂}
use verify_run.Base.{
  and_inv, ap, subst, Bool, true, false, ◌&&◌, none, some, Text, ◌==◌, text_eq, ◌≡◌, refl, ◌↔◌, not,
  arith, text_eq_iff, text_eq_refl,
}
use verify_run.Base.Int.{ℤ, pos, eq_ℤ, eq_of_parts}
use verify_run.Value.{
  Value, null, bool, int, str, list, dict, Items, nil, cons, Fields, end, field, get, size,
}

abbrev pub bool_eq : Bool → Bool → Bool
bool_eq true b = b
bool_eq false b = not b

-- `int(b)`
abbrev pub bool_int : Bool → ℤ
bool_int true = pos 1
bool_int false = pos 0

unfoldable mutual
  -- `left == right`
  pub py_eq : Value → Value → Bool
  py_eq null null = true
  py_eq (bool a) (bool b) = bool_eq a b
  py_eq (bool a) (int z) = eq_ℤ (bool_int a) z
  py_eq (int y) (bool b) = eq_ℤ y (bool_int b)
  py_eq (int y) (int z) = eq_ℤ y z
  py_eq (str s) (str t) = text_eq s t
  py_eq (list xs) (list ys) = py_eq_items xs ys
  py_eq (dict f) (dict g) = (size f == size g) && py_eq_fields f g
  py_eq _ _ = false

  pub py_eq_items : Items → Items → Bool
  py_eq_items nil nil = true
  py_eq_items (cons x xs) (cons y ys) = py_eq x y && py_eq_items xs ys
  py_eq_items _ _ = false

  -- Every member of the first mapping is in the second, with an equal value.
  pub py_eq_fields : Fields → Fields → Bool
  py_eq_fields end g = true
  py_eq_fields (field k v rest) g = elim (get k g) [
    | some w ↦ py_eq v w && py_eq_fields rest g
    | none ↦ false
  ]

unfoldable mutual
  -- `_equal` on two values that are there.
  pub equal : Value → Value → Bool
  equal null null = true
  equal (bool a) (bool b) = bool_eq a b
  equal (int y) (int z) = eq_ℤ y z
  equal (str s) (str t) = text_eq s t
  equal (list xs) (list ys) = equal_items xs ys
  equal (dict f) (dict g) = py_eq (dict f) (dict g)
  equal _ _ = false

  -- `len(left) == len(right) and all(_equal(a, b) for a, b in zip(left, right))`
  pub equal_items : Items → Items → Bool
  equal_items nil nil = true
  equal_items (cons x xs) (cons y ys) = equal x y && equal_items xs ys
  equal_items _ _ = false

-- No mapping stands anywhere in the value.
abbrev mutual
  pub NoDict : Value → Type 0
  NoDict (dict f) = ⊥
  NoDict (list xs) = NoDicts xs
  NoDict _ = Unit

  pub NoDicts : Items → Type 0
  NoDicts nil = Unit
  NoDicts (cons x xs) = NoDict x × NoDicts xs

mutual
  unfolding equal

  equal→eq : (v w : Value) → NoDict v → equal v w ≡ true → v ≡ w
  equal→eq null null n h = refl
  equal→eq (bool true) (bool true) n h = refl
  equal→eq (bool true) (bool false) n h = cc
  equal→eq (bool false) (bool true) n h = cc
  equal→eq (bool false) (bool false) n h = refl
  equal→eq (int y) (int z) n h = ap int (eq_of_parts y z (ground arith))
  equal→eq (str s) (str t) n h = ap str ((text_eq_iff s t).0 h)
  equal→eq (list xs) (list ys) n h = ap list (equal_items→eq xs ys n h)
  equal→eq (dict f) w n h = absurd n
  equal→eq _ _ n h = cc

  equal_items→eq : (xs ys : Items) → NoDicts xs → equal_items xs ys ≡ true → xs ≡ ys
  equal_items→eq nil nil n h = refl
  equal_items→eq nil (cons y ys) n h = cc
  equal_items→eq (cons x xs) nil n h = cc
  equal_items→eq (cons x xs) (cons y ys) n h =
      let (head, tail) = and_inv (equal x y) (equal_items xs ys) h in
      ap₂ cons (equal→eq x y n.0 head) (equal_items→eq xs ys n.1 tail)

mutual
  unfolding equal

  equal_refl : (v : Value) → NoDict v → equal v v ≡ true
  equal_refl null n = refl
  equal_refl (bool true) n = refl
  equal_refl (bool false) n = refl
  equal_refl (int z) n = ground arith
  equal_refl (str s) n = text_eq_refl s
  equal_refl (list xs) n = equal_items_refl xs n
  equal_refl (dict f) n = absurd n

  equal_items_refl : (xs : Items) → NoDicts xs → equal_items xs xs ≡ true
  equal_items_refl nil n = refl
  equal_items_refl (cons x xs) n = ground (arith, equal_refl x n.0, equal_items_refl xs n.1)

-- On values in which no mapping stands `_equal` is exact: it holds of two values exactly when they
-- are one, so a boolean is never an integer there.
pub equal_iff : (v w : Value) → NoDict v → (equal v w ≡ true) ↔ (v ≡ w)
equal_iff v w n = (equal→eq v w n, λ e. subst (λ u. equal v u ≡ true) e (equal_refl v n))

-- Inside a mapping `_equal` coerces: under any key a boolean equals the integer that it stands for,
-- which it does not on its own.
pub dict-coerces :
    (k : Text) (b : Bool)
    → (equal (dict (field k (bool b) end)) (dict (field k (int (bool_int b)) end)) ≡ true)
      × (equal (bool b) (int (bool_int b)) ≡ false)
unfolding equal py_eq get
dict-coerces k b = (ground (arith, text_eq_refl k), refl)
