-- ===== src/Base/Attempt.antt =====
-- What a call that may raise comes to: an exception or a value.
use mathlib.Core.Path.{◌≡◌, refl, ap}
use mathlib.Core.Bool.{Bool, true, false}
use mathlib.Core.Option.{Option, none, some}

pub data Attempt (E A : Type 0) : Type 0 where
  raised : E → Attempt E A
  returned : A → Attempt E A

module _ {E : Type 0} where
  infixl 20 ◌>>=◌
  abbrev pub ◌>>=◌ : {A B : Type 0} → Attempt E A → (A → Attempt E B) → Attempt E B
  (raised e) >>= f = raised e
  (returned a) >>= f = f a

  -- `if not test: raise e`
  abbrev pub require : Bool → E → Attempt E (Unit {0})
  require true e = returned tt
  require false e = raised e

  -- The value, or the exception where there is none.
  abbrev pub or_raise : {A : Type 0} → E → Option A → Attempt E A
  or_raise e none = raised e
  or_raise e (some a) = returned a

  pub returned-injective :
      {A : Type 0} {a b : A} → ◌≡◌ {A = Attempt E A} (returned a) (returned b) → a ≡ b
  returned-injective {A} {a} e = ap (λ c. elim c [ raised r ↦ a | returned x ↦ x ]) e

  -- Where a chain returns, its first link does.
  pub returned-bind :
      {A B : Type 0} (x : Attempt E A) (f : A → Attempt E B) (b : B)
      → (x >>= f) ≡ returned b
      → (a : A) × (x ≡ returned a) × (f a ≡ returned b)
  returned-bind (raised r) f b e = cc
  returned-bind (returned a) f b e = (a, refl, e)

  pub returned-require :
      {B : Type 0} (t : Bool) (e : E) (f : Unit {0} → Attempt E B) (b : B)
      → (require t e >>= f) ≡ returned b
      → (t ≡ true) × (f tt ≡ returned b)
  returned-require true r f b e = (refl, e)
  returned-require false r f b e = cc

  pub require_inv : (t : Bool) (e : E) → require t e ≡ returned tt → t ≡ true
  require_inv true r h = refl
  require_inv false r h = cc

  pub returned-or_raise :
      {A B : Type 0} (o : Option A) (e : E) (f : A → Attempt E B) (b : B)
      → (or_raise e o >>= f) ≡ returned b
      → (a : A) × (o ≡ some a) × (f a ≡ returned b)
  returned-or_raise none r f b h = cc
  returned-or_raise (some a) r f b h = (a, refl, h)

  pub or_raise-returned :
      {A : Type 0} (o : Option A) (e : E) (a : A)
      → ◌≡◌ {A = Attempt E A} (or_raise e o) (returned a)
      → o ≡ some a
  or_raise-returned none r a h = cc
  or_raise-returned (some b) r a h = ap some (returned-injective h)

-- The exception, as one of a caller's.
abbrev pub raised_as : {E F A : Type 0} → (E → F) → Attempt E A → Attempt F A
raised_as f (raised e) = raised (f e)
raised_as f (returned a) = returned a

pub returned-raised_as :
    {E F A B : Type 0} (f : E → F) (x : Attempt E A) (g : A → Attempt F B) (b : B)
    → (raised_as f x >>= g) ≡ returned b
    → (a : A) × (x ≡ returned a) × (g a ≡ returned b)
returned-raised_as f (raised e) g b h = cc
returned-raised_as f (returned a) g b h = (a, refl, h)
