-- ===== src/Base/Digits.antt =====
-- Decimal digits: Python's `str` of a number that is not negative, `int` of a text of digits, and
-- how the order of digit texts agrees with the order of the numbers.
use verify_run.Base.Tests.{ltb, Bool-cases}
use verify_run.Base.Lists.{length, All}
use verify_run.Base.Strings.{Text, text_lt, text_eq}
use Prim.Native.Nat.{ℕ, zero, suc, ◌+◌, ◌-◌, ◌*◌, ◌/◌, ◌%◌, ◌≤◌, ◌<◌}
use mathlib.Core.Path.{◌≡◌, refl, ap, ◌∙◌}
use mathlib.Core.Logic.{◌⊎◌, inl, inr}
use mathlib.Core.Bool.{true, false}
use mathlib.Core.List.{[], ◌∷◌, ◌++◌}
use native.Mathlib.Omega.{arith}
use native.Mathlib.Decide.{dec_le}

abbrev pub IsDigit : ℕ → Type 0
IsDigit c = (b'0' ≤ c) × (c ≤ b'9')

abbrev pub IsDigits : Text → Type 0
IsDigits = All IsDigit

-- The digits of `n` in front of `out`, on fuel.
digits_before : ℕ → ℕ → Text → Text
digits_before zero n out = out
digits_before (suc fuel) n out = elim (ltb n 10) [
  | true ↦ (b'0' + n % 10) ∷ out
  | false ↦ digits_before fuel (n / 10) ((b'0' + n % 10) ∷ out)
]

-- `str(n)`
unfoldable pub to_digits : ℕ → Text
unfolding digits_before
to_digits n = digits_before (n + 1) n []

-- `int(text)`, behind digits that are worth `acc`.
unfoldable pub value_from : ℕ → Text → ℕ
value_from acc [] = acc
value_from acc (c ∷ s) = value_from (acc * 10 + (c - b'0')) s

abbrev pub digits_value : Text → ℕ
digits_value = value_from 0

value-digits_before :
    (fuel n : ℕ) (out : Text)
    → n < fuel
    → value_from 0 (digits_before fuel n out) ≡ value_from n out
unfolding digits_before value_from
value-digits_before zero n out h = absurd (omega arith)
value-digits_before (suc fuel) n out h = elim (Bool-cases (ltb n 10)) [
  | inl small ↦ rw (small, digits_before) (ap (λ k. value_from k out) (ground arith))
  | inr large ↦
      rw (large, digits_before)
        (value-digits_before fuel (n / 10) ((b'0' + n % 10) ∷ out) (ground arith)
          ∙ ap (λ k. value_from k out) (omega arith))
]

-- `int(str(n))` is `n`.
pub digits_value-to_digits : (n : ℕ) → digits_value (to_digits n) ≡ n
unfolding to_digits value_from
digits_value-to_digits n = value-digits_before (n + 1) n [] (omega arith)

pub value_from-append : (a : ℕ) (s t : Text) → value_from a (s ++ t) ≡ value_from (value_from a s) t
unfolding value_from
value_from-append a [] t = refl
value_from-append a (c ∷ s) t = value_from-append (a * 10 + (c - b'0')) s t

-- Texts of one length: a larger number in front makes the larger number.
pub value_from-lt :
    (a b : ℕ) (s t : Text)
    → a < b
    → length s ≡ length t
    → IsDigits s
    → IsDigits t
    → value_from a s < value_from b t
unfolding value_from
value_from-lt a b [] [] h e ds dt = h
value_from-lt a b [] (d ∷ t) h e ds dt = absurd (omega arith)
value_from-lt a b (c ∷ s) [] h e ds dt = absurd (omega arith)
value_from-lt a b (c ∷ s) (d ∷ t) h e ds dt =
    value_from-lt (a * 10 + (c - b'0')) (b * 10 + (d - b'0')) s t (omega arith) (omega arith) ds.1
      dt.1

-- Texts of one length: the order of the texts is the order of the numbers.
pub value_from-text_lt :
    (a : ℕ) (s t : Text)
    → length s ≡ length t
    → IsDigits s
    → IsDigits t
    → text_lt s t ≡ true
    → value_from a s < value_from a t
unfolding value_from text_lt
value_from-text_lt a [] [] e ds dt h = cc
value_from-text_lt a [] (d ∷ t) e ds dt h = absurd (omega arith)
value_from-text_lt a (c ∷ s) [] e ds dt h = cc
value_from-text_lt a (c ∷ s) (d ∷ t) e ds dt h = ground (
  arith,
  value_from-lt (a * 10 + (c - b'0')) (a * 10 + (d - b'0')) s t,
  value_from-text_lt (a * 10 + (c - b'0')) s t,
)

pub text_lt_total : (s t : Text) → text_lt s t ≡ false → text_eq s t ≡ false → text_lt t s ≡ true
unfolding text_lt text_eq
text_lt_total [] [] h k = cc
text_lt_total [] (d ∷ t) h k = cc
text_lt_total (c ∷ s) [] h k = refl
text_lt_total (c ∷ s) (d ∷ t) h k = ground (arith, text_lt_total s t)

pub value_from-pos : (a : ℕ) (s : Text) → 0 < a → 0 < value_from a s
unfolding value_from
value_from-pos a [] h = h
value_from-pos a (c ∷ s) h = value_from-pos (a * 10 + (c - b'0')) s (omega arith)

-- A text of digits is less than one that is as long and has more than 0 in front.
pub value_from-shorter :
    (a : ℕ) (s t : Text)
    → 0 < a
    → length s ≤ length t
    → IsDigits s
    → IsDigits t
    → value_from 0 s < value_from a t
unfolding value_from
value_from-shorter a [] [] h e ds dt = h
value_from-shorter a (c ∷ s) [] h e ds dt = absurd (omega arith)
value_from-shorter a s (d ∷ t) h e ds dt = elim (dec_le (length s) (length t)) [
  | yes p ↦ value_from-shorter (a * 10 + (d - b'0')) s t (omega arith) p ds dt.1
  | no p ↦ value_from-lt 0 a s (d ∷ t) h (omega arith) ds dt
]

-- A whole number written out: no zero stands in front of other digits.
abbrev pub Leads : Text → Type 0
Leads [] = ⊥
Leads (c ∷ s) = (b'0' < c) ⊎ (s ≡ [])

digits_before-IsDigits :
    (fuel n : ℕ) (out : Text) → IsDigits out → IsDigits (digits_before fuel n out)
unfolding digits_before
digits_before-IsDigits zero n out h = h
digits_before-IsDigits (suc fuel) n out h = elim (Bool-cases (ltb n 10)) [
  | inl small ↦ rw (small, digits_before) ((omega arith, omega arith), h)
  | inr large ↦
      rw (large, digits_before)
        (digits_before-IsDigits fuel (n / 10) _ ((omega arith, omega arith), h))
]

digits_before-Leads :
    (fuel n : ℕ) (out : Text) → 0 < n → n < fuel → Leads (digits_before fuel n out)
unfolding digits_before
digits_before-Leads zero n out p h = absurd (omega arith)
digits_before-Leads (suc fuel) n out p h = elim (Bool-cases (ltb n 10)) [
  | inl small ↦ rw (small, digits_before) (inl (ground arith))
  | inr large ↦
      rw (large, digits_before) (digits_before-Leads fuel (n / 10) _ (ground arith) (ground arith))
]

pub to_digits-IsDigits : (n : ℕ) → IsDigits (to_digits n)
unfolding to_digits
to_digits-IsDigits n = digits_before-IsDigits (n + 1) n [] tt

pub to_digits-Leads : (n : ℕ) → Leads (to_digits n)
unfolding to_digits
to_digits-Leads zero = inr refl
to_digits-Leads (suc n) = digits_before-Leads (suc n + 1) (suc n) [] (omega arith) (omega arith)
