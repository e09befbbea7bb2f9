-- ===== src/Decimal/Exact.antt =====
-- `_compare_numeric` against the exact rational values of its operands.
use native.Mathlib.Nat.{pow-succ', one-le-pow}
use mathlib.Core.Path.{ap₂}
use mathlib.Core.Option.{some-injective}
use verify_run.Base.{
  ℕ, zero, suc, ◌+◌, ◌-◌, ◌*◌, ◌^◌, ◌≤◌, ◌<◌, ◌≡◌, refl, ap, subst, ◌∙◌, Bool, true, false, Option,
  none, some, Text, [], ◌∷◌, ◌++◌, length, length-append, ◌⊎◌, length-replicate, ltb, ◌||◌, arith,
  Bool-cases, if◌then◌else◌, Option-cases, inl, inr,
}
use verify_run.Base.Digits.{
  value_from, digits_value, value_from-append, to_digits, digits_value-to_digits,
  to_digits-IsDigits, to_digits-Leads,
}
use verify_run.Base.Int.{ℤ, pos, negsuc, is_negative, abs, compare_ℤ}
use verify_run.Value.{Value, int, str}
use verify_run.Decimal.{
  Groups, match_decimal, Parts, numeric_parts, ljust, max_numeric_digits, compare_parts,
  compare_numeric,
}
use verify_run.Decimal.Grammar.{IsGroups, match_decimal-IsGroups}
use verify_run.Decimal.Magnitude.{zeros, scaled_magnitude, compare_magnitude_lem}
use verify_run.Decimal.Canonical.{
  IsNumber, digits_value-zeros, decimal_parts-sign, decimal_parts-some, decimal_parts-IsNumber,
  length-decimal_parts, scaled-decimal_parts,
}

-- n or -n
abbrev pub signed : Bool → ℕ → ℤ
signed false n = pos n
signed true zero = pos 0
signed true (suc n) = negsuc n

-- The exact value of a matched decimal, times 10 ^ `width`.
abbrev pub scaled_groups : ℕ → Groups → ℤ
scaled_groups width g =
    signed g.sign (
      digits_value g.whole * 10 ^ width
      + digits_value g.fraction * 10 ^ (width - length g.fraction))

abbrev scaled_match : ℕ → Option Groups → Option ℤ
scaled_match width none = none
scaled_match width (some g) =
    if ltb width (length g.fraction) || ltb max_numeric_digits (length g.whole + length g.fraction)
    then none
    else some (scaled_groups width g)

-- The exact value of a numeric operand, times 10 ^ `width`, as an integer; `none` where it is not
-- numeric, where the scale leaves part of its fraction, or past the declared bound on digits.
unfoldable pub scaled_value : ℕ → Value → Option ℤ
scaled_value width (int z) = some (signed (is_negative z) (abs z * 10 ^ width))
scaled_value width (str text) = scaled_match width (match_decimal text)
scaled_value width _ = none

value_from-split : (a : ℕ) (s : Text) → value_from a s ≡ a * 10 ^ length s + digits_value s
unfolding value_from
value_from-split a [] = omega arith
value_from-split a (c ∷ s) = omega (
  arith,
  value_from-split (a * 10 + (c - b'0')) s,
  value_from-split (0 + (c - b'0')) s,
  ap (λ (t : ℕ). a * t) (pow-succ' 10 (length s)),
)

module _ (a b : Parts) (ha : IsNumber a) (hb : IsNumber b) (width : ℕ)
    (wa : length a.fraction ≤ width) (wb : length b.fraction ≤ width) where
  compare_parts_lem :
      compare_parts a b
      ≡ compare_ℤ
          (signed a.negative (scaled_magnitude width a))
          (signed b.negative (scaled_magnitude width b))
  unfolding compare_parts
  compare_parts_lem = ground (
    arith,
    compare_magnitude_lem a b ha.parts hb.parts width wa wb,
    λ (h : a.negative ≡ true). ha.nonzero h width,
    λ (h : b.negative ≡ true). hb.nonzero h width,
  )

-- The parts of an operand carry its exact value.
record Carries (width : ℕ) (v : Value) (x : ℤ) : Type 0 where
  p : Parts
  found : numeric_parts v ≡ some p
  number : IsNumber p
  fits : length p.fraction ≤ width
  worth : signed p.negative (scaled_magnitude width p) ≡ x

abbrev int_parts : ℤ → Parts
int_parts z = record { negative = is_negative z; whole = to_digits (abs z); fraction = [] }

scaled-groups :
    (g : Groups) (width : ℕ)
    → length g.fraction ≤ width
    → digits_value (g.whole ++ ljust width g.fraction)
      ≡ digits_value g.whole * 10 ^ width
        + digits_value g.fraction * 10 ^ (width - length g.fraction)
scaled-groups g width h =
    let k : ℕ = width - length g.fraction in
    let e : length (g.fraction ++ zeros k) ≡ width =
      omega (arith, length-append g.fraction (zeros k), length-replicate {A = ℕ} k b'0') in
    omega (
      arith,
      value_from-append 0 g.whole (g.fraction ++ zeros k),
      value_from-split (digits_value g.whole) (g.fraction ++ zeros k),
      ap (λ (n : ℕ). digits_value g.whole * 10 ^ n) e,
      value_from-append 0 g.fraction (zeros k),
      value_from-split (digits_value g.fraction) (zeros k),
      ap (λ (n : ℕ). digits_value g.fraction * 10 ^ n) (length-replicate {A = ℕ} k b'0'),
      digits_value-zeros k,
    )

abbrev int_groups : ℤ → Groups
int_groups z = record { sign = is_negative z; whole = to_digits (abs z); fraction = [] }

scaled-int_parts : (z : ℤ) (width : ℕ) → scaled_magnitude width (int_parts z) ≡ abs z * 10 ^ width
unfolding value_from
scaled-int_parts z width = omega (
  arith,
  scaled-groups (int_groups z) width (omega arith),
  ap (λ (n : ℕ). n * 10 ^ width) (digits_value-to_digits (abs z)),
)

int_parts-nonzero :
    (z : ℤ) (width : ℕ) → is_negative z ≡ true → 0 < scaled_magnitude width (int_parts z)
int_parts-nonzero (pos n) width h = cc
int_parts-nonzero (negsuc n) width h =
    grind (arith, scaled-int_parts (negsuc n) width, one-le-pow width 10)

Carries-int :
    (width : ℕ) (z : ℤ) → Carries width (int z) (signed (is_negative z) (abs z * 10 ^ width))
unfolding numeric_parts
Carries-int width z = record {
  p = int_parts z;
  found = refl;
  number = record {
    parts = record {
      whole_digits = to_digits-IsDigits (abs z);
      whole_leads = to_digits-Leads (abs z);
      fraction_digits = tt;
    };
    nonzero = λ h w. int_parts-nonzero z w h;
  };
  fits = omega arith;
  worth = ap (signed (is_negative z)) (scaled-int_parts z width);
}

same_signed :
    (n s : Bool) (m : ℕ) → (s ≡ n) ⊎ ((s ≡ true) × (n ≡ false) × (m ≡ 0)) → signed n m ≡ signed s m
same_signed n s m h = ground arith

Carries-str :
    (width : ℕ) (text : Text) (g : Groups)
    → match_decimal text ≡ some g
    → length g.fraction ≤ width
    → length g.whole + length g.fraction ≤ max_numeric_digits
    → Carries width (str text) (scaled_groups width g)
unfolding numeric_parts
Carries-str width text g e h k =
    let ok : IsGroups g = match_decimal-IsGroups text g e in
    let (p, made) = decimal_parts-some g k in
    record {
      p = p;
      found = rw e made;
      number = decimal_parts-IsNumber g ok p made;
      fits = omega (arith, length-decimal_parts g ok p made);
      worth =
          same_signed p.negative g.sign _ (decimal_parts-sign g ok p made width)
          ∙ ap (signed g.sign) (scaled-decimal_parts g ok p made width h ∙ scaled-groups g width h);
    }

scaled_match-some :
    (width : ℕ) (g : Groups) (x : ℤ)
    → scaled_match width (some g) ≡ some x
    → (length g.fraction ≤ width)
      × (length g.whole + length g.fraction ≤ max_numeric_digits)
      × (scaled_groups width g ≡ x)
scaled_match-some width g x h =
    elim (Bool-cases (
      ltb width (length g.fraction)
      || ltb max_numeric_digits (length g.whole + length g.fraction))) [
        | inl out ↦ cc (rw out at h)
        | inr within ↦ (ground arith, ground arith, some-injective _ _ (rw within at h))
      ]

Carries-value : (width : ℕ) (v : Value) (x : ℤ) → scaled_value width v ≡ some x → Carries width v x
unfolding scaled_value
Carries-value width (int z) x h =
    subst (Carries width (int z)) (some-injective _ _ h) (Carries-int width z)
Carries-value width (str text) x h = elim (Option-cases (match_decimal text)) [
  | inl e ↦ cc (rw e at h)
  | inr (g, e) ↦
      let (fits, short, worth) = scaled_match-some width g x (rw e at h) in
      subst (Carries width (str text)) worth (Carries-str width text g e fits short)
]
Carries-value width _ x h = cc

-- Where both operands are numeric, at any common scale that leaves none of their digits out, the
-- comparison succeeds and is the order of the exact values.
pub compare_numeric-exact :
    (left right : Value) (width : ℕ) (x y : ℤ)
    → scaled_value width left ≡ some x
    → scaled_value width right ≡ some y
    → compare_numeric left right ≡ some (compare_ℤ x y)
unfolding compare_numeric
compare_numeric-exact left right width x y h k =
    let a : Carries width left x = Carries-value width left x h in
    let b : Carries width right y = Carries-value width right y k in
    rw (a.found, b.found)
      (ap some (
        compare_parts_lem a.p b.p a.number b.number width a.fits b.fits
        ∙ ap₂ compare_ℤ a.worth b.worth))
