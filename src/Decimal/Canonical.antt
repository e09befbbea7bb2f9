-- ===== src/Decimal/Canonical.antt =====
-- What `_numeric_parts` hand on: digits with no zeros to spare, worth what the text
-- was worth.
use verify_run.Base.{
  zero, false, Option-cases, ◌⊎◌, inl, inr, ℕ, suc, ◌+◌, ◌-◌, ◌*◌, ◌≤◌, ◌<◌, ◌≡◌, ◌≢◌, ◌&&◌, ◌||◌,
  not, codes, refl, sym, ap, subst, ◌∙◌, inl, inr, true, some, Text, [], ◌∷◌, ◌++◌, length,
  replicate-add, length-append, length-replicate, ltb, ◌==◌, text_eq, text_eq_iff, arith,
  Bool-cases,
}
use mathlib.Core.List.{append_assoc}
use mathlib.Core.Option.{some-injective}
use verify_run.Base.Digits.{
  IsDigit, IsDigits, Leads, value_from, digits_value, value_from-pos, value_from-append,
}
use verify_run.Decimal.{
  Groups, lstrip, rstrip_step, rstrip, or_zero, Parts, decimal_parts, ljust, max_numeric_digits,
}
use verify_run.Decimal.Grammar.{IsGroups}
use verify_run.Decimal.Magnitude.{zeros, IsParts, scaled_magnitude}

-- The whole digits are kept as they are.
lstrip_lem : (s : Text) → IsDigits s → Leads s → or_zero (lstrip s) ≡ s
unfolding lstrip
lstrip_lem [] d l = absurd l
lstrip_lem (c ∷ []) d h = ground arith
lstrip_lem (c ∷ e ∷ s) d (inl large) = ground arith
lstrip_lem (c ∷ e ∷ s) d (inr alone) = cc

-- What `rstrip` takes off is zeros.
rstrip_step-zeros :
    (c k : ℕ) (r : Text) → (n : ℕ) × (rstrip_step c r ++ zeros n ≡ c ∷ (r ++ zeros k))
rstrip_step-zeros c k (d ∷ t) = (k, refl)
rstrip_step-zeros c k [] = elim (Bool-cases (c == b'0')) [
  | inl zeroed ↦ (suc k, rw zeroed (ap (λ e. e ∷ zeros k) (ground arith)))
  | inr other ↦ (k, rw other)
]

rstrip-zeros : (s : Text) → (k : ℕ) × (rstrip s ++ zeros k ≡ s)
unfolding rstrip
rstrip-zeros [] = (0, refl)
rstrip-zeros (c ∷ s) =
    let (k, e) = rstrip-zeros s in
    let (n, h) = rstrip_step-zeros c k (rstrip s) in (n, h ∙ ap (◌∷◌ c) e)

rstrip_step-IsDigits : (c : ℕ) (r : Text) → IsDigit c → IsDigits r → IsDigits (rstrip_step c r)
rstrip_step-IsDigits c [] d h = elim (Bool-cases (c == b'0')) [
  | inl zeroed ↦ rw zeroed tt
  | inr other ↦ rw other (d, tt)
]
rstrip_step-IsDigits c (e ∷ t) d h = (d, h)

rstrip-IsDigits : (s : Text) → IsDigits s → IsDigits (rstrip s)
unfolding rstrip
rstrip-IsDigits [] d = tt
rstrip-IsDigits (c ∷ s) d = rstrip_step-IsDigits c (rstrip s) d.0 (rstrip-IsDigits s d.1)

-- A stripped fraction that is not empty is worth more than 0.
rstrip_step-pos :
    (a c : ℕ) (r z : Text)
    → IsDigit c
    → ((b : ℕ) → r ≢ [] → 0 < value_from b (r ++ z))
    → rstrip_step c r ≢ []
    → 0 < value_from a (rstrip_step c r ++ z)
unfolding value_from
rstrip_step-pos a c [] z d ih h = elim (Bool-cases (c == b'0')) [
  | inl zeroed ↦ absurd (h (rw zeroed))
  | inr other ↦ rw other (value_from-pos _ z (ground arith))
]
rstrip_step-pos a c (e ∷ t) z d ih h = ih (a * 10 + (c - b'0')) (λ k. cc)

rstrip-pos : (a : ℕ) (s z : Text) → IsDigits s → rstrip s ≢ [] → 0 < value_from a (rstrip s ++ z)
unfolding rstrip
rstrip-pos a [] z d h = absurd (h refl)
rstrip-pos a (c ∷ s) z d h = rstrip_step-pos a c (rstrip s) z d.0 (λ b k. rstrip-pos b s z d.1 k) h

length-rstrip : (s : Text) → length (rstrip s) ≤ length s
length-rstrip s =
    let (k, e) = rstrip-zeros s in omega (arith, length-append (rstrip s) (zeros k), ap length e)

ljust-rstrip : (width : ℕ) (s : Text) → length s ≤ width → ljust width (rstrip s) ≡ ljust width s
ljust-rstrip width s h =
    let (k, e) = rstrip-zeros s in
    let more : width - length (rstrip s) ≡ k + (width - length s) =
      omega
        (arith, length-append (rstrip s) (zeros k), length-replicate {A = ℕ} k b'0', ap length e) in
    ap (λ n. rstrip s ++ zeros n) more
    ∙ ap (◌++◌ (rstrip s)) (replicate-add k (width - length s) b'0')
    ∙ sym (append_assoc (rstrip s) (zeros k) (zeros (width - length s)))
    ∙ ap (λ t. t ++ zeros (width - length s)) e

pub record IsNumber (p : Parts) : Type 0 where
  pub parts : IsParts p
  pub nonzero : p.negative ≡ true → (width : ℕ) → 0 < scaled_magnitude width p

pub digits_value-zeros : (n : ℕ) → digits_value (zeros n) ≡ 0
unfolding value_from
digits_value-zeros zero = refl
digits_value-zeros (suc n) = digits_value-zeros n

whole-pos : (s t : Text) → IsDigits s → Leads s → s ≢ b'0' ∷ [] → 0 < digits_value (s ++ t)
unfolding value_from
whole-pos [] t d l h = absurd l
whole-pos (c ∷ s) t d (inl large) h = value_from-pos _ (s ++ t) (omega arith)
whole-pos (c ∷ s) t d (inr alone) h = elim (Bool-cases (c == b'0')) [
  | inl zeroed ↦ let e : c ≡ b'0' = ground arith in absurd (h (cc (e, alone)))
  | inr other ↦ value_from-pos _ (s ++ t) (ground arith)
]

-- The parts of a matched text are canonical, and are worth what its digits are worth.
module _ (g : Groups) (ok : IsGroups g) (p : Parts) (made : decimal_parts g ≡ some p) where
  abbrev stripped : Parts
  stripped = record {
    negative =
        g.sign && (not (text_eq g.whole (codes "0")) || not (text_eq (rstrip g.fraction) []));
    whole = g.whole;
    fraction = rstrip g.fraction;
  }

  decimal_parts_lem : stripped ≡ p
  unfolding decimal_parts
  decimal_parts_lem =
      elim (Bool-cases (ltb max_numeric_digits (length g.whole + length g.fraction))) [
        | inl long ↦ cc (rw long at made)
        | inr short ↦
            some-injective _ _
              (rw (short, lstrip_lem g.whole ok.whole_digits ok.whole_leads) at made)
      ]

  abbrev filling : ℕ → Text
  filling width = zeros (width - length (rstrip g.fraction))

  stripped-nonzero : (width : ℕ) → stripped.negative ≡ true → 0 < scaled_magnitude width stripped
  stripped-nonzero width h = elim (Bool-cases (text_eq g.whole (codes "0"))) [
    | inr other ↦
        whole-pos g.whole (ljust width (rstrip g.fraction)) ok.whole_digits ok.whole_leads
          λ e. cc (other, (text_eq_iff g.whole (codes "0")).1 e)
    | inl zeroed ↦ rw (value_from-append 0 g.whole (ljust width (rstrip g.fraction))) (
        rstrip-pos (digits_value g.whole) g.fraction (filling width) ok.fraction_digits
          λ e. ground (arith, (text_eq_iff (rstrip g.fraction) []).1 e))
  ]

  stripped-IsNumber : IsNumber stripped
  stripped-IsNumber = record {
    parts = record {
      whole_digits = ok.whole_digits;
      whole_leads = ok.whole_leads;
      fraction_digits = rstrip-IsDigits g.fraction ok.fraction_digits;
    };
    nonzero = λ h width. stripped-nonzero width h;
  }

  pub decimal_parts-IsNumber : IsNumber p
  decimal_parts-IsNumber = subst IsNumber decimal_parts_lem stripped-IsNumber

  pub length-decimal_parts : length p.fraction ≤ length g.fraction
  length-decimal_parts =
      subst (λ q. length q.fraction ≤ length g.fraction) decimal_parts_lem
        (length-rstrip g.fraction)

  pub scaled-decimal_parts :
      (width : ℕ)
      → length g.fraction ≤ width
      → scaled_magnitude width p ≡ digits_value (g.whole ++ ljust width g.fraction)
  scaled-decimal_parts width h =
      subst (λ q. scaled_magnitude width q ≡ digits_value (g.whole ++ ljust width g.fraction))
        decimal_parts_lem (ap (λ t. digits_value (g.whole ++ t)) (ljust-rstrip width g.fraction h))

  stripped_zero :
      (width : ℕ) → g.sign ≡ true → stripped.negative ≡ false → scaled_magnitude width stripped ≡ 0
  unfolding value_from
  stripped_zero width h k =
      let w : g.whole ≡ codes "0" = ground (arith, text_eq_iff g.whole (codes "0")) in
      let f : rstrip g.fraction ≡ [] = ground (arith, text_eq_iff (rstrip g.fraction) []) in
      rw (w, f) (digits_value-zeros (width - 0))

  stripped_sign :
      (width : ℕ)
      → (g.sign ≡ stripped.negative)
        ⊎ ((g.sign ≡ true) × (stripped.negative ≡ false) × (scaled_magnitude width stripped ≡ 0))
  stripped_sign width = elim (Bool-cases g.sign) [
    | inr plus ↦ inl (ground arith)
    | inl minus ↦ elim (Bool-cases stripped.negative) [
      | inl n ↦ inl (minus ∙ sym n)
      | inr n ↦ inr (minus, n, stripped_zero width minus n)
    ]
  ]

  -- The sign is dropped only from a zero.
  pub decimal_parts-sign :
      (width : ℕ)
      → (g.sign ≡ p.negative)
        ⊎ ((g.sign ≡ true) × (p.negative ≡ false) × (scaled_magnitude width p ≡ 0))
  decimal_parts-sign width =
      subst
        (λ q.
          (g.sign ≡ q.negative)
          ⊎ ((g.sign ≡ true) × (q.negative ≡ false) × (scaled_magnitude width q ≡ 0)))
        decimal_parts_lem (stripped_sign width)

pub decimal_parts-some :
    (g : Groups)
    → length g.whole + length g.fraction ≤ max_numeric_digits
    → (p : Parts) × (decimal_parts g ≡ some p)
unfolding decimal_parts
decimal_parts-some g h = elim (Option-cases (decimal_parts g)) [
  | inl e ↦ absurd (ground arith)
  | inr (p, e) ↦ (p, e)
]
