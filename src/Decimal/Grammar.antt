-- ===== src/Decimal/Grammar.antt =====
-- What a match of `_DECIMAL` gives: whole digits with no zero in front, and fraction digits.
use verify_run.Base.{
  ◌<◌, ◌≡◌, ◌&&◌, refl, subst, inl, inr, Bool, true, false, some, Text, [], ◌∷◌, ◌++◌, All-append,
  ◌==◌, arith, Bool-cases,
}
use mathlib.Core.Option.{some-injective}
use verify_run.Base.Digits.{IsDigit, IsDigits, Leads}
use verify_run.Decimal.{
  Groups, is_digit, digits_only, match_fraction, match_digits, match_whole, match_decimal,
}

pub record IsGroups (g : Groups) : Type 0 where
  pub whole_digits : IsDigits g.whole
  pub whole_leads : Leads g.whole
  pub fraction_digits : IsDigits g.fraction

digits_only-IsDigits : (s : Text) → digits_only s ≡ true → IsDigits s
unfolding digits_only is_digit
digits_only-IsDigits [] h = tt
digits_only-IsDigits (c ∷ s) h = (ground arith, digits_only-IsDigits s (ground arith))

abbrev Begins : Text → Type 0
Begins [] = ⊥
Begins (c ∷ s) = b'0' < c

Begins-append : (s t : Text) → Begins s → Begins (s ++ t)
Begins-append [] t h = absurd h
Begins-append (c ∷ s) t h = h

Begins-Leads : (s : Text) → Begins s → Leads s
Begins-Leads [] h = h
Begins-Leads (c ∷ s) h = inl h

module _ (sign : Bool) where
  match_fraction-IsGroups :
      (whole s : Text) (g : Groups)
      → IsDigits whole
      → Leads whole
      → match_fraction sign whole s ≡ some g
      → IsGroups g
  unfolding match_fraction
  match_fraction-IsGroups whole [] g d l h =
      subst IsGroups (some-injective _ _ h)
        (record { whole_digits = d; whole_leads = l; fraction_digits = tt })
  match_fraction-IsGroups whole (c ∷ []) g d l h = cc
  match_fraction-IsGroups whole (c ∷ e ∷ s) g d l h =
      elim (Bool-cases ((c == b'.') && digits_only (e ∷ s))) [
        | inr off ↦ ground arith
        | inl on ↦ subst IsGroups (some-injective _ _ (rw on at h)) (record {
          whole_digits = d;
          whole_leads = l;
          fraction_digits = digits_only-IsDigits (e ∷ s) (ground arith);
        })
      ]

  match_digits-IsGroups :
      (whole s : Text) (g : Groups)
      → IsDigits whole
      → Begins whole
      → match_digits sign whole s ≡ some g
      → IsGroups g
  unfolding match_digits is_digit
  match_digits-IsGroups whole [] g d l h =
      match_fraction-IsGroups whole [] g d (Begins-Leads whole l) h
  match_digits-IsGroups whole (c ∷ s) g d l h = elim (Bool-cases (is_digit c)) [
    | inl on ↦
        match_digits-IsGroups (whole ++ c ∷ []) s g
          (All-append IsDigit whole (c ∷ []) d (ground arith, tt)) (Begins-append whole (c ∷ []) l)
          (rw (on, match_digits) at h)
    | inr off ↦
        match_fraction-IsGroups whole (c ∷ s) g d (Begins-Leads whole l)
          (rw (off, match_digits) at h)
  ]

  match_whole-IsGroups : (s : Text) (g : Groups) → match_whole sign s ≡ some g → IsGroups g
  unfolding match_whole is_digit
  match_whole-IsGroups [] g h = cc
  match_whole-IsGroups (c ∷ s) g h = elim (Bool-cases (c == b'0')) [
    | inl zeroed ↦
        match_fraction-IsGroups (c ∷ []) s g (ground arith, tt) (inr refl) (rw zeroed at h)
    | inr other ↦ elim (Bool-cases (is_digit c)) [
      | inl on ↦
          match_digits-IsGroups (c ∷ []) s g (ground arith, tt) (ground arith) (rw (other, on) at h)
      | inr off ↦ cc (rw (other, off) at h)
    ]
  ]

pub match_decimal-IsGroups : (s : Text) (g : Groups) → match_decimal s ≡ some g → IsGroups g
unfolding match_decimal
match_decimal-IsGroups [] g h = cc
match_decimal-IsGroups (c ∷ s) g h = elim (Bool-cases (c == b'-')) [
  | inl minus ↦ match_whole-IsGroups true s g (rw minus at h)
  | inr plus ↦ match_whole-IsGroups false (c ∷ s) g (rw plus at h)
]
