-- ===== src/Decimal/Magnitude.antt =====
-- `_compare_magnitude` orders the numbers that the digits write.
use Prim.Native.Nat.{compare}
use verify_run.Base.{
  ℕ, zero, suc, ◌+◌, ◌-◌, ◌≤◌, ◌<◌, max, ◌≡◌, refl, sym, ap, subst, ◌∙◌, inl, inr, true, Text, [],
  ◌∷◌, ◌++◌, length, replicate, All-append, length-append, length-replicate, text_lt, text_eq_iff,
  arith, replicate-add,
}
use mathlib.Core.List.{append_assoc}
use verify_run.Base.Digits.{
  IsDigit, IsDigits, Leads, value_from, digits_value, value_from-append, value_from-lt,
  value_from-text_lt, text_lt_total, value_from-shorter,
}
use verify_run.Decimal.{Parts, ljust, compare_magnitude}

-- The magnitude, times 10 ^ `width`: the whole digits and then the fraction, filled up with zeros.
abbrev pub scaled_magnitude : ℕ → Parts → ℕ
scaled_magnitude width p = digits_value (p.whole ++ ljust width p.fraction)

pub record IsParts (p : Parts) : Type 0 where
  pub whole_digits : IsDigits p.whole
  pub whole_leads : Leads p.whole
  pub fraction_digits : IsDigits p.fraction

abbrev pub zeros : ℕ → Text
zeros n = replicate n b'0'

zeros-IsDigits : (n : ℕ) → IsDigits (zeros n)
zeros-IsDigits zero = tt
zeros-IsDigits (suc n) = ((omega arith, omega arith), zeros-IsDigits n)

pub ljust-IsDigits : (width : ℕ) (s : Text) → IsDigits s → IsDigits (ljust width s)
ljust-IsDigits width s h =
    All-append IsDigit s (zeros (width - length s)) h (zeros-IsDigits (width - length s))

length-ljust : (width : ℕ) (s : Text) → length s ≤ width → length (ljust width s) ≡ width
length-ljust width s h = omega (
  arith,
  length-append s (zeros (width - length s)),
  length-replicate {A = ℕ} (width - length s) b'0',
)

ljust-wider : (m k : ℕ) (s : Text) → length s ≤ m → ljust (m + k) s ≡ ljust m s ++ zeros k
ljust-wider m k s h =
    let e : m + k - length s ≡ (m - length s) + k = omega arith in
    ap (λ n. s ++ zeros n) e
    ∙ ap (◌++◌ s) (replicate-add (m - length s) k b'0')
    ∙ sym (append_assoc s (zeros (m - length s)) (zeros k))

-- A wider scale puts zeros behind.
pub scaled-wider :
    (m k : ℕ) (p : Parts)
    → length p.fraction ≤ m
    → scaled_magnitude (m + k) p ≡ value_from (scaled_magnitude m p) (zeros k)
scaled-wider m k p h =
    ap (λ t. digits_value (p.whole ++ t)) (ljust-wider m k p.fraction h)
    ∙ ap digits_value (sym (append_assoc p.whole (ljust m p.fraction) (zeros k)))
    ∙ value_from-append 0 (p.whole ++ ljust m p.fraction) (zeros k)

shorter-append :
    (s t u v : Text)
    → length s < length t
    → length u ≡ length v
    → IsDigits (s ++ u)
    → IsDigits (t ++ v)
    → Leads s
    → Leads t
    → digits_value (s ++ u) < digits_value (t ++ v)
shorter-append [] t u v h e du dv ls lt = absurd ls
shorter-append (c ∷ s) [] u v h e du dv ls lt = absurd lt
shorter-append (c ∷ s) (d ∷ t) u v h e du dv ls (inr alone) = absurd (ground (arith, alone))
shorter-append (c ∷ s) (d ∷ t) u v h e du dv ls (inl large) =
    unfold value_from in
    value_from-shorter (0 + (d - b'0')) (c ∷ s ++ u) (t ++ v) (omega arith)
      (omega (arith, length-append s u, length-append t v)) du dv.1

module _ (a b : Parts) (ha : IsParts a) (hb : IsParts b) (width : ℕ)
    (wa : length a.fraction ≤ width) (wb : length b.fraction ≤ width) where
  abbrev padded_a : Text
  padded_a = ljust width a.fraction

  abbrev padded_b : Text
  padded_b = ljust width b.fraction

  same_width : length padded_a ≡ length padded_b
  same_width = omega (arith, length-ljust width a.fraction wa, length-ljust width b.fraction wb)

  pub shorter_whole :
      length a.whole < length b.whole → scaled_magnitude width a < scaled_magnitude width b
  shorter_whole h =
      shorter-append a.whole b.whole padded_a padded_b h same_width
        (All-append IsDigit a.whole padded_a ha.whole_digits
          (ljust-IsDigits width a.fraction ha.fraction_digits))
        (All-append IsDigit b.whole padded_b hb.whole_digits
          (ljust-IsDigits width b.fraction hb.fraction_digits))
        ha.whole_leads hb.whole_leads

  pub smaller_whole :
      length a.whole ≡ length b.whole
      → text_lt a.whole b.whole ≡ true
      → scaled_magnitude width a < scaled_magnitude width b
  smaller_whole e h =
      rw (value_from-append 0 a.whole padded_a, value_from-append 0 b.whole padded_b)
        (value_from-lt (digits_value a.whole) (digits_value b.whole) padded_a padded_b
          (value_from-text_lt 0 a.whole b.whole e ha.whole_digits hb.whole_digits h) same_width
          (ljust-IsDigits width a.fraction ha.fraction_digits)
          (ljust-IsDigits width b.fraction hb.fraction_digits))

  pub smaller_fraction :
      a.whole ≡ b.whole
      → text_lt padded_a padded_b ≡ true
      → scaled_magnitude width a < scaled_magnitude width b
  smaller_fraction e h =
      rw (value_from-append 0 a.whole padded_a, value_from-append 0 b.whole padded_b, e)
        (value_from-text_lt (digits_value b.whole) padded_a padded_b same_width
          (ljust-IsDigits width a.fraction ha.fraction_digits)
          (ljust-IsDigits width b.fraction hb.fraction_digits) h)

-- The order that `_compare_magnitude` returns, at any scale that holds both fractions.
module _ (a b : Parts) (ha : IsParts a) (hb : IsParts b) (width : ℕ)
    (wa : length a.fraction ≤ width) (wb : length b.fraction ≤ width) where
  abbrev common : ℕ
  common = max (length a.fraction) (length b.fraction)

  abbrev extra : ℕ
  extra = width - common

  abbrev scale : Parts → ℕ
  scale = scaled_magnitude (common + extra)

  larger_fraction :
      (x y : Parts)
      → length x.fraction ≤ common
      → length y.fraction ≤ common
      → scaled_magnitude common x < scaled_magnitude common y
      → scale x < scale y
  larger_fraction x y hx hy h =
      rw (scaled-wider common extra x hx, scaled-wider common extra y hy)
        (value_from-lt (scaled_magnitude common x) (scaled_magnitude common y) (zeros extra)
          (zeros extra) h refl (zeros-IsDigits extra) (zeros-IsDigits extra))

  before :
      (x y : Parts)
      → IsParts x
      → IsParts y
      → length x.fraction ≤ common
      → length y.fraction ≤ common
      → x.whole ≡ y.whole
      → text_lt (ljust common x.fraction) (ljust common y.fraction) ≡ true
      → scale x < scale y
  before x y ix iy hx hy e h =
      larger_fraction x y hx hy (smaller_fraction x y ix iy common hx hy e h)

  same : a.whole ≡ b.whole → ljust common a.fraction ≡ ljust common b.fraction → scale a ≡ scale b
  same e h =
      scaled-wider common extra a (omega arith)
      ∙ ap (λ t. value_from t (zeros extra))
          (ap (λ t. digits_value (t ++ ljust common a.fraction)) e
            ∙ ap (λ t. digits_value (b.whole ++ t)) h)
      ∙ sym (scaled-wider common extra b (omega arith))

  compare_common : compare_magnitude a b ≡ compare (scale a) (scale b)
  unfolding compare_magnitude
  compare_common = ground (
    arith,
    shorter_whole a b ha hb (common + extra) (omega arith) (omega arith),
    shorter_whole b a hb ha (common + extra) (omega arith) (omega arith),
    smaller_whole a b ha hb (common + extra) (omega arith) (omega arith),
    smaller_whole b a hb ha (common + extra) (omega arith) (omega arith),
    before a b ha hb (omega arith) (omega arith),
    before b a hb ha (omega arith) (omega arith),
    same,
    text_eq_iff a.whole b.whole,
    text_eq_iff (ljust common a.fraction) (ljust common b.fraction),
    text_lt_total a.whole b.whole,
    text_lt_total (ljust common a.fraction) (ljust common b.fraction),
  )

  pub compare_magnitude_lem :
      compare_magnitude a b ≡ compare (scaled_magnitude width a) (scaled_magnitude width b)
  compare_magnitude_lem =
      let e : common + extra ≡ width = omega arith in
      subst (λ w. compare_magnitude a b ≡ compare (scaled_magnitude w a) (scaled_magnitude w b)) e
        compare_common
