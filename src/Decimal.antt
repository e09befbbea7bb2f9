-- ===== src/Decimal.antt =====
-- vfy/gate.py: exact numeric comparison on digit texts, `_DECIMAL`, `_numeric_parts`,
-- `_compare_magnitude` and `_compare_numeric`.
pub mod Grammar
pub mod Canonical
pub mod Magnitude
pub mod Exact
use Prim.Native.Nat.{Ordering}
use verify_run.Base.{
  ℕ, ◌+◌, ◌-◌, Bool, true, false, not, ◌&&◌, ◌||◌, Option, none, some, [], ◌∷◌, ◌++◌, Text, codes,
  length, replicate, max, ltb, leb, ◌==◌, text_eq, text_lt, if◌then◌else◌,
}
use verify_run.Base.Digits.{to_digits}
use verify_run.Base.Int.{is_negative, abs}
use verify_run.Value.{Value, bool, int, str}

abbrev pub max_numeric_digits : ℕ
max_numeric_digits = 1024

-- The three groups of the regular expression `_DECIMAL`: the sign, the whole digits and the
-- fraction digits, `""` where the fraction is not there.
pub record Groups : Type 0 where
  pub sign : Bool
  pub whole : Text
  pub fraction : Text

is_digit : ℕ → Bool
is_digit c = leb b'0' c && leb c b'9'

-- `[0-9]*` up to the end of the text.
digits_only : Text → Bool
digits_only [] = true
digits_only (c ∷ s) = is_digit c && digits_only s

-- `(?:\.([0-9]+))?\Z`
match_fraction : Bool → Text → Text → Option Groups
unfolding is_digit digits_only
match_fraction sign whole [] = some (record { sign = sign; whole = whole; fraction = [] })
match_fraction sign whole (c ∷ []) = none
match_fraction sign whole (c ∷ d ∷ s) =
    if (c == b'.') && digits_only (d ∷ s)
    then some (record { sign = sign; whole = whole; fraction = d ∷ s })
    else none

-- `[0-9]*`, greedy: the digits read so far, and then the rest of the pattern.
match_digits : Bool → Text → Text → Option Groups
unfolding match_fraction
match_digits sign read [] = match_fraction sign read []
match_digits sign read (c ∷ s) = elim (is_digit c) [
  | true ↦ match_digits sign (read ++ c ∷ []) s
  | false ↦ match_fraction sign read (c ∷ s)
]

-- `(0|[1-9][0-9]*)`
match_whole : Bool → Text → Option Groups
unfolding match_digits
match_whole sign [] = none
match_whole sign (c ∷ s) =
    if c == b'0'
    then match_fraction sign (c ∷ []) s
    else if is_digit c
    then match_digits sign (c ∷ []) s
    else none

-- `_DECIMAL.match(value)`
unfoldable pub match_decimal : Text → Option Groups
unfolding match_whole
match_decimal [] = none
match_decimal (c ∷ s) = if c == b'-' then match_whole true s else match_whole false (c ∷ s)

-- `whole.lstrip("0")`
unfoldable pub lstrip : Text → Text
lstrip [] = []
lstrip (c ∷ s) = let rest = lstrip s in if c == b'0' then rest else c ∷ s

-- One more code point in front of a text that is stripped.
abbrev rstrip_step : ℕ → Text → Text
rstrip_step c [] = if c == b'0' then [] else c ∷ []
rstrip_step c (d ∷ t) = c ∷ d ∷ t

-- `fraction.rstrip("0")`
unfoldable pub rstrip : Text → Text
rstrip [] = []
rstrip (c ∷ s) = rstrip_step c (rstrip s)

-- `text or "0"`
abbrev or_zero : Text → Text
or_zero [] = b'0' ∷ []
or_zero (c ∷ s) = c ∷ s

-- The triple that `_numeric_parts` returns; `negative` is the sign -1.
pub record Parts : Type 0 where
  pub negative : Bool
  pub whole : Text
  pub fraction : Text

-- `_numeric_parts`, behind a match.
unfoldable pub decimal_parts : Groups → Option Parts
unfolding lstrip rstrip
decimal_parts g =
    let whole = or_zero (lstrip g.whole) in
    let fraction = rstrip g.fraction in
    if ltb max_numeric_digits (length g.whole + length g.fraction)
    then none
    else some (record {
      negative = g.sign && (not (text_eq whole (codes "0")) || not (text_eq fraction []));
      whole = whole;
      fraction = fraction;
    })

abbrev parts_of_match : Option Groups → Option Parts
parts_of_match none = none
parts_of_match (some g) = decimal_parts g

unfoldable pub numeric_parts : Value → Option Parts
unfolding match_decimal decimal_parts
numeric_parts (int z) =
    some (record { negative = is_negative z; whole = to_digits (abs z); fraction = [] })
numeric_parts (str value) = parts_of_match (match_decimal value)
numeric_parts _ = none

-- `text.ljust(width, "0")`
abbrev pub ljust : ℕ → Text → Text
ljust width text = text ++ replicate (width - length text) b'0'

-- -1, 0 and 1 are `lt`, `eq` and `gt`.
unfoldable pub compare_magnitude : Parts → Parts → Ordering
unfolding text_eq text_lt
compare_magnitude first second =
    let width = max (length first.fraction) (length second.fraction) in
    let padded_a = ljust width first.fraction in
    let padded_b = ljust width second.fraction in
    if not (length first.whole == length second.whole)
    then (if ltb (length first.whole) (length second.whole) then Ordering.lt else Ordering.gt)
    else if not (text_eq first.whole second.whole)
    then (if text_lt first.whole second.whole then Ordering.lt else Ordering.gt)
    else if text_eq padded_a padded_b
    then Ordering.eq
    else if text_lt padded_a padded_b
    then Ordering.lt
    else Ordering.gt

-- `-order`
abbrev pub negated : Ordering → Ordering
negated Ordering.lt = Ordering.gt
negated Ordering.eq = Ordering.eq
negated Ordering.gt = Ordering.lt

-- `_compare_numeric`, where both sides are numeric.
unfoldable pub compare_parts : Parts → Parts → Ordering
unfolding compare_magnitude
compare_parts first second =
    if first.negative
    then (if second.negative then negated (compare_magnitude first second) else Ordering.lt)
    else (if second.negative then Ordering.gt else compare_magnitude first second)

abbrev both : Option Parts → Option Parts → Option Ordering
both (some first) (some second) = some (compare_parts first second)
both (some first) none = none
both none second = none

unfoldable pub compare_numeric : Value → Value → Option Ordering
compare_numeric left right = both (numeric_parts left) (numeric_parts right)
