-- ===== src/Samples/Decimal.antt =====
-- vfy/gate.py: `_compare_numeric` at concrete operands.
use Prim.Native.Nat.{Ordering}
use verify_run.Base.{◌≡◌, refl, some, none, codes, List, [], ◌∷◌}
use verify_run.Base.Int.{pos, negsuc, compare_ℤ}
use verify_run.Value.{str, int}
use verify_run.Decimal.{compare_numeric}
use verify_run.Decimal.Exact.{scaled_value, compare_numeric-exact}

scaled_left : scaled_value 2 (str (codes "-0.05")) ≡ some (negsuc 4)
unfolding scaled_value verify_run.Decimal.match_decimal verify_run.Base.Digits.value_from
scaled_left = refl

scaled_right : scaled_value 2 (int (pos 3)) ≡ some (pos 300)
unfolding scaled_value
scaled_right = refl

compare_numeric-exact_example :
    compare_numeric (str (codes "-0.05")) (int (pos 3)) ≡ some (compare_ℤ (negsuc 4) (pos 300))
compare_numeric-exact_example =
    compare_numeric-exact (str (codes "-0.05")) (int (pos 3)) 2 (negsuc 4) (pos 300) scaled_left
      scaled_right

negative_zero : compare_numeric (str (codes "-0.0")) (int (pos 0)) ≡ some Ordering.eq
unfolding compare_numeric verify_run.Decimal.numeric_parts verify_run.Decimal.compare_parts
    verify_run.Base.Digits.to_digits
negative_zero = refl

no_number : compare_numeric (str (codes "01")) (int (pos 1)) ≡ none
unfolding compare_numeric verify_run.Decimal.numeric_parts
no_number = refl
