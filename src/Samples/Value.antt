-- ===== src/Samples/Value.antt =====
-- vfy/gate.py: `_equal` at concrete values.
use verify_run.Base.{◌≡◌, ◌↔◌, true, false, codes}
use verify_run.Base.Int.{pos}
use verify_run.Value.{Value, list, dict, nil, cons, field, end}
use verify_run.Value.Equal.{equal, equal_iff, dict-coerces}

equal_iff_example :
    (equal (list (cons (Value.bool true) nil)) (list (cons (Value.int (pos 1)) nil)) ≡ true)
    ↔ (list (cons (Value.bool true) nil) ≡ list (cons (Value.int (pos 1)) nil))
equal_iff_example =
    equal_iff (list (cons (Value.bool true) nil)) (list (cons (Value.int (pos 1)) nil)) (tt, tt)

dict-coerces_example :
    (equal
        (dict (field (codes "approved") (Value.bool true) end))
        (dict (field (codes "approved") (Value.int (pos 1)) end))
      ≡ true)
    × (equal (Value.bool true) (Value.int (pos 1)) ≡ false)
dict-coerces_example = dict-coerces (codes "approved") true
