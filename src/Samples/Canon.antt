-- ===== src/Samples/Canon.antt =====
-- vfy/canon.py: `canonicalize` at concrete values.
use verify_run.Base.{◌≡◌, refl, some, true, codes}
use verify_run.Base.Int.{negsuc}
use verify_run.Value.{Value, int, str, list, dict, nil, cons, field, end}
use verify_run.Canon.{text, canonicalize}
use verify_run.Canon.Render.{render}
use verify_run.Canon.Stack.{canonicalize-render}

abbrev sample : Value
sample = dict (
    field (codes "b") (list (cons (int (negsuc 6)) (cons (Value.bool true) nil)))
      (field (codes "a") (str (codes "x")) end))

sorted_text : canonicalize sample ≡ some (text (codes "{\"a\":\"x\",\"b\":[-7,true]}"))
unfolding canonicalize verify_run.Base.text_lt verify_run.Base.Digits.to_digits
sorted_text = refl

canonicalize-render_example : canonicalize sample ≡ some (render sample)
canonicalize-render_example = canonicalize-render sample
