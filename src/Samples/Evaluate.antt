-- ===== src/Samples/Evaluate.antt =====
-- vfy/gate.py: expressions evaluated against concrete inputs.
use verify_run.Base.{◌≡◌, ◌≢◌, ◌↔◌, refl, true, none, some, [], ◌∷◌, codes, if◌then◌else◌}
use verify_run.Base.Int.{pos}
use verify_run.Context.{Item, Cause, Status, find_item, find_declaration}
use verify_run.Evaluate.{is_true, unsettled, of_bool, is_fresh, bound_of, evaluate_node}
use verify_run.Evaluate.Settled.{settles, holds, evaluate_node-absorbing}
use verify_run.Evaluate.Causes.{evaluate_node-Told}
use verify_run.Evaluate.Freshness.{InAge, is_fresh_iff, frozen, evaluate_node-frozen}
use verify_run.Samples.Inputs.{inputs, small_amount, open_review}

small_holds : evaluate_node inputs small_amount [] ≡ (is_true, [])
unfolding evaluate_node verify_run.Evaluate.evaluate_compare verify_run.Base.text_eq
    verify_run.Decimal.compare_numeric verify_run.Decimal.numeric_parts
    verify_run.Decimal.compare_parts
small_holds = refl

-- `present(review)` is false, and the conjunction is unsettled all the same.
open_unsettled :
    evaluate_node inputs open_review []
    ≡ (unsettled, Cause.evidence_unsettled (codes "review") ∷ [])
unfolding evaluate_node verify_run.Evaluate.combine_states verify_run.Evaluate.evaluate_compare
    verify_run.Evaluate.item_ok verify_run.Base.text_eq
open_unsettled = refl

evaluate_node-absorbing_example :
    (evaluate_node inputs open_review []).0
    ≡ (if settles inputs open_review then of_bool (holds inputs open_review) else unsettled)
evaluate_node-absorbing_example = evaluate_node-absorbing inputs open_review []

evaluate_node-Told_example :
    ((evaluate_node inputs open_review []).0 ≡ unsettled
      → (evaluate_node inputs open_review []).1 ≢ [])
    × ((evaluate_node inputs open_review []).0 ≢ unsettled
        → (evaluate_node inputs open_review []).1 ≡ [])
evaluate_node-Told_example = evaluate_node-Told inputs open_review []

-- The age of `build` is the bound itself.
build_fresh : is_fresh inputs (codes "build") ≡ true
unfolding is_fresh find_item verify_run.Base.text_eq find_declaration verify_run.Base.Int.◌-ℤ◌
build_fresh = refl

is_fresh_iff_example : (is_fresh inputs (codes "build") ≡ true) ↔ (
    (i : Item) × (find_item (codes "build") inputs.items ≡ some i)
    × (i.status ≡ Status.ok)
    × InAge inputs.frozen_at i.acquired_at
        (bound_of (find_declaration (codes "build") inputs.declarations)))
is_fresh_iff_example = is_fresh_iff inputs (codes "build")

evaluate_node-frozen_example :
    evaluate_node (frozen inputs (pos 9000000000000)) small_amount []
    ≡ evaluate_node inputs small_amount []
evaluate_node-frozen_example = evaluate_node-frozen inputs (pos 9000000000000) small_amount [] tt
