-- ===== src/Samples/Walk.antt =====
-- vfy/gate.py: the walk over concrete rules.
use verify_run.Base.{◌≡◌, ◌≢◌, refl, List, [], ◌∷◌}
use verify_run.Base.Int.{pos}
use verify_run.Walk.{Rule, Outcome, DefaultOutcome, walk, evaluate}
use verify_run.Walk.Decision.{Verdict, walk-Verdict}
use verify_run.Walk.Reasons.{Allows, evaluate-Allows}
use verify_run.Samples.Inputs.{inputs, allow_small, block_unreviewed, block_absent}

abbrev holding : List Rule
holding = block_absent ∷ block_unreviewed ∷ allow_small ∷ []

abbrev allowing : List Rule
allowing = block_absent ∷ allow_small ∷ block_unreviewed ∷ []

walk-Verdict_example :
    Verdict inputs DefaultOutcome.block 0 holding [] (walk inputs DefaultOutcome.block holding)
walk-Verdict_example = walk-Verdict inputs DefaultOutcome.block holding

holds_back : (evaluate inputs (pos 0) DefaultOutcome.block holding).outcome ≡ Outcome.hold
unfolding evaluate walk verify_run.Walk.walk_from verify_run.Walk.rule_state
    verify_run.Evaluate.evaluate_node verify_run.Evaluate.item_ok verify_run.Context.find_item
    verify_run.Base.text_eq verify_run.Evaluate.combine_states verify_run.Evaluate.evaluate_compare
    verify_run.Walk.held
holds_back = refl

allows : (evaluate inputs (pos 0) DefaultOutcome.block allowing).outcome ≡ Outcome.allow
unfolding evaluate walk verify_run.Walk.walk_from verify_run.Walk.rule_state
    verify_run.Evaluate.evaluate_node verify_run.Evaluate.item_ok verify_run.Context.find_item
    verify_run.Base.text_eq verify_run.Evaluate.evaluate_compare verify_run.Decimal.compare_numeric
    verify_run.Decimal.numeric_parts verify_run.Decimal.compare_parts verify_run.Walk.matched
allows = refl

evaluate-Allows_example : Allows inputs (pos 0) allowing
evaluate-Allows_example = evaluate-Allows inputs (pos 0) DefaultOutcome.block allowing allows

late_adoption :
    (evaluate inputs (pos 9000000001) DefaultOutcome.block allowing).outcome ≡ Outcome.error
unfolding evaluate
late_adoption = refl
