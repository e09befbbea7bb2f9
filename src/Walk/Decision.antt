-- ===== src/Walk/Decision.antt =====
-- Which result the walk over the rules returns, told without the loop.
use mathlib.Core.List.{append-nil, append_assoc}
use verify_run.Base.{
  ℕ, suc, ◌≡◌, refl, sym, ap, subst, List, [], ◌∷◌, ◌++◌, Text, All, inl, inr, ◌⊎◌,
}
use verify_run.Context.{Context}
use verify_run.Evaluate.{State, is_true, is_false, unsettled}
use verify_run.Walk.{
  Rule, DefaultOutcome, Result, rule_state, trace_entry, matched, held, defaulted, walk_from, walk,
}

-- The rule is passed over.
abbrev pub Skipped : Context → Rule → Type 0
Skipped c r = (rule_state c r).0 ≡ is_false

-- The states of rules, one entry for each, numbered from `ordinal`.
abbrev pub trace_of : Context → ℕ → List Rule → List Text
trace_of c ordinal [] = []
trace_of c ordinal (r ∷ rules) =
    trace_entry ordinal r.id (rule_state c r).0 ∷ trace_of c (suc ordinal) rules

-- The first rule that is not false decides; without one the default does.
pub data Verdict (c : Context) (d : DefaultOutcome) (ordinal : ℕ) (rules : List Rule)
    (trace : List Text) : Result → Type 0 where
  by_default :
      All (Skipped c) rules
      → Verdict c d ordinal rules trace (defaulted d (trace ++ trace_of c ordinal rules))
  by_rule :
      (before : List Rule) (r : Rule) (after : List Rule)
      → rules ≡ before ++ r ∷ after
      → All (Skipped c) before
      → (rule_state c r).0 ≡ is_true
      → Verdict c d ordinal rules trace (matched r (trace ++ trace_of c ordinal (before ++ r ∷ [])))
  by_hold :
      (before : List Rule) (r : Rule) (after : List Rule)
      → rules ≡ before ++ r ∷ after
      → All (Skipped c) before
      → (rule_state c r).0 ≡ unsettled
      → Verdict c d ordinal rules trace
          (held r (rule_state c r).1 (trace ++ trace_of c ordinal (before ++ r ∷ [])))

module _ (c : Context) (d : DefaultOutcome) (ordinal : ℕ) (r : Rule) (trace : List Text) where
  abbrev entry : Text
  entry = trace_entry ordinal r.id (rule_state c r).0

  regroup : (rest : List Text) → (trace ++ entry ∷ []) ++ rest ≡ trace ++ entry ∷ rest
  regroup rest = append_assoc trace (entry ∷ []) rest

  -- A rule that is passed over, in front of a verdict on the others.
  Verdict-skip :
      {rules : List Rule} {result : Result}
      → Skipped c r
      → Verdict c d (suc ordinal) rules (trace ++ entry ∷ []) result
      → Verdict c d ordinal (r ∷ rules) trace result
  Verdict-skip {rules} s (by_default h) =
      subst (λ t. Verdict c d ordinal (r ∷ rules) trace (defaulted d t))
        (sym (regroup (trace_of c (suc ordinal) rules))) (by_default (s, h))
  Verdict-skip {rules} s (by_rule before q after e h k) =
      subst (λ t. Verdict c d ordinal (r ∷ rules) trace (matched q t))
        (sym (regroup (trace_of c (suc ordinal) (before ++ q ∷ []))))
        (by_rule (r ∷ before) q after (ap (◌∷◌ r) e) (s, h) k)
  Verdict-skip {rules} s (by_hold before q after e h k) =
      subst (λ t. Verdict c d ordinal (r ∷ rules) trace (held q (rule_state c q).1 t))
        (sym (regroup (trace_of c (suc ordinal) (before ++ q ∷ []))))
        (by_hold (r ∷ before) q after (ap (◌∷◌ r) e) (s, h) k)

State-cases : (s : State) → (s ≡ is_true) ⊎ ((s ≡ is_false) ⊎ (s ≡ unsettled))
State-cases is_true = inl refl
State-cases is_false = inr (inl refl)
State-cases unsettled = inr (inr refl)

walk_from-Verdict :
    (c : Context) (d : DefaultOutcome) (ordinal : ℕ) (rules : List Rule) (trace : List Text)
    → Verdict c d ordinal rules trace (walk_from c d ordinal rules trace)
unfolding walk_from
walk_from-Verdict c d ordinal [] trace =
    subst (λ t. Verdict c d ordinal [] trace (defaulted d t)) (append-nil trace) (by_default tt)
walk_from-Verdict c d ordinal (r ∷ rules) trace = elim (State-cases (rule_state c r).0) [
  | inl e ↦ rw (e, walk_from) (by_rule [] r rules refl tt e)
  | inr (inl e) ↦
      rw (e, walk_from)
        (Verdict-skip c d ordinal r trace e (
          walk_from-Verdict c d (suc ordinal) rules
            (trace ++ trace_entry ordinal r.id (rule_state c r).0 ∷ [])))
  | inr (inr e) ↦ rw (e, walk_from) (by_hold [] r rules refl tt e)
]

-- The walk over any rules returns what the first rule that is not false decides: its own outcome and
-- reason where it is true, HOLD with the causes that it noted where it is unsettled, and the default
-- outcome where every rule is false. The trace is the numbered states of the rules up to that one.
pub walk-Verdict :
    (c : Context) (d : DefaultOutcome) (rules : List Rule) → Verdict c d 0 rules [] (walk c d rules)
unfolding walk
walk-Verdict c d rules = walk_from-Verdict c d 0 rules []
