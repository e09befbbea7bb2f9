-- ===== src/Walk/Reasons.antt =====
-- What a result of `evaluate` says: when the outcome is ALLOW, and that a reason is always given.
use verify_run.Base.{
  ◌≡◌, ◌≢◌, refl, Bool, true, false, Option, none, some, List, [], ◌∷◌, ◌++◌, Text, All, map, arith,
  Option-cases, Bool-cases, inl, inr,
}
use verify_run.Base.Int.{ℤ, ◌≤ℤ◌, ltb_ℤ, leb_ℤ}
use verify_run.Context.{Context, Item, ok_item, find_item}
use verify_run.Expr.{Node}
use verify_run.Evaluate.{is_true, unsettled, evaluate_node}
use verify_run.Evaluate.Causes.{note-ne-nil, evaluate_node-Told}
use verify_run.Walk.{
  Outcome, RuleOutcome, Rule, DefaultOutcome, Result, first_unmet, gated, rule_state, matched, held,
  defaulted, reason_of, late_item, evaluate, adopted_walk, prepared_walk, outcome_of_rule,
}
use verify_run.Walk.Decision.{Skipped, Verdict, by_default, by_rule, by_hold, walk-Verdict}

gated-Told :
    (c : Context) (n : Node) (unmet : Option Text)
    → (gated c n unmet).0 ≡ unsettled
    → (gated c n unmet).1 ≢ []
gated-Told c n (some identifier) h = note-ne-nil _ []
gated-Told c n none h = (evaluate_node-Told c n []).0 h

rule_state-Told :
    (c : Context) (r : Rule) → (rule_state c r).0 ≡ unsettled → (rule_state c r).1 ≢ []
unfolding rule_state
rule_state-Told c r h = gated-Told c r.when (first_unmet c r.requires_evidence) h

map-ne-nil {ℓ κ} : {A : Type ℓ} {B : Type κ} (f : A → B) (xs : List A) → xs ≢ [] → map f xs ≢ []
map-ne-nil f [] h = absurd (h refl)
map-ne-nil f (x ∷ xs) h = λ e. cc

Verdict-reasons :
    (c : Context) (d : DefaultOutcome) (rules : List Rule) (result : Result)
    → Verdict c d 0 rules [] result
    → result.reasons ≢ []
unfolding matched held defaulted
Verdict-reasons c d rules _ (by_default h) = λ e. cc
Verdict-reasons c d rules _ (by_rule before r after e h k) = λ q. cc
Verdict-reasons c d rules _ (by_hold before r after e h k) =
    map-ne-nil (reason_of r.id) (rule_state c r).1 (rule_state-Told c r k)

adopted-reasons :
    (b : Bool) (c : Context) (d : DefaultOutcome) (rules : List Rule)
    → (adopted_walk b c d rules).reasons ≢ []
adopted-reasons false c d rules = λ e. cc
adopted-reasons true c d rules = Verdict-reasons c d rules _ (walk-Verdict c d rules)

prepared-reasons :
    (late : Option Item) (adopted_at : ℤ) (c : Context) (d : DefaultOutcome) (rules : List Rule)
    → (prepared_walk late adopted_at c d rules).reasons ≢ []
prepared-reasons (some i) adopted_at c d rules = λ e. cc
prepared-reasons none adopted_at c d rules =
    adopted-reasons (leb_ℤ adopted_at c.frozen_at) c d rules

-- Every result names at least one reason, also a HOLD that an unsettled rule decides: there it is
-- what the evaluation noted.
pub evaluate-reasons :
    (c : Context) (adopted_at : ℤ) (d : DefaultOutcome) (rules : List Rule)
    → (evaluate c adopted_at d rules).reasons ≢ []
unfolding evaluate
evaluate-reasons c adopted_at d rules =
    prepared-reasons (late_item c.frozen_at c.items) adopted_at c d rules

-- What stands behind an ALLOW.
pub record Allows (c : Context) (adopted_at : ℤ) (rules : List Rule) : Type 0 where
  pub before : List Rule
  pub decider : Rule
  pub after : List Rule
  pub place : rules ≡ before ++ decider ∷ after
  pub grants : decider.outcome ≡ RuleOutcome.allow
  pub passed : All (Skipped c) before
  pub holds : (evaluate_node c decider.when []).0 ≡ is_true
  pub evidence : All (λ id. ok_item (find_item id c.items) ≡ true) decider.requires_evidence
  pub adopted : adopted_at ≤ℤ c.frozen_at
  pub in_time : All (λ i. i.acquired_at ≤ℤ c.frozen_at) c.items

first_unmet-none :
    (c : Context) (ids : List Text)
    → first_unmet c ids ≡ none
    → All (λ id. ok_item (find_item id c.items) ≡ true) ids
unfolding first_unmet
first_unmet-none c [] h = tt
first_unmet-none c (id ∷ ids) h = elim (Bool-cases (ok_item (find_item id c.items))) [
  | inl e ↦ (e, first_unmet-none c ids (rw e at h))
  | inr e ↦ cc (rw e at h)
]

late_item-none :
    (t : ℤ) (items : List Item) → late_item t items ≡ none → All (λ i. i.acquired_at ≤ℤ t) items
unfolding late_item
late_item-none t [] h = tt
late_item-none t (i ∷ items) h = elim (Bool-cases (ltb_ℤ t i.acquired_at)) [
  | inl e ↦ cc (rw e at h)
  | inr e ↦ (ground arith, late_item-none t items (rw e at h))
]

gated-true :
    (c : Context) (n : Node) (unmet : Option Text)
    → (gated c n unmet).0 ≡ is_true
    → (unmet ≡ none) × ((evaluate_node c n []).0 ≡ is_true)
gated-true c n (some identifier) h = cc
gated-true c n none h = (refl, h)

grants_of : (o : RuleOutcome) → outcome_of_rule o ≡ Outcome.allow → o ≡ RuleOutcome.allow
grants_of o h = ground arith

Verdict-Allows :
    (c : Context) (adopted_at : ℤ) (d : DefaultOutcome) (rules : List Rule) (result : Result)
    → adopted_at ≤ℤ c.frozen_at
    → All (λ i. i.acquired_at ≤ℤ c.frozen_at) c.items
    → Verdict c d 0 rules [] result
    → result.outcome ≡ Outcome.allow
    → Allows c adopted_at rules
unfolding matched held defaulted rule_state
Verdict-Allows c adopted_at d rules _ early items (by_default h) e = ground arith
Verdict-Allows c adopted_at d rules _ early items (by_hold before r after e h k) q = cc
Verdict-Allows c adopted_at d rules _ early items (by_rule before r after e h k) q =
    let g : (first_unmet c r.requires_evidence ≡ none) × ((evaluate_node c r.when []).0 ≡ is_true) =
      gated-true c r.when (first_unmet c r.requires_evidence) k in
    record {
      before = before;
      decider = r;
      after = after;
      place = e;
      grants = grants_of r.outcome q;
      passed = h;
      holds = g.1;
      evidence = first_unmet-none c r.requires_evidence g.0;
      adopted = early;
      in_time = items;
    }

adopted-Allows :
    (c : Context) (adopted_at : ℤ) (d : DefaultOutcome) (rules : List Rule)
    → All (λ i. i.acquired_at ≤ℤ c.frozen_at) c.items
    → (adopted_walk (leb_ℤ adopted_at c.frozen_at) c d rules).outcome ≡ Outcome.allow
    → Allows c adopted_at rules
adopted-Allows c adopted_at d rules items h = elim (Bool-cases (leb_ℤ adopted_at c.frozen_at)) [
  | inl e ↦
      Verdict-Allows c adopted_at d rules _ (ground arith) items (walk-Verdict c d rules)
        (rw e at h)
  | inr e ↦ cc (rw e at h)
]

-- An ALLOW is never given by default: some rule grants it, its condition is true, every item that it
-- requires is there with status ok, every rule in front of it is false, the rulebook was adopted no
-- later than the freeze and no item was acquired after it.
pub evaluate-Allows :
    (c : Context) (adopted_at : ℤ) (d : DefaultOutcome) (rules : List Rule)
    → (evaluate c adopted_at d rules).outcome ≡ Outcome.allow
    → Allows c adopted_at rules
unfolding evaluate
evaluate-Allows c adopted_at d rules h = elim (Option-cases (late_item c.frozen_at c.items)) [
  | inl e ↦ adopted-Allows c adopted_at d rules (late_item-none _ _ e) (rw e at h)
  | inr (i, e) ↦ cc (rw e at h)
]
