-- ===== src/Gate/Prepared.antt =====
-- `evaluate` of vfy/gate.py: what stands behind an ALLOW.
use verify_run.Base.{
  ◌≡◌, ◌≢◌, refl, sym, ap, subst, true, false, Option, none, some, List, [], ◌∷◌, Text, Bool-cases,
  Option-cases, inl, inr, ◌⊎◌,
}
use verify_run.Base.Int.{ℤ, pos, leb_ℤ}
use verify_run.Context.{Item, Context}
use verify_run.Value.{Fields}
use verify_run.Expr.{Node}
use verify_run.Expr.Lexer.{
  Refusal, parse_error, type_error, surrogate_not_permitted, canonical_form_invalid,
  source_too_deep, value_error, done, refused,
}
use verify_run.Expr.Parser.{parse}
use verify_run.Expr.Evidence.{evidence_ids, parse_expression, first_undeclared}
use verify_run.Expr.Document.{node_value, exceeds_depth}
use verify_run.Canon
use verify_run.Canon.{Written, canonicalize}
use verify_run.Canon.Render.{render}
use verify_run.Canon.Stack.{canonicalize-render}
use verify_run.Expr.Total.{parse-ends}
use verify_run.Rulebook.{RuleSource, RulebookValue}
use verify_run.Walk
use verify_run.Walk.{Outcome, Reason, Result, Rule, DefaultOutcome, late_item, walk}
use verify_run.Walk.Reasons.{Allows, evaluate-Allows}
use verify_run.Gate.{
  Preparation, prepared, failed, unfinished, declared_ids, with_tree, and_rule, prepare_rules,
  refused_rule, walk_prepared, context_of, evaluate,
}

-- The condition of the rule parses into the tree, its document is canonical and within the bound on depth,
-- and the evidence that it names is declared.
pub record Parses (known : List Text) (source : RuleSource) (rule : Rule) : Type 0 where
  pub tree : Node
  pub parsed : parse source.when ≡ done tree []
  pub canonical : Text
  pub written : canonicalize (node_value tree) ≡ some (Written.text canonical)
  pub shallow : exceeds_depth (pos 0) false false canonical ≡ false
  pub is_rule : rule ≡ with_tree source tree
  pub names_declared : first_undeclared known (evidence_ids tree []) ≡ none

abbrev pub AllParse : List Text → List RuleSource → List Rule → Type 0
AllParse known [] [] = Unit
AllParse known (s ∷ ss) (r ∷ rs) = Parses known s r × AllParse known ss rs
AllParse known _ _ = ⊥

-- What `parse_expression` returns comes of a tree.
pub record Expressed (source : Text) : Type 0 where
  pub tree : Node
  pub parsed : parse source ≡ done tree []
  pub canonical : Text
  pub written : canonicalize (node_value tree) ≡ some (Written.text canonical)
  pub shallow : exceeds_depth (pos 0) false false canonical ≡ false
  pub expressed :
      parse_expression source
      ≡ done
          (record {
            source = source;
            tree = tree;
            canonical = canonical;
            referenced = evidence_ids tree [];
          })
          []

pub parse_expression-ends :
    (source : Text) → Expressed source ⊎ ((e : Refusal) × (parse_expression source ≡ refused e))
unfolding parse_expression
parse_expression-ends source = elim (parse-ends source) [
  | inr (x, e) ↦ inr (x, rw e refl)
  | inl (n, e) ↦ rendered n e (render (node_value n)) (canonicalize-render (node_value n))
]
  where
    rendered :
        (n : Node)
        → parse source ≡ done n []
        → (w : Written) → canonicalize (node_value n) ≡ some w
        → Expressed source ⊎ ((e : Refusal) × (parse_expression source ≡ refused e))
    rendered n e (Written.refused Canon.canonical_form_invalid) w =
        inr (canonical_form_invalid, rw (e, w) refl)
    rendered n e (Written.refused Canon.surrogate_not_permitted) w =
        inr (surrogate_not_permitted, rw (e, w) refl)
    rendered n e (Written.text t) w = elim (Bool-cases (exceeds_depth (pos 0) false false t)) [
      | inl deep ↦ inr (source_too_deep, rw (e, w, deep) refl)
      | inr shallow ↦ inl (record {
        tree = n;
        parsed = e;
        canonical = t;
        written = w;
        shallow = shallow;
        expressed = rw (e, w, shallow) refl;
      })
    ]

pub parses :
    {known : List Text} (r : RuleSource) (x : Expressed r.when)
    → first_undeclared known (evidence_ids x.tree []) ≡ none
    → Parses known r (with_tree r x.tree)
parses r x k = record {
  tree = x.tree;
  parsed = x.parsed;
  canonical = x.canonical;
  written = x.written;
  shallow = x.shallow;
  is_rule = refl;
  names_declared = k;
}

module _ (message : Refusal → Text) (undeclared_message : Text → Text) where
  and_rule-prepared :
      (rule : Rule) (p : Preparation) (out : List Rule)
      → and_rule rule p ≡ prepared out
      → (rest : List Rule) × (p ≡ prepared rest) × (out ≡ rule ∷ rest)
  and_rule-prepared rule (prepared rules) out h = (rules, refl, sym (prepared-injective h))
    where
      prepared-injective : {xs ys : List Rule} → prepared xs ≡ prepared ys → xs ≡ ys
      prepared-injective {xs} e =
          ap (λ p. elim p [ prepared rs ↦ rs | failed r ↦ xs | unfinished ↦ xs ]) e
  and_rule-prepared rule (failed reason) out h = cc
  and_rule-prepared rule unfinished out h = cc

  refused_rule-prepared :
      (r : RuleSource) (e : Refusal) (out : List Rule)
      → refused_rule message undeclared_message r e ≢ prepared out
  refused_rule-prepared r (parse_error fault at token) out h = cc
  refused_rule-prepared r (type_error fault at token) out h = cc
  refused_rule-prepared r surrogate_not_permitted out h = cc
  refused_rule-prepared r canonical_form_invalid out h = cc
  refused_rule-prepared r source_too_deep out h = cc
  refused_rule-prepared r value_error out h = cc

  prepare_rules-AllParse :
      (known : List Text) (rs : List RuleSource) (out : List Rule)
      → prepare_rules message undeclared_message known rs ≡ prepared out
      → AllParse known rs out
  unfolding prepare_rules
  prepare_rules-AllParse known [] [] h = tt
  prepare_rules-AllParse known [] (x ∷ out) h = cc
  prepare_rules-AllParse known (r ∷ rs) out h = elim (parse_expression-ends r.when) [
    | inr (x, e) ↦ absurd (refused_rule-prepared r x out (rw e at h))
    | inl x ↦ elim (Option-cases (first_undeclared known (evidence_ids x.tree []))) [
      | inr (id, k) ↦ cc (rw (x.expressed, k) at h)
      | inl k ↦
          let (rest, here, is_out) =
            and_rule-prepared (with_tree r x.tree)
              (prepare_rules message undeclared_message known rs) out (rw (x.expressed, k) at h) in
          subst (AllParse known (r ∷ rs)) (sym is_out)
            (parses r x k, prepare_rules-AllParse known rs rest here)
    ]
  ]

  some_outcome :
      {a b : Result} → some a ≡ some b → a.outcome ≡ Outcome.allow → b.outcome ≡ Outcome.allow
  some_outcome e h = subst (λ r. r.outcome ≡ Outcome.allow) (some-injective e) h
    where
      some-injective : {a b : Result} → some a ≡ some b → a ≡ b
      some-injective {a} e = ap (λ o. elim o [ some x ↦ x | none ↦ a ]) e

  -- What an ALLOW shows of the documents: no schema refuses one, every rule's condition is the text of
  -- a tree whose evidence is declared, and the rules with those trees allow.
  abbrev pub Permits :
      Option Text → Option Text → RulebookValue → ℤ → Fields → List Item → ℤ → Type 0
  Permits candidate_failure snapshot_failure value adopted_at candidate items frozen_at =
      (candidate_failure ≡ none)
      × (snapshot_failure ≡ none)
      × ((rules : List Rule) × AllParse (declared_ids value.evidence) value.rules rules
          × Allows (context_of message undeclared_message value candidate items frozen_at)
              adopted_at rules)

  walk_prepared-Allows :
      (c : Context) (value : RulebookValue) (adopted_at : ℤ) (p : Preparation) (r : Result)
      → prepare_rules message undeclared_message (declared_ids value.evidence) value.rules ≡ p
      → late_item c.frozen_at c.items ≡ none
      → leb_ℤ adopted_at c.frozen_at ≡ true
      → walk_prepared message undeclared_message c value.default_outcome p ≡ some r
      → r.outcome ≡ Outcome.allow
      → (rules : List Rule) × AllParse (declared_ids value.evidence) value.rules rules
        × Allows c adopted_at rules
  unfolding Walk.evaluate
  walk_prepared-Allows c value adopted_at (prepared rules) r ready late adopted h allowed = (
    rules,
    prepare_rules-AllParse (declared_ids value.evidence) value.rules rules ready,
    evaluate-Allows c adopted_at value.default_outcome rules
        (rw (Walk.evaluate, late, adopted) (some_outcome (sym h) allowed)),
  )
  walk_prepared-Allows c value adopted_at (failed reason) r ready late adopted h allowed =
      cc (some_outcome (sym h) allowed)
  walk_prepared-Allows c value adopted_at unfinished r ready late adopted h allowed = cc

  -- Where the evaluation comes to ALLOW, no schema refuses a document, every condition parses into a
  -- tree whose evidence is declared, and some rule of those trees that allows is true after
  -- rules that are all false, with nothing acquired after the freeze and the rulebook adopted by then.
  pub evaluate-Permits :
      (candidate_failure snapshot_failure : Option Text) (value : RulebookValue) (adopted_at : ℤ)
      (candidate : Fields) (items : List Item) (frozen_at : ℤ) (r : Result)
      → evaluate message undeclared_message candidate_failure snapshot_failure value adopted_at
          candidate items frozen_at
        ≡ some r
      → r.outcome ≡ Outcome.allow
      → Permits candidate_failure snapshot_failure value adopted_at candidate items frozen_at
  unfolding evaluate
  evaluate-Permits (some text) snapshot_failure value adopted_at candidate items frozen_at r h
        allowed =
      cc (some_outcome (sym h) allowed)
  evaluate-Permits none (some text) value adopted_at candidate items frozen_at r h allowed =
      cc (some_outcome (sym h) allowed)
  evaluate-Permits none none value adopted_at candidate items frozen_at r h allowed =
      elim (Option-cases (late_item frozen_at items)) [
        | inr (i, e) ↦ cc (some_outcome (sym (rw e at h)) allowed)
        | inl e ↦ elim (Bool-cases (leb_ℤ adopted_at frozen_at)) [
          | inr q ↦ cc (some_outcome (sym (rw (e, q) at h)) allowed)
          | inl q ↦ (
            refl,
            refl,
            walk_prepared-Allows
                (context_of message undeclared_message value candidate items frozen_at) value
                adopted_at _ r refl e q (rw (e, q) at h) allowed,
          )
        ]
      ]
