-- ===== src/Gate/First.antt =====
-- The last loop of `_prepare` of vfy/gate.py: which failure it comes to.
use verify_run.Base.{
  ◌≡◌, refl, none, some, List, [], ◌∷◌, ◌++◌, Text, ap, Option-cases, inl, inr, ◌⊎◌,
}
use verify_run.Expr.Evidence.{evidence_ids, parse_expression, first_undeclared}
use verify_run.Expr.Lexer.{
  Refusal, parse_error, type_error, surrogate_not_permitted, canonical_form_invalid,
  source_too_deep, value_error, refused,
}
use verify_run.Gate.{
  Preparation, prepared, failed, unfinished, with_tree, and_rule, prepare_rules, refused_rule,
}
use verify_run.Gate.Prepared.{AllParse, Expressed, parse_expression-ends, parses}
use verify_run.Rulebook.{RuleSource}
use verify_run.Walk.{Code, Reason, Rule}

-- The code of an exception that `_prepare` catches.
abbrev pub CodeOf : Refusal → Code → Type 0
CodeOf (parse_error fault at token) code = code ≡ Code.expression_parse_error
CodeOf (type_error fault at token) code = code ≡ Code.expression_type_error
CodeOf surrogate_not_permitted code = code ≡ Code.surrogate_not_permitted
CodeOf canonical_form_invalid code = code ≡ Code.canonical_form_invalid
CodeOf source_too_deep code = code ≡ Code.source_too_deep
CodeOf value_error code = ⊥

module _ (message : Refusal → Text) (undeclared_message : Text → Text) where
  -- Why a rule fails: its condition raises, or names evidence that is not declared.
  pub data Fails (known : List Text) (r : RuleSource) (reason : Reason) : Type 0 where
    raises :
        (e : Refusal)
        → parse_expression r.when ≡ refused e
        → CodeOf e reason.code
        → reason.message ≡ message e
        → Fails known r reason
    undeclared :
        (x : Expressed r.when) (id : Text)
        → first_undeclared known (evidence_ids x.tree []) ≡ some id
        → reason.code ≡ Code.undeclared_evidence_id
        → reason.message ≡ undeclared_message id
        → Fails known r reason

  -- A rule that does not pass, behind rules that all do.
  pub record Stops (known : List Text) (rs : List RuleSource) (p : Preparation) : Type 0 where
    pub before : List RuleSource
    pub passed : List Rule
    pub rule : RuleSource
    pub after : List RuleSource
    pub stands : rs ≡ before ++ rule ∷ after
    pub pass : AllParse known before passed
    pub why :
        ((reason : Reason) × (p ≡ failed reason)
          × (reason.rule_id ≡ some rule.id)
          × Fails known rule reason)
        ⊎ ((p ≡ unfinished) × (parse_expression rule.when ≡ refused value_error))

  abbrev pub Prepares : List Text → List RuleSource → Preparation → Type 0
  Prepares known rs p =
      ((rules : List Rule) × (p ≡ prepared rules) × AllParse known rs rules) ⊎ Stops known rs p

  refused_rule-Stops :
      (known : List Text) (r : RuleSource) (rs : List RuleSource) (e : Refusal)
      → parse_expression r.when ≡ refused e
      → Stops known (r ∷ rs) (refused_rule message undeclared_message r e)
  refused_rule-Stops known r rs e h = record {
    before = [];
    passed = [];
    rule = r;
    after = rs;
    stands = refl;
    pass = tt;
    why = told e h;
  }
    where
      told :
          (e : Refusal)
          → parse_expression r.when ≡ refused e
          → let p = refused_rule message undeclared_message r e in
            ((reason : Reason) × (p ≡ failed reason)
              × (reason.rule_id ≡ some r.id)
              × Fails known r reason)
            ⊎ ((p ≡ unfinished) × (parse_expression r.when ≡ refused value_error))
      told (parse_error fault at token) h = inl (_, refl, refl, raises _ h refl refl)
      told (type_error fault at token) h = inl (_, refl, refl, raises _ h refl refl)
      told surrogate_not_permitted h = inl (_, refl, refl, raises _ h refl refl)
      told canonical_form_invalid h = inl (_, refl, refl, raises _ h refl refl)
      told source_too_deep h = inl (_, refl, refl, raises _ h refl refl)
      told value_error h = inr (refl, h)

  and_rule-Prepares :
      (known : List Text) (r : RuleSource) (rs : List RuleSource) (x : Expressed r.when)
      (p : Preparation)
      → first_undeclared known (evidence_ids x.tree []) ≡ none
      → Prepares known rs p
      → Prepares known (r ∷ rs) (and_rule (with_tree r x.tree) p)
  and_rule-Prepares known r rs x p k (inl (rules, e, all)) =
      inl (with_tree r x.tree ∷ rules, ap (and_rule (with_tree r x.tree)) e, (parses r x k, all))
  and_rule-Prepares known r rs x p k (inr s) = inr (record {
    before = r ∷ s.before;
    passed = with_tree r x.tree ∷ s.passed;
    rule = s.rule;
    after = s.after;
    stands = ap (λ ss. r ∷ ss) s.stands;
    pass = (parses r x k, s.pass);
    why = elim s.why [
      | inl (reason, e, named, fails) ↦
          inl (reason, ap (and_rule (with_tree r x.tree)) e, named, fails)
      | inr (e, rest) ↦ inr (ap (and_rule (with_tree r x.tree)) e, rest)
    ];
  })

  -- The preparation of the rules comes to an end for every rulebook. Either every condition becomes a
  -- tree whose evidence is declared; or, behind rules of which that holds, there is a first one that stops
  -- it. That one is named in the failure, with the code and text of what its condition raises, or of the
  -- first id that it names without a declaration; or its condition raises the ValueError of `int`,
  -- which escapes.
  pub prepare_rules-Prepares :
      (known : List Text) (rs : List RuleSource)
      → Prepares known rs (prepare_rules message undeclared_message known rs)
  unfolding prepare_rules
  prepare_rules-Prepares known [] = inl ([], refl, tt)
  prepare_rules-Prepares known (r ∷ rs) = elim (parse_expression-ends r.when) [
    | inr (e, h) ↦ rw h (inr (refused_rule-Stops known r rs e h))
    | inl x ↦ elim (Option-cases (first_undeclared known (evidence_ids x.tree []))) [
      | inl k ↦
          rw (x.expressed, k) (and_rule-Prepares known r rs x _ k (prepare_rules-Prepares known rs))
      | inr (id, k) ↦
          rw (x.expressed, k)
            (inr (record {
              before = [];
              passed = [];
              rule = r;
              after = rs;
              stands = refl;
              pass = tt;
              why = inl (_, refl, refl, undeclared x id k refl refl);
            }))
    ]
  ]
