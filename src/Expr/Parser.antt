-- ===== src/Expr/Parser.antt =====
-- vfy/expr.py: the grammar of `_Parser`, by recursive descent. `nesting` is `self.nesting`, which every
-- method leaves as it found it, so it is passed down. What a call leaves of the source is no
-- structural part of it: the calls that can come back to themselves run on fuel.
use verify_run.Base.{
  ℕ, zero, suc, ◌+◌, ◌-◌, ◌*◌, Bool, true, false, Option, none, some, List, [], ◌∷◌, Text, codes,
  text_eq, text_mem, length, leb, if◌then◌else◌,
}
use verify_run.Expr.{
  Operand, Comparison, Containment, is_in, not_in, Node, conjunction, disjunction, negation,
  membership, matches, fresh, present, Nodes,
}
use verify_run.Expr.Lexer.{
  Fault, Parsed, done, out_of_fuel, ◌>>=◌, first, fail, fail_at, type_fail, is_space, skip,
  peek_word, is_word, is_one_of, take_word, after, peek_symbol, take_symbol, keyword, path_roots,
  functions, keywords,
}
use verify_run.Expr.Literals.{string_literal, read_path, literal_mismatch}
use verify_run.Expr.Members.{max_nesting, operand, list_literal}

-- COMPARISON_OPERATORS, in the order of the source.
abbrev pub operators : List (Text × Comparison)
operators =
    (codes "==", Comparison.eq)
    ∷ (codes "!=", Comparison.ne)
    ∷ (codes "<=", Comparison.le)
    ∷ (codes ">=", Comparison.ge)
    ∷ (codes "<", Comparison.lt)
    ∷ (codes ">", Comparison.gt)
    ∷ []

-- The first operator that the source goes on with, with its text and the cursor behind it.
unfoldable pub operator_of : List (Text × Comparison) → Text → Option (Comparison × Text × Text)
unfolding after
operator_of [] s = none
operator_of (o ∷ os) s = elim (after o.0 s) [
  | some rest ↦ some (o.1, o.0, rest)
  | none ↦ operator_of os s
]

unfoldable pub operator_at : Text → Option (Comparison × Text × Text)
unfolding operator_of
operator_at = operator_of operators

-- `_reject_chained_comparison`
unfoldable pub reject_chained : Text → Parsed (Unit {0})
unfolding operator_at skip
reject_chained s = elim (operator_at (skip s)) [
  | some _ ↦ fail Fault.chained_comparison (skip s)
  | none ↦ done tt (skip s)
]

-- `self.source[start:self.position].strip()`: the operand that was read, which ends in no space.
abbrev pub rstrip_step : ℕ → Text → Text
rstrip_step c [] = if is_space c then [] else c ∷ []
rstrip_step c (d ∷ s) = c ∷ d ∷ s

consumed : ℕ → Text → Text
consumed zero s = []
consumed (suc count) [] = []
consumed (suc count) (c ∷ s) = rstrip_step c (consumed count s)

abbrev pub checked_compare :
    Comparison → Text → Text → Operand → Operand → Text → Option Fault → Parsed Node
checked_compare op at token l r s none = done (Node.compare op l r) s
checked_compare op at token l r s (some fault) = type_fail fault at token

-- `_comparison`, from the operator on; `start` is the cursor in front of the left operand.
unfoldable pub compared : ℕ → ℕ → Text → Operand → Text → Parsed Node
unfolding operator_at operand reject_chained literal_mismatch consumed
compared fuel nesting start l s = elim (operator_at s) [
  | some (op, token, rest) ↦ operand fuel nesting rest >>= λ r s1.
      reject_chained s1 >>= λ _ s2. checked_compare op s token l r s2 (literal_mismatch op l r)
  | none ↦ fail_at Fault.bare_operand start (consumed (length start - length s) start)
]

-- `_membership`
unfoldable pub read_membership : ℕ → ℕ → Containment → Operand → Text → Parsed Node
unfolding peek_symbol list_literal skip
read_membership fuel nesting op l s = elim (peek_symbol (codes "[") s) [
  | some _ ↦ list_literal fuel nesting s >>= λ xs s1. done (membership op l xs) s1
  | none ↦ type_fail Fault.list_operand_expected (skip s) (first (skip s))
]

-- `_reject_extra_arguments` and `_close_call`
unfoldable pub close_call : Text → Parsed (Unit {0})
unfolding peek_symbol skip
close_call s = elim (peek_symbol (codes ",") s) [
  | some _ ↦ type_fail Fault.arity (skip s) (codes ",")
  | none ↦ elim (peek_symbol (codes ")") s) [
    | some rest ↦ done tt rest
    | none ↦ type_fail Fault.arity (skip s) (first (skip s))
  ]
]

abbrev pub call_node : Text → Text → Node
call_node name id = if text_eq name (codes "fresh") then fresh id else present id

-- `_function`, for `fresh` and `present`, behind the parenthesis.
unfoldable pub evidence_call : Text → Text → Parsed Node
unfolding peek_word peek_symbol close_call skip
evidence_call name s = elim (peek_word s) [
  | none ↦ type_fail Fault.evidence_id_expected (skip s) (first (skip s))
  | some (word, rest) ↦ elim (text_mem word keywords) [
    | true ↦ type_fail Fault.evidence_id_expected (skip s) (first (skip s))
    | false ↦ elim (peek_symbol (codes ".") rest) [
      | some _ ↦ type_fail Fault.path_not_permitted (skip s) word
      | none ↦ elim (peek_symbol (codes "[") rest) [
        | some _ ↦ type_fail Fault.path_not_permitted (skip s) word
        | none ↦ close_call rest >>= λ _ s1. done (call_node name word) s1
      ]
    ]
  ]
]

-- `_function`, for `matches`, behind the parenthesis.
unfoldable pub matches_call : Text → Parsed Node
unfolding peek_word peek_symbol read_path string_literal close_call skip
matches_call s = elim (is_one_of (peek_word s) path_roots) [
  | false ↦ type_fail Fault.path_expected (skip s) (first (skip s))
  | true ↦ read_path s >>= λ p s1. elim (peek_symbol (codes ",") s1) [
    | none ↦ type_fail Fault.arity (skip s1) (first (skip s1))
    | some s2 ↦ elim (peek_symbol (34 ∷ []) s2) [
      | none ↦ type_fail Fault.pattern_expected (skip s2) (first (skip s2))
      | some _ ↦
          string_literal s2 >>= λ pattern s3. close_call s3 >>= λ _ s4. done (matches p pattern) s4
    ]
  ]
]

-- `_function`
unfoldable pub function : Text → Parsed Node
unfolding take_word take_symbol evidence_call matches_call
function s = take_word s >>= λ name s1. take_symbol (codes "(") s1 >>= λ _ s2.
    elim (text_eq name (codes "matches")) [ true ↦ matches_call s2 | false ↦ evidence_call name s2 ]

-- `_comparison`, behind its left operand.
unfoldable pub relation : ℕ → ℕ → Text → Operand → Text → Parsed Node
unfolding keyword read_membership compared skip
relation fuel nesting start l s = elim (keyword (codes "not") s) [
  | some s1 ↦ elim (keyword (codes "in") s1) [
    | some s2 ↦ read_membership fuel nesting not_in l s2
    | none ↦ fail Fault.in_expected (skip s1)
  ]
  | none ↦ elim (keyword (codes "in") s) [
    | some s1 ↦ read_membership fuel nesting is_in l s1
    | none ↦ compared fuel nesting start l (skip s)
  ]
]

-- `_comparison`
unfoldable pub comparison : ℕ → ℕ → Text → Parsed Node
unfolding peek_word function operand relation skip
comparison fuel nesting s = elim (is_one_of (peek_word s) functions) [
  | true ↦ function s
  | false ↦ operand fuel nesting s >>= λ l s1. relation fuel nesting (skip s) l s1
]

-- One operand stands for itself.
abbrev pub any_of : Nodes → Node
any_of (Nodes.cons n Nodes.nil) = n
any_of ns = disjunction ns

abbrev pub all_of : Nodes → Node
all_of (Nodes.cons n Nodes.nil) = n
all_of ns = conjunction ns

unfoldable mutual
  unfolding keyword peek_word peek_symbol take_symbol comparison skip

  -- The operands of `_or_expression`.
  pub or_operands : ℕ → ℕ → Text → Parsed Nodes
  or_operands zero nesting s = out_of_fuel
  or_operands (suc fuel) nesting s = and_operands fuel nesting s >>= λ ns s1.
      elim (keyword (codes "or") s1) [
        | some s2 ↦ or_operands fuel nesting s2 >>= λ more s3. done (Nodes.cons (all_of ns) more) s3
        | none ↦ done (Nodes.cons (all_of ns) Nodes.nil) (skip s1)
      ]

  -- The operands of `_and_expression`.
  pub and_operands : ℕ → ℕ → Text → Parsed Nodes
  and_operands zero nesting s = out_of_fuel
  and_operands (suc fuel) nesting s = not_expression fuel nesting s >>= λ n s1.
      elim (keyword (codes "and") s1) [
        | some s2 ↦ and_operands fuel nesting s2 >>= λ more s3. done (Nodes.cons n more) s3
        | none ↦ done (Nodes.cons n Nodes.nil) (skip s1)
      ]

  -- `_not_expression`
  pub not_expression : ℕ → ℕ → Text → Parsed Node
  not_expression zero nesting s = out_of_fuel
  not_expression (suc fuel) nesting s = elim (keyword (codes "not") s) [
    | none ↦ factor fuel nesting s
    | some s1 ↦ elim (is_word (peek_word s1) (codes "not")) [
      | true ↦ fail Fault.not_not (skip s1)
      | false ↦ factor fuel nesting s1 >>= λ n s2. done (negation n) s2
    ]
  ]

  -- `_not_expression`, behind `not`.
  pub factor : ℕ → ℕ → Text → Parsed Node
  factor zero nesting s = out_of_fuel
  factor (suc fuel) nesting s = elim (peek_symbol (codes "(") s) [
    | some s1 ↦ elim (leb max_nesting nesting) [
      | true ↦ fail Fault.nests_too_deep (skip s)
      | false ↦ or_operands fuel (suc nesting) s1 >>= λ ns s2.
          take_symbol (codes ")") s2 >>= λ _ s3. done (any_of ns) s3
    ]
    | none ↦ comparison fuel nesting s
  ]

abbrev pub at_end : Text → Bool
at_end [] = true
at_end (c ∷ s) = false

abbrev pub whole : Nodes → Text → Parsed Node
whole ns s = if at_end (skip s) then done (any_of ns) [] else fail Fault.trailing_input (skip s)

abbrev pub parse_fuel : Text → ℕ
parse_fuel source = 5 * length source + 5

-- `_Parser.parse`
unfoldable pub parse : Text → Parsed Node
unfolding or_operands skip
parse source =
    if at_end (skip source)
    then fail_at Fault.expression_expected [] []
    else or_operands (parse_fuel source) 0 source >>= whole
