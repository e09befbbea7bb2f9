-- ===== src/Expr/Members.antt =====
-- vfy/expr.py: the operands that `_Parser` reads, and its list literals, which nest on fuel.
use verify_run.Base.{
  ℕ, zero, suc, Bool, true, false, Option, none, some, [], ◌∷◌, Text, codes, text_eq, text_mem, leb,
  if◌then◌else◌,
}
use verify_run.Value.{Value, bool, int, str, list, Items, nil, cons}
use verify_run.Expr.{Operand, literal, path}
use verify_run.Expr.Lexer.{
  Fault, Parsed, done, out_of_fuel, ◌>>=◌, fail, skip, peek_word, is_one_of, peek_symbol,
  take_symbol, path_roots, booleans,
}
use verify_run.Expr.Literals.{string_literal, integer_at, integer_literal, read_path}

abbrev pub max_nesting : ℕ
max_nesting = 64

-- `word in ("true", "false")`
abbrev pub boolean_word : Option (Text × Text) → Option (Bool × Text)
boolean_word none = none
boolean_word (some (w, rest)) =
    if text_mem w booleans then some (text_eq w (codes "true"), rest) else none

-- What `_operand` and `_list_member` share; `lists` is `_list_literal`.
unfoldable pub literal_at : Fault → (Text → Parsed Items) → Text → Parsed Value
unfolding peek_word peek_symbol string_literal integer_at integer_literal skip
literal_at fault lists s = elim (boolean_word (peek_word s)) [
  | some (b, rest) ↦ done (bool b) rest
  | none ↦ elim (peek_symbol (34 ∷ []) s) [
    | some _ ↦ string_literal s >>= λ text s1. done (str text) s1
    | none ↦ elim (peek_symbol (codes "[") s) [
      | some _ ↦ lists s >>= λ xs s1. done (list xs) s1
      | none ↦ elim (integer_at (skip s)) [
        | some (text, rest) ↦ integer_literal (skip s) text rest >>= λ z s1. done (int z) s1
        | none ↦ fail fault (skip s)
      ]
    ]
  ]
]

unfoldable mutual
  unfolding take_symbol peek_symbol literal_at skip

  -- `_list_literal`
  pub list_literal : ℕ → ℕ → Text → Parsed Items
  list_literal zero nesting s = out_of_fuel
  list_literal (suc fuel) nesting s = elim (leb max_nesting nesting) [
    | true ↦ fail Fault.nests_too_deep (skip s)
    | false ↦ take_symbol (codes "[") s >>= λ _ s1. elim (peek_symbol (codes "]") s1) [
      | some rest ↦ done nil rest
      | none ↦ list_members fuel (suc nesting) s1
    ]
  ]

  -- The loop of `_list_literal`.
  pub list_members : ℕ → ℕ → Text → Parsed Items
  list_members zero nesting s = out_of_fuel
  list_members (suc fuel) nesting s = list_member fuel nesting s >>= λ v s1.
      elim (peek_symbol (codes ",") s1) [
        | some s2 ↦ elim (peek_symbol (codes "]") s2) [
          | some _ ↦ fail Fault.trailing_comma (skip s2)
          | none ↦ list_members fuel nesting s2 >>= λ vs s3. done (cons v vs) s3
        ]
        | none ↦ take_symbol (codes "]") s1 >>= λ _ s2. done (cons v nil) s2
      ]

  -- `_list_member`
  pub list_member : ℕ → ℕ → Text → Parsed Value
  list_member zero nesting s = out_of_fuel
  list_member (suc fuel) nesting s =
      literal_at Fault.list_holds_literals (list_literal fuel nesting) s

-- `_operand`
unfoldable pub operand : ℕ → ℕ → Text → Parsed Operand
unfolding peek_word read_path literal_at list_literal
operand fuel nesting s = elim (is_one_of (peek_word s) path_roots) [
  | true ↦ read_path s >>= λ p s1. done (path p) s1
  | false ↦ literal_at Fault.operand_expected (list_literal fuel nesting) s >>= λ v s1.
      done (literal v) s1
]
