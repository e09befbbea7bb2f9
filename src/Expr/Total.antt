-- ===== src/Expr/Total.antt =====
-- The fuel of the parser of vfy/expr.py.
use verify_run.Base.{
  ℕ, zero, suc, ◌+◌, ◌*◌, ◌<◌, ◌≡◌, refl, subst, Option, none, some, List, [], ◌∷◌, Text, codes,
  text_eq, text_mem, length, leb, arith, Bool-cases, Option-cases, inl, inr, ◌⊎◌,
}
use verify_run.Expr.{Operand, Comparison, Containment, Node, Nodes, is_in, not_in}
use verify_run.Expr.Lexer.{
  Fault, Refusal, Parsed, done, refused, out_of_fuel, skip, peek_word, is_word, is_one_of,
  take_word, after, peek_symbol, take_symbol, keyword, path_roots, functions, keywords,
}
use verify_run.Expr.Literals.{string_literal, read_path, literal_mismatch}
use verify_run.Expr.Parser.{
  operators, operator_of, operator_at, reject_chained, checked_compare, compared, read_membership,
  close_call, evidence_call, matches_call, function, relation, comparison, or_operands,
  and_operands, not_expression, factor, at_end, whole, parse, parse_fuel,
}
use verify_run.Expr.Members.{max_nesting, list_literal, operand}
use verify_run.Expr.Reads.{
  Reads, Reads-bind, Reads-weaken, Leaves-some, Rests-some, length-skip, peek_word-Leaves,
  take_word-Reads, after-Rests, peek_symbol-Rests, take_symbol-Reads, keyword-Rests,
  string_literal-Reads, read_path-Reads,
}
use verify_run.Expr.Operands.{list_literal-Reads, operand-Reads}

abbrev Behind : ℕ → Option (Comparison × Text × Text) → Type 0
Behind bound none = Unit
Behind bound (some x) = length x.2 < bound

Behind-some :
    (bound : ℕ) (o : Option (Comparison × Text × Text)) (x : Comparison × Text × Text)
    → o ≡ some x
    → Behind bound o
    → length x.2 < bound
Behind-some bound none x e h = cc
Behind-some bound (some y) x e h = subst (Behind bound) e h

abbrev AllSymbols : List (Text × Comparison) → Type 0
AllSymbols [] = Unit
AllSymbols (([], c) ∷ os) = ⊥
AllSymbols ((d ∷ symbol, c) ∷ os) = AllSymbols os

operator_of-Behind :
    (os : List (Text × Comparison)) (s : Text)
    → AllSymbols os
    → Behind (length s) (operator_of os s)
unfolding operator_of
operator_of-Behind [] s h = tt
operator_of-Behind (([], c) ∷ os) s h = absurd h
operator_of-Behind ((d ∷ symbol, c) ∷ os) s h = elim (Option-cases (after (d ∷ symbol) s)) [
  | inl e ↦ rw (e, operator_of) (operator_of-Behind os s h)
  | inr (rest, e) ↦ rw (e, operator_of) (Rests-some (length s) _ rest e (after-Rests d symbol s))
]

operator_at-Behind : (s : Text) → Behind (length s) (operator_at s)
unfolding operator_at
operator_at-Behind s = operator_of-Behind operators s tt

reject_chained-Reads : (s : Text) → Reads (suc (length s)) (reject_chained s)
unfolding reject_chained
reject_chained-Reads s = elim (Option-cases (operator_at (skip s))) [
  | inl e ↦ rw (e, reject_chained) (omega (arith, length-skip s))
  | inr (x, e) ↦ rw (e, reject_chained) tt
]

checked_compare-Reads :
    (b : ℕ) (op : Comparison) (at token : Text) (l r : Operand) (s : Text) (o : Option Fault)
    → length s < b
    → Reads b (checked_compare op at token l r s o)
checked_compare-Reads b op at token l r s none h = h
checked_compare-Reads b op at token l r s (some fault) h = tt

compared-Reads :
    (fuel nesting : ℕ) (start : Text) (l : Operand) (s : Text)
    → 5 * length s < fuel
    → Reads (length s) (compared fuel nesting start l s)
unfolding compared
compared-Reads fuel nesting start l s h = elim (Option-cases (operator_at s)) [
  | inl e ↦ rw (e, compared) tt
  | inr (x, e) ↦
      let less : length x.2 < length s =
        Behind-some (length s) (operator_at s) x e (operator_at-Behind s) in
      rw (e, compared)
        (Reads-bind (length x.2) (length s) (operand fuel nesting x.2) _
          (operand-Reads fuel nesting x.2 (omega arith))
          λ r s1 lt.
            Reads-bind (suc (length s1)) (length s) (reject_chained s1) _ (reject_chained-Reads s1)
              λ u s2 le.
                checked_compare-Reads (length s) x.0 s x.1 l r s2 (literal_mismatch x.0 l r)
                  (omega arith))
]

read_membership-Reads :
    (fuel nesting : ℕ) (op : Containment) (l : Operand) (s : Text)
    → 5 * length s < fuel
    → Reads (length s) (read_membership fuel nesting op l s)
unfolding read_membership
read_membership-Reads fuel nesting op l s h = elim (Option-cases (peek_symbol (codes "[") s)) [
  | inl e ↦ rw (e, read_membership) tt
  | inr (x, e) ↦
      rw (e, read_membership)
        (Reads-bind (length s) (length s) (list_literal fuel nesting s) _
          (list_literal-Reads fuel nesting s h) λ xs s1 lt. lt)
]

close_call-Reads : (s : Text) → Reads (length s) (close_call s)
unfolding close_call
close_call-Reads s = elim (Option-cases (peek_symbol (codes ",") s)) [
  | inr (x, e) ↦ rw (e, close_call) tt
  | inl e ↦ elim (Option-cases (peek_symbol (codes ")") s)) [
    | inl q ↦ rw (e, q, close_call) tt
    | inr (x, q) ↦ rw (e, q, close_call) (Rests-some (length s) _ x q (peek_symbol-Rests b')' [] s))
  ]
]

evidence_call-Reads : (name s : Text) → Reads (length s) (evidence_call name s)
unfolding evidence_call
evidence_call-Reads name s = elim (Option-cases (peek_word s)) [
  | inl e ↦ rw (e, evidence_call) tt
  | inr (x, e) ↦
      let less : length x.1 < length s =
        Leaves-some (length s) (peek_word s) x e (peek_word-Leaves s) in
      elim (Bool-cases (text_mem x.0 keywords)) [
        | inl k ↦ rw (e, k, evidence_call) tt
        | inr k ↦ elim (Option-cases (peek_symbol (codes ".") x.1)) [
          | inr (y, q) ↦ rw (e, k, q, evidence_call) tt
          | inl q ↦ elim (Option-cases (peek_symbol (codes "[") x.1)) [
            | inr (y, m) ↦ rw (e, k, q, m, evidence_call) tt
            | inl m ↦
                rw (e, k, q, m, evidence_call)
                  (Reads-bind (length x.1) (length s) (close_call x.1) _ (close_call-Reads x.1)
                    λ u s1 lt. omega arith)
          ]
        ]
      ]
]

matches_call-Reads : (s : Text) → Reads (length s) (matches_call s)
unfolding matches_call
matches_call-Reads s = elim (Bool-cases (is_one_of (peek_word s) path_roots)) [
  | inr e ↦ rw (e, matches_call) tt
  | inl e ↦
      rw (e, matches_call)
        (Reads-bind (length s) (length s) (read_path s) _ (read_path-Reads s) λ p s1 lt1.
          elim (Option-cases (peek_symbol (codes ",") s1)) [
            | inl q ↦ rw q tt
            | inr (s2, q) ↦
                let lt2 : length s2 < length s1 =
                  Rests-some (length s1) _ s2 q (peek_symbol-Rests b',' [] s1) in
                elim (Option-cases (peek_symbol (34 ∷ []) s2)) [
                  | inl k ↦ rw (q, k) tt
                  | inr (x, k) ↦
                      rw (q, k)
                        (Reads-bind (length s2) (length s) (string_literal s2) _
                          (string_literal-Reads s2)
                          λ pattern s3 lt3.
                            Reads-bind (length s3) (length s) (close_call s3) _
                              (close_call-Reads s3) λ u s4 lt4. omega arith)
                ]
          ])
]

function-Reads : (s : Text) → Reads (length s) (function s)
unfolding function
function-Reads s =
    Reads-bind (length s) (length s) (take_word s) _ (take_word-Reads s) λ name s1 lt1.
      Reads-bind (length s1) (length s) (take_symbol (codes "(") s1) _
        (take_symbol-Reads b'(' [] s1)
        λ u s2 lt2. elim (Bool-cases (text_eq name (codes "matches"))) [
          | inl e ↦
              rw e
                (Reads-weaken (length s2) _ (matches_call s2) (omega arith) (matches_call-Reads s2))
          | inr e ↦ rw e (
              Reads-weaken (length s2) _ (evidence_call name s2) (omega arith)
                (evidence_call-Reads name s2))
        ]

relation-Reads :
    (fuel nesting : ℕ) (start : Text) (l : Operand) (s : Text)
    → 5 * length s < fuel
    → Reads (length s) (relation fuel nesting start l s)
unfolding relation
relation-Reads fuel nesting start l s h = elim (Option-cases (keyword (codes "not") s)) [
  | inr (s1, e) ↦
      let lt1 : length s1 < length s =
        Rests-some (length s) _ s1 e (keyword-Rests (codes "not") s) in
      elim (Option-cases (keyword (codes "in") s1)) [
        | inl q ↦ rw (e, q, relation) tt
        | inr (s2, q) ↦
            let lt2 : length s2 < length s1 =
              Rests-some (length s1) _ s2 q (keyword-Rests (codes "in") s1) in
            rw (e, q, relation)
              (Reads-weaken (length s2) _ (read_membership fuel nesting not_in l s2) (omega arith)
                (read_membership-Reads fuel nesting not_in l s2 (omega arith)))
      ]
  | inl e ↦ elim (Option-cases (keyword (codes "in") s)) [
    | inr (s1, q) ↦
        let lt1 : length s1 < length s =
          Rests-some (length s) _ s1 q (keyword-Rests (codes "in") s) in
        rw (e, q, relation)
          (Reads-weaken (length s1) _ (read_membership fuel nesting is_in l s1) (omega arith)
            (read_membership-Reads fuel nesting is_in l s1 (omega arith)))
    | inl q ↦
        rw (e, q, relation)
          (Reads-weaken (length (skip s)) _ (compared fuel nesting start l (skip s)) (length-skip s)
            (compared-Reads fuel nesting start l (skip s) (omega (arith, length-skip s))))
  ]
]

comparison-Reads :
    (fuel nesting : ℕ) (s : Text)
    → 5 * length s < fuel
    → Reads (length s) (comparison fuel nesting s)
unfolding comparison
comparison-Reads fuel nesting s h = elim (Bool-cases (is_one_of (peek_word s) functions)) [
  | inl e ↦ rw (e, comparison) (function-Reads s)
  | inr e ↦
      rw (e, comparison)
        (Reads-bind (length s) (length s) (operand fuel nesting s) _
          (operand-Reads fuel nesting s h)
          λ l s1 lt.
            Reads-weaken (length s1) _ (relation fuel nesting (skip s) l s1) (omega arith)
              (relation-Reads fuel nesting (skip s) l s1 (omega arith)))
]

mutual
  unfolding or_operands

  or_operands-Reads :
      (fuel nesting : ℕ) (s : Text)
      → 5 * length s + 4 < fuel
      → Reads (length s) (or_operands fuel nesting s)
  or_operands-Reads zero nesting s h = absurd (omega arith)
  or_operands-Reads (suc fuel) nesting s h =
      Reads-bind (length s) (length s) (and_operands fuel nesting s) _
        (and_operands-Reads fuel nesting s (omega arith))
        λ ns s1 lt1. elim (Option-cases (keyword (codes "or") s1)) [
          | inl e ↦ rw e (omega (arith, length-skip s1))
          | inr (s2, e) ↦
              let lt2 : length s2 < length s1 =
                Rests-some (length s1) _ s2 e (keyword-Rests (codes "or") s1) in
              rw e (
                Reads-bind (length s2) (length s) (or_operands fuel nesting s2) _
                  (or_operands-Reads fuel nesting s2 (omega arith)) λ more s3 lt3. omega arith)
        ]

  and_operands-Reads :
      (fuel nesting : ℕ) (s : Text)
      → 5 * length s + 3 < fuel
      → Reads (length s) (and_operands fuel nesting s)
  and_operands-Reads zero nesting s h = absurd (omega arith)
  and_operands-Reads (suc fuel) nesting s h =
      Reads-bind (length s) (length s) (not_expression fuel nesting s) _
        (not_expression-Reads fuel nesting s (omega arith))
        λ n s1 lt1. elim (Option-cases (keyword (codes "and") s1)) [
          | inl e ↦ rw e (omega (arith, length-skip s1))
          | inr (s2, e) ↦
              let lt2 : length s2 < length s1 =
                Rests-some (length s1) _ s2 e (keyword-Rests (codes "and") s1) in
              rw e (
                Reads-bind (length s2) (length s) (and_operands fuel nesting s2) _
                  (and_operands-Reads fuel nesting s2 (omega arith)) λ more s3 lt3. omega arith)
        ]

  not_expression-Reads :
      (fuel nesting : ℕ) (s : Text)
      → 5 * length s + 2 < fuel
      → Reads (length s) (not_expression fuel nesting s)
  not_expression-Reads zero nesting s h = absurd (omega arith)
  not_expression-Reads (suc fuel) nesting s h = elim (Option-cases (keyword (codes "not") s)) [
    | inl e ↦ rw (e, not_expression) (factor-Reads fuel nesting s (omega arith))
    | inr (s1, e) ↦
        let lt1 : length s1 < length s =
          Rests-some (length s) _ s1 e (keyword-Rests (codes "not") s) in
        elim (Bool-cases (is_word (peek_word s1) (codes "not"))) [
          | inl q ↦ rw (e, q, not_expression) tt
          | inr q ↦
              rw (e, q, not_expression)
                (Reads-bind (length s1) (length s) (factor fuel nesting s1) _
                  (factor-Reads fuel nesting s1 (omega arith)) λ n s2 lt2. omega arith)
        ]
  ]

  factor-Reads :
      (fuel nesting : ℕ) (s : Text)
      → 5 * length s + 1 < fuel
      → Reads (length s) (factor fuel nesting s)
  factor-Reads zero nesting s h = absurd (omega arith)
  factor-Reads (suc fuel) nesting s h = elim (Option-cases (peek_symbol (codes "(") s)) [
    | inl e ↦ rw (e, factor) (comparison-Reads fuel nesting s (omega arith))
    | inr (s1, e) ↦
        let lt1 : length s1 < length s =
          Rests-some (length s) _ s1 e (peek_symbol-Rests b'(' [] s) in
        elim (Bool-cases (leb max_nesting nesting)) [
          | inl q ↦ rw (e, q, factor) tt
          | inr q ↦
              rw (e, q, factor)
                (Reads-bind (length s1) (length s) (or_operands fuel (suc nesting) s1) _
                  (or_operands-Reads fuel (suc nesting) s1 (omega arith))
                  λ ns s2 lt2.
                    Reads-bind (length s2) (length s) (take_symbol (codes ")") s2) _
                      (take_symbol-Reads b')' [] s2) λ u s3 lt3. omega arith)
        ]
  ]

whole-Reads : (ns : Nodes) (s : Text) → Reads 1 (whole ns s)
whole-Reads ns s = ground arith

parse-Reads : (source : Text) → Reads 1 (parse source)
unfolding parse
parse-Reads source = elim (Bool-cases (at_end (skip source))) [
  | inl e ↦ rw (e, parse) tt
  | inr e ↦
      rw (e, parse)
        (Reads-bind (length source) 1 (or_operands (parse_fuel source) 0 source) _
          (or_operands-Reads (parse_fuel source) 0 source (omega arith))
          λ ns s lt. whole-Reads ns s)
]

pub parse-ends :
    (source : Text)
    → ((n : Node) × (parse source ≡ done n [])) ⊎ ((e : Refusal) × (parse source ≡ refused e))
parse-ends source = answer (parse source) (parse-Reads source)
  where
    answer :
        (r : Parsed Node)
        → Reads 1 r
        → ((n : Node) × (r ≡ done n [])) ⊎ ((e : Refusal) × (r ≡ refused e))
    answer (done n []) h = inl (n, refl)
    answer (done n (c ∷ s)) h = absurd (omega arith)
    answer (refused e) h = inr (e, refl)
    answer out_of_fuel h = absurd h
