-- ===== src/Expr/Operands.antt =====
-- The fuel of the operands and list literals of vfy/expr.py.
use verify_run.Base.{
  ℕ, zero, suc, ◌+◌, ◌*◌, ◌<◌, Option, none, some, [], ◌∷◌, Text, codes, length, leb, arith,
  Bool-cases, Option-cases, inl, inr,
}
use verify_run.Value.{Items}
use verify_run.Expr.Lexer.{
  Fault, Parsed, skip, peek_word, is_one_of, peek_symbol, take_symbol, path_roots,
}
use verify_run.Expr.Literals.{string_literal, integer_at, integer_literal, read_path}
use verify_run.Expr.Members.{
  max_nesting, boolean_word, literal_at, list_literal, list_members, list_member, operand,
}
use verify_run.Expr.Reads.{
  Reads, Reads-bind, Reads-weaken, Leaves, Leaves-some, Rests-some, peek_word-Leaves,
  peek_symbol-Rests, take_symbol-Reads, string_literal-Reads, integer_at-skip-Leaves,
  integer_literal-Reads, read_path-Reads,
}

boolean_word-Leaves : (b : ℕ) (o : Option (Text × Text)) → Leaves b o → Leaves b (boolean_word o)
boolean_word-Leaves b none h = tt
boolean_word-Leaves b (some x) h = ground arith

literal_at-Reads :
    (fault : Fault) (lists : Text → Parsed Items) (s : Text)
    → Reads (length s) (lists s)
    → Reads (length s) (literal_at fault lists s)
unfolding literal_at
literal_at-Reads fault lists s h = elim (Option-cases (boolean_word (peek_word s))) [
  | inr (x, e) ↦
      rw (e, literal_at)
        (Leaves-some (length s) (boolean_word (peek_word s)) x e
          (boolean_word-Leaves (length s) (peek_word s) (peek_word-Leaves s)))
  | inl e ↦ elim (Option-cases (peek_symbol (34 ∷ []) s)) [
    | inr (x, q) ↦
        rw (e, q, literal_at)
          (Reads-bind (length s) (length s) (string_literal s) _ (string_literal-Reads s)
            λ text s1 lt. lt)
    | inl q ↦ elim (Option-cases (peek_symbol (codes "[") s)) [
      | inr (x, k) ↦
          rw (e, q, k, literal_at) (Reads-bind (length s) (length s) (lists s) _ h λ xs s1 lt. lt)
      | inl k ↦ elim (Option-cases (integer_at (skip s))) [
        | inl m ↦ rw (e, q, k, m, literal_at) tt
        | inr (x, m) ↦
            let shorter : length x.1 < length s =
              Leaves-some (length s) (integer_at (skip s)) x m (integer_at-skip-Leaves s) in
            rw (e, q, k, m, literal_at)
              (Reads-bind (suc (length x.1)) (length s) (integer_literal (skip s) x.0 x.1) _
                (integer_literal-Reads (skip s) x.0 x.1) λ z s1 lt. omega arith)
      ]
    ]
  ]
]

mutual
  unfolding list_literal

  pub list_literal-Reads :
      (fuel nesting : ℕ) (s : Text)
      → 5 * length s < fuel
      → Reads (length s) (list_literal fuel nesting s)
  list_literal-Reads zero nesting s h = absurd (omega arith)
  list_literal-Reads (suc fuel) nesting s h = elim (Bool-cases (leb max_nesting nesting)) [
    | inl e ↦ rw (e, list_literal) tt
    | inr e ↦
        rw (e, list_literal)
          (Reads-bind (length s) (length s) (take_symbol (codes "[") s) _
            (take_symbol-Reads b'[' [] s)
            λ u s1 lt. elim (Option-cases (peek_symbol (codes "]") s1)) [
              | inr (rest, q) ↦
                  let less : length rest < length s1 =
                    Rests-some (length s1) _ rest q (peek_symbol-Rests b']' [] s1) in
                  rw q (omega arith)
              | inl q ↦ rw q (
                  Reads-weaken (length s1) (length s) (list_members fuel (suc nesting) s1)
                    (omega arith) (list_members-Reads fuel (suc nesting) s1 (omega arith)))
            ])
  ]

  list_members-Reads :
      (fuel nesting : ℕ) (s : Text)
      → 5 * length s + 2 < fuel
      → Reads (length s) (list_members fuel nesting s)
  list_members-Reads zero nesting s h = absurd (omega arith)
  list_members-Reads (suc fuel) nesting s h =
      Reads-bind (length s) (length s) (list_member fuel nesting s) _
        (list_member-Reads fuel nesting s (omega arith))
        λ v s1 lt. elim (Option-cases (peek_symbol (codes ",") s1)) [
          | inl e ↦ rw e (
              Reads-bind (length s1) (length s) (take_symbol (codes "]") s1) _
                (take_symbol-Reads b']' [] s1) λ u s2 less. omega arith)
          | inr (s2, e) ↦
              let less : length s2 < length s1 =
                Rests-some (length s1) _ s2 e (peek_symbol-Rests b',' [] s1) in
              elim (Option-cases (peek_symbol (codes "]") s2)) [
                | inr (rest, q) ↦ rw (e, q) tt
                | inl q ↦
                    rw (e, q)
                      (Reads-bind (length s2) (length s) (list_members fuel nesting s2) _
                        (list_members-Reads fuel nesting s2 (omega arith))
                        λ vs s3 fewer. omega arith)
              ]
        ]

  list_member-Reads :
      (fuel nesting : ℕ) (s : Text)
      → 5 * length s + 1 < fuel
      → Reads (length s) (list_member fuel nesting s)
  list_member-Reads zero nesting s h = absurd (omega arith)
  list_member-Reads (suc fuel) nesting s h =
      literal_at-Reads Fault.list_holds_literals (list_literal fuel nesting) s
        (list_literal-Reads fuel nesting s (omega arith))

pub operand-Reads :
    (fuel nesting : ℕ) (s : Text) → 5 * length s < fuel → Reads (length s) (operand fuel nesting s)
unfolding operand
operand-Reads fuel nesting s h = elim (Bool-cases (is_one_of (peek_word s) path_roots)) [
  | inl e ↦
      rw (e, operand)
        (Reads-bind (length s) (length s) (read_path s) _ (read_path-Reads s) λ p s1 lt. lt)
  | inr e ↦
      rw (e, operand)
        (Reads-bind (length s) (length s)
          (literal_at Fault.operand_expected (list_literal fuel nesting) s) _
          (literal_at-Reads Fault.operand_expected (list_literal fuel nesting) s
            (list_literal-Reads fuel nesting s h))
          λ v s1 lt. lt)
]
