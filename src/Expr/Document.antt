-- ===== src/Expr/Document.antt =====
-- The parsed form of vfy/expr.py as a document, with the names that the parser gives its members, and
-- `_reject_excess_depth` of vfy/load.py, which `parse_expression` has the document pass.
use verify_run.Base.{
  ℕ, Bool, true, false, not, ◌&&◌, ◌||◌, List, [], ◌∷◌, Text, codes, ◌==◌, if◌then◌else◌,
}
use verify_run.Base.Int.{ℤ, pos, ltb_ℤ, ◌+ℤ◌, ◌-ℤ◌}
use verify_run.Expr.{
  Segment, member, index, Root, PathNode, Operand, literal, path, Comparison, Containment, is_in,
  not_in, Node, conjunction, disjunction, negation, membership, matches, fresh, present, Nodes,
}
use verify_run.Value.{Value, int, str, list, dict, Fields, end, field, Items, nil, cons}

abbrev segment_value : Segment → Value
segment_value (member name) = dict (field (codes "member") (str name) end)
segment_value (index n) = dict (field (codes "index") (int (pos n)) end)

abbrev segment_values : List Segment → Items
segment_values [] = nil
segment_values (s ∷ ss) = cons (segment_value s) (segment_values ss)

abbrev root_name : Root → Text
root_name Root.candidate = codes "candidate"
root_name Root.evidence = codes "evidence"
root_name Root.identity = codes "identity"

abbrev typed : Text → Fields → Value
typed name rest = dict (field (codes "type") (str name) rest)

abbrev path_value : PathNode → Value
path_value p = typed (codes "path") (
    field (codes "root") (str (root_name p.root)) (
      field (codes "segments")
        (list (cons (segment_value (member p.first)) (segment_values p.segments))) end))

abbrev literal_value : Value → Value
literal_value v = typed (codes "literal") (field (codes "value") v end)

abbrev operand_value : Operand → Value
operand_value (literal v) = literal_value v
operand_value (path p) = path_value p

abbrev operator_text : Comparison → Text
operator_text Comparison.eq = codes "=="
operator_text Comparison.ne = codes "!="
operator_text Comparison.le = codes "<="
operator_text Comparison.ge = codes ">="
operator_text Comparison.lt = codes "<"
operator_text Comparison.gt = codes ">"

abbrev containment_text : Containment → Text
containment_text is_in = codes "in"
containment_text not_in = codes "not in"

abbrev evidence_value : Text → Text → Value
evidence_value name id = typed name (field (codes "evidence_id") (str id) end)

abbrev mutual
  -- The tree that `_Parser.parse` returns.
  pub node_value : Node → Value
  node_value (conjunction ns) =
      typed (codes "and") (field (codes "operands") (list (node_values ns)) end)
  node_value (disjunction ns) =
      typed (codes "or") (field (codes "operands") (list (node_values ns)) end)
  node_value (negation n) = typed (codes "not") (field (codes "operand") (node_value n) end)
  node_value (Node.compare op l r) = typed (codes "compare") (
      field (codes "operator") (str (operator_text op))
        (field (codes "left") (operand_value l) (field (codes "right") (operand_value r) end)))
  node_value (membership op o members) = typed (codes "membership") (
      field (codes "operator") (str (containment_text op)) (
        field (codes "operand") (operand_value o)
          (field (codes "list") (literal_value (list members)) end)))
  node_value (matches p pattern) =
      typed (codes "matches")
        (field (codes "path") (path_value p) (field (codes "pattern") (str pattern) end))
  node_value (fresh id) = evidence_value (codes "fresh") id
  node_value (present id) = evidence_value (codes "present") id

  pub node_values : Nodes → Items
  node_values Nodes.nil = nil
  node_values (Nodes.cons n ns) = cons (node_value n) (node_values ns)

-- MAX_DEPTH of vfy/load.py
abbrev max_document_depth : ℤ
max_document_depth = pos 64

abbrev opens : ℕ → Bool
opens c = (c == b'{') || (c == b'[')

abbrev closes : ℕ → Bool
closes c = (c == b'}') || (c == b']')

abbrev next_depth : ℕ → ℤ → ℤ
next_depth c depth = if opens c then depth +ℤ pos 1 else if closes c then depth -ℤ pos 1 else depth

-- The loop of `_reject_excess_depth`, with its `depth`, `in_string` and `escaped`: whether it raises
-- SourceTooDeep.
unfoldable pub exceeds_depth : ℤ → Bool → Bool → Text → Bool
unfolding ◌+ℤ◌ ◌-ℤ◌
exceeds_depth depth in_string escaped [] = false
exceeds_depth depth true true (c ∷ s) = exceeds_depth depth true false s
exceeds_depth depth true false (c ∷ s) = exceeds_depth depth (not (c == 34)) (c == 92) s
exceeds_depth depth false escaped (c ∷ s) =
    (opens c && ltb_ℤ max_document_depth (next_depth c depth))
    || exceeds_depth (next_depth c depth) (c == 34) escaped s
