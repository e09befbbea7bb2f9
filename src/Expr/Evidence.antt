-- ===== src/Expr/Evidence.antt =====
-- vfy/expr.py: the evidence ids that an expression names (`_collect_evidence_ids`), the result of
-- `parse_expression` and the check of `validate_expression`. Of the reload of the canonical text, what is
-- there is the bound on its depth: JSON that `canonicalize` has written is read back without a failure.
use verify_run.Base.{false, Option, none, some, List, [], ◌∷◌, ◌++◌, Text, text_mem, if◌then◌else◌}
use verify_run.Expr.{
  Root, PathNode, Operand, literal, path, Node, conjunction, disjunction, negation, membership,
  matches, fresh, present, Nodes,
}
use verify_run.Expr.Lexer.{Refusal, Parsed, ◌>>=◌, done, refused, out_of_fuel}
use verify_run.Expr.Document.{node_value, exceeds_depth}
use verify_run.Base.Int.{pos}
use verify_run.Canon
use verify_run.Canon.{Written, text, canonicalize}
use verify_run.Expr.Parser.{parse}

-- `_append_once`
unfoldable pub append_once : List Text → Text → List Text
append_once out identifier = if text_mem identifier out then out else out ++ identifier ∷ []

abbrev root_ids : Root → Text → List Text → List Text
root_ids Root.evidence first out = append_once out first
root_ids _ first out = out

-- `_collect_evidence_ids`, on a path.
unfoldable pub path_ids : PathNode → List Text → List Text
unfolding append_once
path_ids p out = root_ids p.root p.first out

abbrev pub operand_ids : Operand → List Text → List Text
operand_ids (literal v) out = out
operand_ids (path p) out = path_ids p out

unfoldable mutual
  unfolding append_once path_ids

  -- `_collect_evidence_ids`
  pub evidence_ids : Node → List Text → List Text
  evidence_ids (fresh id) out = append_once out id
  evidence_ids (present id) out = append_once out id
  evidence_ids (conjunction ns) out = all_evidence_ids ns out
  evidence_ids (disjunction ns) out = all_evidence_ids ns out
  evidence_ids (negation n) out = evidence_ids n out
  evidence_ids (Node.compare op l r) out = operand_ids r (operand_ids l out)
  evidence_ids (membership op o members) out = operand_ids o out
  evidence_ids (matches p pattern) out = path_ids p out

  pub all_evidence_ids : Nodes → List Text → List Text
  all_evidence_ids Nodes.nil out = out
  all_evidence_ids (Nodes.cons n ns) out = all_evidence_ids ns (evidence_ids n out)

-- What `parse_expression` keeps.
pub record ParsedExpression : Type 0 where
  pub source : Text
  pub tree : Node
  pub canonical : Text
  pub referenced : List Text

-- `canonicalize` of the tree, whose fuel does not run out, and the reload of the text.
abbrev pub reloaded : Text → Node → Text → Option Written → Parsed ParsedExpression
reloaded source tree rest none = out_of_fuel
reloaded source tree rest (some (Written.refused Canon.canonical_form_invalid)) =
    refused Refusal.canonical_form_invalid
reloaded source tree rest (some (Written.refused Canon.surrogate_not_permitted)) =
    refused Refusal.surrogate_not_permitted
reloaded source tree rest (some (text canonical)) =
    if exceeds_depth (pos 0) false false canonical
    then refused Refusal.source_too_deep
    else done
        (record {
          source = source;
          tree = tree;
          canonical = canonical;
          referenced = evidence_ids tree [];
        })
        rest

-- `parse_expression`
unfoldable pub parse_expression : Text → Parsed ParsedExpression
unfolding parse evidence_ids canonicalize exceeds_depth
parse_expression source =
    parse source >>= λ tree rest. reloaded source tree rest (canonicalize (node_value tree))

-- `validate_expression`: the first id that is not declared.
unfoldable pub first_undeclared : List Text → List Text → Option Text
first_undeclared declared [] = none
first_undeclared declared (id ∷ ids) =
    if text_mem id declared then first_undeclared declared ids else some id
