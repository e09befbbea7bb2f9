-- ===== src/Expr/Reach.antt =====
-- The evidence ids of vfy/expr.py and the evidence that an evaluation reads.
use mathlib.Core.Path.{ap₂}
use verify_run.Base.{
  ◌≡◌, refl, ap, ◌∙◌, true, false, List, [], ◌∷◌, ◌++◌, Text, text_mem, text_eq_refl, arith,
  Bool-cases, inl, inr,
}
use verify_run.Context.{
  Context, Cause, find_item, find_declaration, ok_item, resolve, resolve_root, resolve_evidence,
  readable,
}
use verify_run.Expr.{
  Root, PathNode, Operand, literal, path, Node, conjunction, disjunction, negation, membership,
  matches, fresh, present, Nodes, Comparison,
}
use verify_run.Expr.Evidence.{append_once, path_ids, operand_ids, evidence_ids, all_evidence_ids}
use verify_run.Evaluate.{
  of_bool, negate, combine_states, compare_state, membership_state, matches_state, within_age,
  bound_of, item_ok, is_fresh, evaluate_compare, evaluate_membership, evaluate_matches,
  evaluate_node, evaluate_nodes,
}

-- Two recorded inputs that agree on the candidate, on the freeze, and on the item and declaration of
-- every one of the ids.
pub record Agree (ids : List Text) (c d : Context) : Type 0 where
  pub same_candidate : c.candidate ≡ d.candidate
  pub same_freeze : c.frozen_at ≡ d.frozen_at
  pub same_item : (id : Text) → text_mem id ids ≡ true → find_item id c.items ≡ find_item id d.items
  pub same_declaration :
      (id : Text)
      → text_mem id ids ≡ true
      → find_declaration id c.declarations ≡ find_declaration id d.declarations

mem-append :
    (id : Text) (out rest : List Text) → text_mem id out ≡ true → text_mem id (out ++ rest) ≡ true
mem-append id [] rest h = cc
mem-append id (x ∷ out) rest h = ground (arith, mem-append id out rest)

mem-append_end : (id : Text) (out : List Text) → text_mem id (out ++ id ∷ []) ≡ true
mem-append_end id [] = ground (arith, text_eq_refl id)
mem-append_end id (x ∷ out) = ground (arith, mem-append_end id out)

append_once-kept :
    (id new : Text) (out : List Text)
    → text_mem id out ≡ true
    → text_mem id (append_once out new) ≡ true
unfolding append_once
append_once-kept id new out h = elim (Bool-cases (text_mem new out)) [
  | inl e ↦ rw e h
  | inr e ↦ rw e (mem-append id out (new ∷ []) h)
]

append_once-added : (id : Text) (out : List Text) → text_mem id (append_once out id) ≡ true
unfolding append_once
append_once-added id out = elim (Bool-cases (text_mem id out)) [
  | inl e ↦ rw e e
  | inr e ↦ rw e (mem-append_end id out)
]

path_ids-kept :
    (id : Text) (p : PathNode) (out : List Text)
    → text_mem id out ≡ true
    → text_mem id (path_ids p out) ≡ true
unfolding path_ids
path_ids-kept id p out h = by_root p.root
  where
    by_root : (r : Root) → text_mem id (path_ids (record p { root = r }) out) ≡ true
    by_root Root.candidate = h
    by_root Root.evidence = append_once-kept id p.first out h
    by_root Root.identity = h

operand_ids-kept :
    (id : Text) (o : Operand) (out : List Text)
    → text_mem id out ≡ true
    → text_mem id (operand_ids o out) ≡ true
operand_ids-kept id (literal v) out h = h
operand_ids-kept id (path p) out h = path_ids-kept id p out h

mutual
  unfolding evidence_ids

  node-kept :
      (id : Text) (n : Node) (out : List Text)
      → text_mem id out ≡ true
      → text_mem id (evidence_ids n out) ≡ true
  node-kept id (fresh i) out h = append_once-kept id i out h
  node-kept id (present i) out h = append_once-kept id i out h
  node-kept id (conjunction ns) out h = nodes-kept id ns out h
  node-kept id (disjunction ns) out h = nodes-kept id ns out h
  node-kept id (negation n) out h = node-kept id n out h
  node-kept id (Node.compare op l r) out h =
      operand_ids-kept id r (operand_ids l out) (operand_ids-kept id l out h)
  node-kept id (membership op o members) out h = operand_ids-kept id o out h
  node-kept id (matches p pattern) out h = path_ids-kept id p out h

  nodes-kept :
      (id : Text) (ns : Nodes) (out : List Text)
      → text_mem id out ≡ true
      → text_mem id (all_evidence_ids ns out) ≡ true
  nodes-kept id Nodes.nil out h = h
  nodes-kept id (Nodes.cons n ns) out h =
      nodes-kept id ns (evidence_ids n out) (node-kept id n out h)

-- Agreement on more ids is agreement on fewer.
Agree-fewer :
    (ids more : List Text) (c d : Context)
    → ((id : Text) → text_mem id ids ≡ true → text_mem id more ≡ true)
    → Agree more c d
    → Agree ids c d
Agree-fewer ids more c d sub h = record {
  same_candidate = h.same_candidate;
  same_freeze = h.same_freeze;
  same_item = λ id m. h.same_item id (sub id m);
  same_declaration = λ id m. h.same_declaration id (sub id m);
}

path-same :
    (c d : Context) (p : PathNode) (out : List Text) (causes : List Cause)
    → Agree (path_ids p out) c d
    → resolve c (path p) causes ≡ resolve d (path p) causes
unfolding resolve path_ids
path-same c d p out causes h = by_root p.root h
  where
    by_root :
        (r : Root)
        → Agree (path_ids (record p { root = r }) out) c d
        → resolve_root r c p.first p.segments causes ≡ resolve_root r d p.first p.segments causes
    by_root Root.candidate k =
        ap (λ f. resolve_root Root.candidate (record c { candidate = f }) p.first p.segments causes)
          k.same_candidate
    by_root Root.evidence k =
        ap (λ i. resolve_evidence p.first p.segments (readable i) causes)
          (k.same_item p.first (append_once-added p.first out))
    by_root Root.identity k =
        ap (λ f. resolve_root Root.identity (record c { candidate = f }) p.first p.segments causes)
          k.same_candidate

operand-same :
    (c d : Context) (o : Operand) (out : List Text) (causes : List Cause)
    → Agree (operand_ids o out) c d
    → resolve c o causes ≡ resolve d o causes
unfolding resolve
operand-same c d (literal v) out causes h = refl
operand-same c d (path p) out causes h = path-same c d p out causes h

compare-same :
    (c d : Context) (op : Comparison) (l r : Operand) (out : List Text) (causes : List Cause)
    → Agree (operand_ids r (operand_ids l out)) c d
    → evaluate_compare c op l r causes ≡ evaluate_compare d op l r causes
unfolding evaluate_compare
compare-same c d op l r out causes h =
    let left : resolve c l causes ≡ resolve d l causes =
      operand-same c d l out causes (
        Agree-fewer (operand_ids l out) _ c d (λ id. operand_ids-kept id r (operand_ids l out))
          h) in
    ap (λ x. compare_state op x.0 (resolve c r x.1).0 (resolve c r x.1).1) left
    ∙ ap (λ y. compare_state op (resolve d l causes).0 y.0 y.1)
        (operand-same c d r (operand_ids l out) (resolve d l causes).1 h)

fresh-same :
    (c d : Context) (id : Text) (out : List Text)
    → Agree (append_once out id) c d
    → is_fresh c id ≡ is_fresh d id
unfolding is_fresh
fresh-same c d id out h =
    let here : text_mem id (append_once out id) ≡ true = append_once-added id out in
    ap (λ t. within_age t (find_item id c.items) (bound_of (find_declaration id c.declarations)))
      h.same_freeze
    ∙ ap₂ (λ i b. within_age d.frozen_at i (bound_of b)) (h.same_item id here)
        (h.same_declaration id here)

mutual
  unfolding evaluate_node evidence_ids evaluate_membership evaluate_matches item_ok

  node-same :
      (c d : Context) (n : Node) (out : List Text) (causes : List Cause)
      → Agree (evidence_ids n out) c d
      → evaluate_node c n causes ≡ evaluate_node d n causes
  node-same c d (fresh id) out causes h = ap (λ b. (of_bool b, causes)) (fresh-same c d id out h)
  node-same c d (present id) out causes h =
      ap (λ i. (of_bool (ok_item i), causes)) (h.same_item id (append_once-added id out))
  node-same c d (conjunction ns) out causes h =
      ap (λ r. (combine_states true r.0, r.1)) (nodes-same c d ns out causes h)
  node-same c d (disjunction ns) out causes h =
      ap (λ r. (combine_states false r.0, r.1)) (nodes-same c d ns out causes h)
  node-same c d (negation n) out causes h =
      ap (λ r. (negate r.0, r.1)) (node-same c d n out causes h)
  node-same c d (Node.compare op l r) out causes h = compare-same c d op l r out causes h
  node-same c d (membership op o members) out causes h =
      ap (λ r. (membership_state op members r.0, r.1)) (operand-same c d o out causes h)
  node-same c d (matches p pattern) out causes h =
      ap (λ r. matches_state pattern r.0 r.1) (path-same c d p out causes h)

  nodes-same :
      (c d : Context) (ns : Nodes) (out : List Text) (causes : List Cause)
      → Agree (all_evidence_ids ns out) c d
      → evaluate_nodes c ns causes ≡ evaluate_nodes d ns causes
  nodes-same c d Nodes.nil out causes h = refl
  nodes-same c d (Nodes.cons n ns) out causes h =
      let head : evaluate_node c n causes ≡ evaluate_node d n causes =
        node-same c d n out causes (
          Agree-fewer (evidence_ids n out) _ c d (λ id. nodes-kept id ns (evidence_ids n out)) h) in
      ap (λ x. (x.0 ∷ (evaluate_nodes c ns x.1).0, (evaluate_nodes c ns x.1).1)) head
      ∙ ap (λ y. ((evaluate_node d n causes).0 ∷ y.0, y.1))
          (nodes-same c d ns (evidence_ids n out) (evaluate_node d n causes).1 h)

-- The ids that the parser collects are all that an expression can read of the evidence: over two
-- recorded inputs with one candidate and one freeze that agree on the items and declarations of those
-- ids, it comes to the same state and notes the same causes.
pub evaluate_node-evidence_ids :
    (c d : Context) (n : Node) (causes : List Cause)
    → Agree (evidence_ids n []) c d
    → evaluate_node c n causes ≡ evaluate_node d n causes
evaluate_node-evidence_ids c d n causes h = node-same c d n [] causes h
