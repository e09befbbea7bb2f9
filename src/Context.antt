-- ===== src/Context.antt =====
-- vfy/gate.py: the recorded inputs that an evaluation reads (`_Context`), the causes that it notes,
-- and the value of an operand (`_resolve`, `_descend`).
use verify_run.Base.{
  ℕ, Bool, true, false, Option, none, some, List, [], ◌∷◌, ◌++◌, Text, codes, text_eq,
  if◌then◌else◌, any,
}
use verify_run.Base.Int.{ℤ}
use verify_run.Value.{Value, list, dict, Fields, get, at}
use verify_run.Expr.{Segment, member, index, Root, Operand, literal, path}

pub data Cause : Type 0 where
  evidence_unsettled : Text → Cause
  operand_unsettled : Cause

pub data Status : Type 0 where
  ok missing stale error : Status

-- A snapshot item. Its schema guarantees that `acquired_at` is a date-time: the instant is kept.
pub record Item : Type 0 where
  pub id : Text
  pub status : Status
  pub acquired_at : ℤ
  pub value : Option Value

pub record Declaration : Type 0 where
  pub id : Text
  pub max_age_seconds : Option ℕ
  pub required : Bool

-- `_Context`, without the causes. The mappings by id are kept as the lists that they are made of.
pub record Context : Type 0 where
  pub candidate : Fields
  pub declarations : List Declaration
  pub items : List Item
  pub frozen_at : ℤ

-- `{i["id"]: i for i in items}.get(identifier)`: of two items with one id the later one counts.
unfoldable pub find_item : Text → List Item → Option Item
find_item identifier [] = none
find_item identifier (i ∷ items) = elim (find_item identifier items) [
  | some found ↦ some found
  | none ↦ if text_eq i.id identifier then some i else none
]

unfoldable pub find_declaration : Text → List Declaration → Option Declaration
find_declaration identifier [] = none
find_declaration identifier (d ∷ ds) = elim (find_declaration identifier ds) [
  | some found ↦ some found
  | none ↦ if text_eq d.id identifier then some d else none
]

abbrev pub is_ok : Status → Bool
is_ok ok = true
is_ok _ = false

-- `item is not None and item["status"] == "ok"`
abbrev pub ok_item : Option Item → Bool
ok_item none = false
ok_item (some i) = is_ok i.status

unfoldable pub cause_eq : Cause → Cause → Bool
cause_eq (evidence_unsettled a) (evidence_unsettled b) = text_eq a b
cause_eq operand_unsettled operand_unsettled = true
cause_eq _ _ = false

-- `_Context.note`
unfoldable pub note : Cause → List Cause → List Cause
unfolding cause_eq
note cause causes = if any (cause_eq cause) causes then causes else causes ++ cause ∷ []

-- What an operand comes to: UNSETTLED, ABSENT or a value.
pub data Resolved : Type 0 where
  not_settled absent : Resolved
  value : Value → Resolved

abbrev pub or_absent : Option Value → Resolved
or_absent none = absent
or_absent (some v) = value v

-- One round of `_descend`.
unfoldable pub descend_step : Resolved → Segment → Resolved
unfolding get at
descend_step (value (dict fields)) (member name) = or_absent (get name fields)
descend_step (value (list items)) (index i) = or_absent (at i items)
descend_step _ _ = absent

-- `_descend`
unfoldable pub descend : Resolved → List Segment → Resolved
unfolding descend_step
descend v [] = v
descend v (segment ∷ segments) = descend (descend_step v segment) segments

-- The value of an item that may be read.
abbrev pub readable : Option Item → Option Value
readable none = none
readable (some i) = if is_ok i.status then i.value else none

abbrev pub resolve_evidence :
    Text → List Segment → Option Value → List Cause → Resolved × List Cause
resolve_evidence identifier segments none causes =
    (not_settled, note (evidence_unsettled identifier) causes)
resolve_evidence identifier segments (some v) causes = (descend (value v) segments, causes)

abbrev pub resolve_root : Root → Context → Text → List Segment → List Cause → Resolved × List Cause
resolve_root Root.evidence c first segments causes =
    resolve_evidence first segments (readable (find_item first c.items)) causes
resolve_root Root.identity c first segments causes =
    (descend (or_absent (get (codes "identity") c.candidate)) (member first ∷ segments), causes)
resolve_root Root.candidate c first segments causes =
    (descend (value (dict c.candidate)) (member first ∷ segments), causes)

-- `_resolve`
unfoldable pub resolve : Context → Operand → List Cause → Resolved × List Cause
unfolding note find_item descend
resolve c (literal v) causes = (value v, causes)
resolve c (path p) causes = resolve_root p.root c p.first p.segments causes
