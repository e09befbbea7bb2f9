-- ===== src/Expr.antt =====
-- The tree that vfy/expr.py builds from a `when` string.
pub mod Lexer
pub mod Literals
pub mod Members
pub mod Parser
pub mod Reads
pub mod Operands
pub mod Total
pub mod Document
pub mod Evidence
pub mod Reach
use verify_run.Base.{ℕ, Text, List}
use verify_run.Value.{Value, Items}

-- `{"member": name}` and `{"index": n}`
pub data Segment : Type 0 where
  member : Text → Segment
  index : ℕ → Segment

-- `PATH_ROOTS`
pub data Root : Type 0 where
  candidate evidence identity : Root

-- `_path`: a path has at least one segment, and the first is a member.
pub record PathNode : Type 0 where
  pub root : Root
  pub first : Text
  pub segments : List Segment

pub data Operand : Type 0 where
  literal : Value → Operand
  path : PathNode → Operand

-- `COMPARISON_OPERATORS`: == != <= >= < >
pub data Comparison : Type 0 where
  eq ne le ge lt gt : Comparison

-- `in` and `not in`
pub data Containment : Type 0 where
  is_in not_in : Containment

mutual
  pub data Node : Type 0 where
    conjunction : Nodes → Node
    disjunction : Nodes → Node
    negation : Node → Node
    compare : Comparison → Operand → Operand → Node
    membership : Containment → Operand → Items → Node
    matches : PathNode → Text → Node
    fresh : Text → Node
    present : Text → Node

  -- The operands of `and` and `or`.
  pub data Nodes : Type 0 where
    nil : Nodes
    cons : Node → Nodes → Nodes
