-- ===== src/Iml/Typing.antt =====
-- Well-typed IML, but for the tags of nodes, which the code leaves unwritten.
use koshka.Base.{ℕ, ◌+◌, ◌^◌, ◌≤◌, ◌<◌, ◌==◌, ◌≡◌, ◌≢◌, arith}
use koshka.Base.{Bool-cases, inl, inr, ==_false, Bool, false, none}
use koshka.Pool.{Pool}
use koshka.Iml.Types.{MathOp, Operand, ExprBody, Expression, InstrBody}
use koshka.Iml.Types.{zero_expression}
use koshka.Iml.Objects.{Object, Cell, IsAt, sizeof_expression}
use koshka.Iml.Expressions.{node_of}
use koshka.Iml.Trees.{Tree, Represents, register_tree, value_of}

-- A register from 0 to 30, which leaves out the zero register, or a constant of 32 bits.
abbrev pub OperandFits : Operand → Type 0
OperandFits (Operand.reg n) = n ≤ 30
OperandFits (Operand.imm n) = n < 2 ^ 32

abbrev pub TreeFits : Tree → Type 0
TreeFits (Tree.reg n) = OperandFits (Operand.reg n)
TreeFits (Tree.imm n) = OperandFits (Operand.imm n)
TreeFits Tree.empty = Unit {0}
TreeFits (Tree.node op l r) = (op ≢ MathOp.enummax) × TreeFits l × TreeFits r

-- The expression is a value with a sound operand and the tag of a value, or blank, or a node with an
-- operation whose two handles lead to such expressions inside the pool, and whose tag is unwritten.
pub data IsTyped (p : Pool Cell) : Expression → Type 0 where
  value : (v : Operand) → OperandFits v → IsTyped p (value_of v)
  blank : IsTyped p zero_expression
  node :
      {e l r : Expression} (op : MathOp) (carry : Bool) (a b : ℕ)
      → op ≢ MathOp.enummax
      → e.is_value ≡ none
      → e.body ≡ ExprBody.expr (node_of op carry a b)
      → a + sizeof_expression ≤ p.pos
      → b + sizeof_expression ≤ p.pos
      → IsAt p a (Object.expression l)
      → IsAt p b (Object.expression r)
      → IsTyped p l
      → IsTyped p r
      → IsTyped p e

-- A branch goes to a register or to a constant of 26 bits.
abbrev pub BranchFits : Operand → Type 0
BranchFits (Operand.reg n) = n ≤ 31
BranchFits (Operand.imm n) = n < 2 ^ 26

-- The body of an instruction: the number of its result register has five bits.
abbrev pub BodyIsTyped : Pool Cell → InstrBody → Type 0
BodyIsTyped p (InstrBody.math m) = (m.dest_register < 2 ^ 5) × IsTyped p m.expr
BodyIsTyped p (InstrBody.branch b) = BranchFits b.dest
BodyIsTyped p InstrBody.load_store = ⊥

-- An expression that stands for a sound tree is well-typed.
pub Represents-IsTyped :
    {p : Pool Cell} {lo : ℕ} {e : Expression} {t : Tree}
    → Represents p lo e t
    → TreeFits t
    → IsTyped p e
Represents-IsTyped (Represents.reg n) f = IsTyped.value (Operand.reg n) f
Represents-IsTyped (Represents.imm n) f = IsTyped.value (Operand.imm n) f
Represents-IsTyped Represents.empty f = IsTyped.blank
Represents-IsTyped (Represents.node l r op s left right) f =
    IsTyped.node op false s.left_at s.right_at f.0 s.untagged s.is_node s.left_below s.right_below
      s.left_stored s.right_stored (Represents-IsTyped left f.1) (Represents-IsTyped right f.2)

pub register_tree-TreeFits : (n : ℕ) → n ≤ 31 → TreeFits (register_tree n)
register_tree-TreeFits n h = elim (Bool-cases (n == 31)) [
  | inl zero_ ↦ rw zero_ (omega arith)
  | inr other ↦ let ne = ==_false other in rw other (omega (arith, ne))
]
