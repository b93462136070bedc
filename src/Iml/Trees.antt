-- ===== src/Iml/Trees.antt =====
-- The trees that expressions stand for. The two sides of a node are handles, so a tree is read
-- against a pool, and an expression keeps its tree while the part of the pool from `lo` on that it
-- stands in is left alone.
use koshka.Base.{ℕ, ◌+◌, ◌^◌, ◌≤◌, ◌≡◌, refl, arith, true, false, some, none}
use koshka.Base.{◌==◌, if◌then◌else◌, Bool-cases, inl, inr}
use native.Mathlib.Nat.{mod-eq_of_lt}
use koshka.Bitmanip.{max_val_for_size}
use koshka.Pool.{Pool, Store, pool_read}
use koshka.Iml.Types.{MathOp, OperandType, Operand, ExprBody, Expression}
use koshka.Iml.Types.{zero_expression}
use koshka.Iml.Objects.{Object, Cell, IsAt, load, sizeof, sizeof_expression, push_object}
use koshka.Iml.Expressions.{value_expression, node_expression, node_of, register_zero}
use koshka.Iml.Yields.{
  Ready, Ready-le, Extends, Extends-trans, Yields, IsAt-Extends, push_object-Yields, bind-Yields,
}
use koshka.Iml.Yields.{pure-Yields, Lands}

pub data Tree : Type 0 where
  reg imm : ℕ → Tree
  empty : Tree
  node : MathOp → Tree → Tree → Tree

abbrev pub value_of : Operand → Expression
value_of v = record { is_value = some true; body = ExprBody.value v }

-- A node whose two sides stand in the pool, at or after `lo`. Its tag has never been written: the
-- member of the union that was written says that it is a node, and the tag does not.
pub record Sides (p : Pool Cell) (lo : ℕ) (e l r : Expression) (op : MathOp) : Type 0 where
  pub left_at : ℕ
  pub right_at : ℕ
  pub untagged : e.is_value ≡ none
  pub is_node : e.body ≡ ExprBody.expr (node_of op false left_at right_at)
  pub left_from : lo ≤ left_at
  pub right_from : lo ≤ right_at
  pub left_stored : IsAt p left_at (Object.expression l)
  pub left_below : left_at + sizeof_expression ≤ p.pos
  pub right_stored : IsAt p right_at (Object.expression r)
  pub right_below : right_at + sizeof_expression ≤ p.pos

-- What stands from `lo` up to the end of `p` is the same in `q`.
pub record Agrees (lo : ℕ) (p q : Pool Cell) : Type 0 where
  pub grows : p.pos ≤ q.pos
  pub same : (h n : ℕ) → lo ≤ h → h + n ≤ p.pos → pool_read q h n ≡ pool_read p h n

pub Extends-Agrees : {p q : Pool Cell} (lo : ℕ) → Extends p q → Agrees lo p q
Extends-Agrees lo e = record { grows = e.grows; same = λ h n from k. e.kept h n k }

pub IsAt-Agrees :
    {lo : ℕ} {p q : Pool Cell} (h : ℕ) (x : Object)
    → lo ≤ h
    → h + sizeof x ≤ p.pos
    → Agrees lo p q
    → IsAt p h x
    → IsAt q h x
unfolding load
IsAt-Agrees h x from below a at = rw (a.same h (sizeof x) from below) at

Sides-Agrees :
    {lo : ℕ} {p q : Pool Cell} (e l r : Expression) (op : MathOp)
    → Agrees lo p q
    → Sides p lo e l r op
    → Sides q lo e l r op
Sides-Agrees e l r op a s = record {
  left_at = s.left_at;
  right_at = s.right_at;
  untagged = s.untagged;
  is_node = s.is_node;
  left_from = s.left_from;
  right_from = s.right_from;
  left_stored =
      IsAt-Agrees s.left_at (Object.expression l) s.left_from s.left_below a s.left_stored;
  left_below = omega arith;
  right_stored =
      IsAt-Agrees s.right_at (Object.expression r) s.right_from s.right_below a s.right_stored;
  right_below = omega arith;
}

-- `e` stands for the tree in the pool, whose nodes stand at or after `lo`. A value is tagged as one;
-- the tag of a node is unwritten.
pub data Represents (p : Pool Cell) (lo : ℕ) : Expression → Tree → Type 0 where
  reg : (n : ℕ) → Represents p lo (value_of (Operand.reg n)) (Tree.reg n)
  imm : (n : ℕ) → Represents p lo (value_of (Operand.imm n)) (Tree.imm n)
  empty : Represents p lo zero_expression Tree.empty
  node :
      {e : Expression} {tl tr : Tree} (l r : Expression) (op : MathOp)
      → Sides p lo e l r op
      → Represents p lo l tl
      → Represents p lo r tr
      → Represents p lo e (Tree.node op tl tr)

pub Represents-Agrees :
    {lo : ℕ} {p q : Pool Cell} {e : Expression} {t : Tree}
    → Agrees lo p q
    → Represents p lo e t
    → Represents q lo e t
Represents-Agrees a (reg n) = reg n
Represents-Agrees a (imm n) = imm n
Represents-Agrees a empty = empty
Represents-Agrees a (node {e = e} l r op s tl tr) =
    node l r op (Sides-Agrees e l r op a s) (Represents-Agrees a tl) (Represents-Agrees a tr)

pub Represents-Extends :
    {lo : ℕ} {p q : Pool Cell} {e : Expression} {t : Tree}
    → Extends p q
    → Represents p lo e t
    → Represents q lo e t
Represents-Extends {lo} ext = Represents-Agrees (Extends-Agrees lo ext)

-- A register number as an operand: 31 reads as zero.
abbrev pub register_tree : ℕ → Tree
register_tree n = if n == 31 then Tree.imm 0 else Tree.reg n

pub value_expression-register :
    (p : Pool Cell) (lo n : ℕ)
    → n ≤ 31
    → Represents p lo (value_expression OperandType.register n false) (register_tree n)
unfolding value_expression register_zero max_val_for_size
value_expression-register p lo n h = elim (Bool-cases (n == 31)) [
  | inl zero ↦ rw (zero) (imm 0)
  | inr other ↦ rw (other, mod-eq_of_lt {n = n} {m = 2 ^ 8} (omega arith)) (reg n)
]

pub value_expression-immediate :
    (p : Pool Cell) (lo n : ℕ)
    → Represents p lo (value_expression OperandType.immediate n false) (Tree.imm n)
unfolding value_expression
value_expression-immediate p lo n = imm n

node-Represents :
    {lo : ℕ} {p q : Pool Cell} {tl tr : Tree} (l r : Expression) (op : MathOp) (a b : ℕ)
    → lo ≤ a
    → IsAt p a (Object.expression l)
    → a + sizeof_expression ≤ p.pos
    → Extends p q
    → lo ≤ b
    → IsAt q b (Object.expression r)
    → b + sizeof_expression ≤ q.pos
    → Represents q lo l tl
    → Represents q lo r tr
    → Represents q lo
        (record { is_value = none; body = ExprBody.expr (node_of op false a b) })
        (Tree.node op tl tr)
node-Represents {lo} {q = q} l r op a b la_from la la_below ext lb_from lb lb_below tl tr =
    node l r op sides tl tr
  where
    sides :
        Sides q lo (record { is_value = none; body = ExprBody.expr (node_of op false a b) }) l r op
    sides = record {
      left_at = a;
      right_at = b;
      untagged = refl;
      is_node = refl;
      left_from = la_from;
      right_from = lb_from;
      left_stored = IsAt-Extends a (Object.expression l) la_below ext la;
      left_below = omega arith;
      right_stored = lb;
      right_below = lb_below;
    }

-- From a valid pool with a buffer of at most 2^31 bytes, whose position is at most 2^30 after 48
-- more bytes, and with every calloc granted, the binary constructor of an expression, without
-- carry, stores both sides, returns an operation over their handles whose tag is unwritten, so
-- that only the member of the union that was written makes it a node over the trees of the sides,
-- and keeps what the pool held.
pub node_expression-Yields :
    (l r : Expression) (op : MathOp) (tl tr : Tree) (st : Store Cell) (lo : ℕ)
    → lo ≤ st.pool.pos
    → Ready st 48
    → Represents st.pool lo l tl
    → Represents st.pool lo r tr
    → Yields st 48 (λ p e. Represents p lo e (Tree.node op tl tr)) (node_expression l op r false st)
unfolding node_expression
node_expression-Yields l r op tl tr st lo from ready hl hr =
    bind-Yields (push_object (Object.expression l)) _ st 24 24
      (Lands st.pool.pos (Object.expression l)) _ ready
      (push_object-Yields (Object.expression l) st (Ready-le 24 (omega arith) ready))
      (λ a st1 ready1 ext1 la.
        bind-Yields (push_object (Object.expression r)) _ st1 24 0
          (Lands st1.pool.pos (Object.expression r)) _ ready1
          (push_object-Yields (Object.expression r) st1 ready1)
          (λ b st2 ready2 ext2 lb. pure-Yields _ st2 _ ready2 (
            node-Represents l r op a b (omega (arith, la.0)) la.1 la.2 ext2
              (omega (arith, lb.0, ext1.grows)) lb.1 lb.2
              (Represents-Extends (Extends-trans ext1 ext2) hl)
              (Represents-Extends (Extends-trans ext1 ext2) hr))))
