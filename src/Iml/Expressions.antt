-- ===== src/Iml/Expressions.antt =====
-- The constructors of `expression` in src/imlgen/iml.cxx.
use koshka.Base.{ℕ, ◌==◌, ◌&&◌, if◌then◌else◌, Bool, true, false, not, none, some}
use koshka.Base.{u8}
use koshka.Bitmanip.{max_val_for_size}
use koshka.Iml.Types.{MathOp, OperandType, Operand, ExprNode, ExprBody, Expression}
use koshka.Iml.Monad.{M, pure, ◌>>=◌}
use koshka.Iml.Objects.{Object, push_object}

-- REGISTER_ZERO
unfoldable pub register_zero : ℕ
unfolding max_val_for_size
register_zero = max_val_for_size 5

-- expression(type, val, force_register)
unfoldable pub value_expression : OperandType → ℕ → Bool → Expression
unfolding register_zero
value_expression OperandType.register val force_register = record {
  is_value = some true;
  body = ExprBody.value (
      if (val == register_zero) && not force_register then Operand.imm 0 else Operand.reg (u8 val));
}
value_expression OperandType.immediate val force_register = record {
  is_value = some true;
  body = ExprBody.value (Operand.imm val);
}

abbrev pub node_of : MathOp → Bool → ℕ → ℕ → ExprNode
node_of op carry left right = record {
  op = op;
  signed_op = false;
  carry = carry;
  left = left;
  right = right;
}

-- expression(iml_pool, left, op, right, carry): the left side is pushed first. `is_value` is not
-- written.
unfoldable pub node_expression : Expression → MathOp → Expression → Bool → M Expression
node_expression left op right carry = do
  l ← push_object (Object.expression left)
  r ← push_object (Object.expression right)
  pure (record { is_value = none; body = ExprBody.expr (node_of op carry l r) })
