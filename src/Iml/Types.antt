-- ===== src/Iml/Types.antt =====
-- The types of src/imlgen/iml.hxx. A tagged union is a data type; a union whose tag can be
-- missing keeps its tag as a field.
use koshka.Pool.{PoolHandle}
use koshka.Base.{ℕ, Bool, false, Option, some, List, [], ◌∷◌}

-- enum math_op
pub data MathOp : Type 0 where
  add sub mul div lsl lsr asl asr rol ror and or xor neg bitfield_mov bitfield_mov_signed
        bitfield_mov_unsigned enummax :
      MathOp

-- enum operand_type
pub data OperandType : Type 0 where
  immediate register : OperandType

-- struct operand: a register's number or an immediate value.
pub data Operand : Type 0 where
  reg : ℕ → Operand
  imm : ℕ → Operand

-- A handle of an expression in the pool.
abbrev pub ExpressionHandle : Type 0
ExpressionHandle = PoolHandle

-- The member `expr` of the union in struct expression; the two sides are pool handles.
pub record ExprNode : Type 0 where
  pub op : MathOp
  pub signed_op : Bool
  pub carry : Bool
  pub left : ExpressionHandle
  pub right : ExpressionHandle

-- The union in struct expression.
pub data ExprBody : Type 0 where
  expr : ExprNode → ExprBody
  value : Operand → ExprBody

-- struct expression. `is_value` is `none` where nothing has been written to it, so that it holds
-- whatever the memory held.
pub record Expression : Type 0 where
  pub is_value : Option Bool
  pub body : ExprBody

-- `expression()`: every byte zero.
abbrev pub zero_node : ExprNode
zero_node = record { op = MathOp.add; signed_op = false; carry = false; left = 0; right = 0 }

abbrev pub zero_expression : Expression
zero_expression = record { is_value = some false; body = ExprBody.expr zero_node }

pub record InstrMath : Type 0 where
  pub dest_register : ℕ
  pub set_flags : Bool
  pub expr : Expression

-- enum branch_hint
pub data BranchHint : Type 0 where
  call exception_return debug_exit return jump exception unknown : BranchHint

pub record InstrBranch : Type 0 where
  pub conditional : Bool
  pub link : Bool
  pub dest : Operand
  pub hint : BranchHint

-- The tag `variant` with the union of `instruction`. No code makes a load or store.
pub data InstrBody : Type 0 where
  math : InstrMath → InstrBody
  branch : InstrBranch → InstrBody
  load_store : InstrBody

pub record Instruction : Type 0 where
  pub body : InstrBody
  pub is_64bit : Bool
  pub touched_negative_flag : Bool
  pub touched_zero_flag : Bool
  pub touched_carry_flag : Bool
  pub touched_overflow_flag : Bool
  pub next : PoolHandle

-- `decode_result{}`: the tag 0 is VARIANT_MATH.
abbrev pub zero_math : InstrMath
zero_math = record { dest_register = 0; set_flags = false; expr = zero_expression }

abbrev pub zero_instruction : Instruction
zero_instruction = record {
  body = InstrBody.math zero_math;
  is_64bit = false;
  touched_negative_flag = false;
  touched_zero_flag = false;
  touched_carry_flag = false;
  touched_overflow_flag = false;
  next = 0;
}

-- C numbers the enumerators in order.
abbrev pub math_op_index : MathOp → ℕ
math_op_index = elim [
  | MathOp.add ↦ 0
  | MathOp.sub ↦ 1
  | MathOp.mul ↦ 2
  | MathOp.div ↦ 3
  | MathOp.lsl ↦ 4
  | MathOp.lsr ↦ 5
  | MathOp.asl ↦ 6
  | MathOp.asr ↦ 7
  | MathOp.rol ↦ 8
  | MathOp.ror ↦ 9
  | MathOp.and ↦ 10
  | MathOp.or ↦ 11
  | MathOp.xor ↦ 12
  | MathOp.neg ↦ 13
  | MathOp.bitfield_mov ↦ 14
  | MathOp.bitfield_mov_signed ↦ 15
  | MathOp.bitfield_mov_unsigned ↦ 16
  | MathOp.enummax ↦ 17
]

-- Equivalent to the ASL function DecodeShift().
abbrev pub shift_type_table : List MathOp
shift_type_table = MathOp.lsl ∷ MathOp.lsr ∷ MathOp.asr ∷ MathOp.ror ∷ []

abbrev pub bitwise_op_table : List MathOp
bitwise_op_table = MathOp.and ∷ MathOp.or ∷ MathOp.xor ∷ MathOp.and ∷ []
