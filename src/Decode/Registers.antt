-- ===== src/Decode/Registers.antt =====
-- The decoders of data processing on registers, of src/imlgen/decode.cxx.
use koshka.Base.{ℕ, ◌==◌, if◌then◌else◌, Bool, false, not, ◌||◌}
use koshka.Bitmanip.{get_single_bit}
use koshka.ArmEncoding.Pages.{DataRegPage}
use koshka.ArmEncoding.Tables.{data_reg_get_group}
use koshka.Iml.Types.{MathOp, OperandType, Expression, Instruction, zero_instruction}
use koshka.Iml.Types.{zero_expression, shift_type_table, bitwise_op_table, math_op_index}
use koshka.Iml.Monad.{M, pure, lift, assert, ◌>>=◌, ◌>>◌}
use koshka.Iml.Expressions.{value_expression, node_expression}
use koshka.Decode.Immediates.{flag, byte_field, table_at, math_instruction}

-- The second register, wrapped in a shift if the length is not 0.
unfoldable pub shifted_register : ℕ → MathOp → ℕ → M Expression
shifted_register rm shift_type shift_len =
    let plain = value_expression OperandType.register rm false in
    if shift_len == 0
    then pure plain
    else node_expression plain shift_type (value_expression OperandType.immediate shift_len false)
        false

-- An expression, wrapped in a negation on demand.
unfoldable pub negated : Bool → Expression → M Expression
negated negate e = if negate then node_expression e MathOp.neg zero_expression false else pure e

unfoldable pub decode_data_reg_logical_shift : ℕ → M Instruction
decode_data_reg_logical_shift instr = do
  let rd = byte_field instr 0 4
  let rn = byte_field instr 5 9
  let shift_len = byte_field instr 10 15
  let rm = byte_field instr 16 20
  let negate = flag instr 21
  shift_type ← lift (table_at shift_type_table (byte_field instr 22 23))
  bitwise_op ← lift (table_at bitwise_op_table (byte_field instr 29 30))
  let is_64bit = flag instr 31
  let set_flags = byte_field instr 29 30 == 0b11
  assert (is_64bit || get_single_bit shift_len 5 == 0)
  let expr_rn = value_expression OperandType.register rn false
  shifted ← shifted_register rm shift_type shift_len
  expr_rm ← negated negate shifted
  e ← node_expression expr_rn bitwise_op expr_rm false
  pure (math_instruction rd set_flags e is_64bit set_flags)

unfoldable pub decode_data_reg_addsub_shift : ℕ → M Instruction
decode_data_reg_addsub_shift instr = do
  let rd = byte_field instr 0 4
  let rn = byte_field instr 5 9
  let shift_len = byte_field instr 10 15
  let rm = byte_field instr 16 20
  shift_type ← lift (table_at shift_type_table (byte_field instr 22 23))
  let set_flags = flag instr 29
  let op = flag instr 30
  let is_64bit = flag instr 31
  assert (not (math_op_index shift_type == 0b11))
  assert (is_64bit || get_single_bit shift_len 5 == 0)
  let expr_rn = value_expression OperandType.register rn false
  expr_rm ← shifted_register rm shift_type shift_len
  e ← node_expression expr_rn (if op then MathOp.add else MathOp.sub) expr_rm false
  pure (math_instruction rd set_flags e is_64bit set_flags)

unfoldable pub decode_data_reg_page : DataRegPage → ℕ → M Instruction
decode_data_reg_page DataRegPage.logical_shift instr = decode_data_reg_logical_shift instr
decode_data_reg_page DataRegPage.addsub_shift instr = decode_data_reg_addsub_shift instr
decode_data_reg_page other instr = pure zero_instruction

unfoldable pub decode_data_reg : ℕ → M Instruction
decode_data_reg instr = decode_data_reg_page (data_reg_get_group instr) instr
