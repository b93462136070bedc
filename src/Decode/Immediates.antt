-- ===== src/Decode/Immediates.antt =====
-- The decoders of data processing with an immediate, of src/imlgen/decode.cxx.
use koshka.Base.{ℕ, ◌==◌, if◌then◌else◌, Bool, false, not, ◌||◌, u8, u32, List, get_elem?}
use koshka.Base.{none, some}
use koshka.Base.Result.{Result, ok, err, bounds}
use koshka.Bitmanip.{uint32, get_bit_region, get_single_bit}
use koshka.ArmEncoding.Pages.{DataImmPage}
use koshka.ArmEncoding.Tables.{data_imm_get_group}
use koshka.ArmAsl.{decode_bit_masks}
use koshka.Iml.Types.{MathOp, OperandType, Expression, InstrBody, Instruction}
use koshka.Iml.Types.{zero_instruction, bitwise_op_table}
use koshka.Iml.Monad.{M, pure, lift, assert, ◌>>=◌, ◌>>◌}
use koshka.Iml.Expressions.{value_expression, node_expression}

-- A one-bit field as a `bool`, and a field of the instruction as a `u8`.
abbrev pub flag : ℕ → ℕ → Bool
flag instr bit = not (get_single_bit instr bit == 0)

abbrev pub byte_field : ℕ → ℕ → ℕ → ℕ
byte_field instr low high = u8 (get_bit_region uint32 instr low high)

-- `table[i]`
abbrev pub table_at : List MathOp → ℕ → Result MathOp
table_at table i = elim (get_elem? table i) [ none ↦ err bounds | some op ↦ ok op ]

-- An instruction of VARIANT_MATH. `touched` goes into the four `touched_*` fields.
abbrev pub math_instruction : ℕ → Bool → Expression → Bool → Bool → Instruction
math_instruction rd set_flags e is_64bit touched = record {
  body = InstrBody.math (record { dest_register = rd; set_flags = set_flags; expr = e });
  is_64bit = is_64bit;
  touched_negative_flag = touched;
  touched_zero_flag = touched;
  touched_carry_flag = touched;
  touched_overflow_flag = touched;
  next = 0;
}

unfoldable pub decode_movw : ℕ → M Instruction
decode_movw instr = pure zero_instruction

-- The immediate, wrapped in a shift by 12 where the `shift` field is 1.
unfoldable pub shifted_immediate : ℕ → ℕ → M Expression
shifted_immediate shift imm =
    let plain = value_expression OperandType.immediate imm false in
    if shift == 0b01
    then node_expression plain MathOp.lsl (value_expression OperandType.immediate 12 false) false
    else pure plain

unfoldable pub decode_addsub_imm : ℕ → M Instruction
decode_addsub_imm instr = do
  let is_64bit = flag instr 31
  let op = u8 (get_single_bit instr 30)
  let set_flags = flag instr 29
  let shift = byte_field instr 22 23
  let imm = get_bit_region uint32 instr 10 21
  let rn = byte_field instr 5 9
  let rd = byte_field instr 0 4
  let expr_reg = value_expression OperandType.register rn false
  expr_imm ← shifted_immediate shift imm
  let operation = if op == 0 then MathOp.sub else MathOp.add
  e ← node_expression expr_reg operation expr_imm false
  pure (math_instruction rd set_flags e is_64bit false)

unfoldable pub decode_logical_imm : ℕ → M Instruction
decode_logical_imm instr = do
  let is_64bit = flag instr 31
  let op = byte_field instr 29 30
  let n = u8 (get_single_bit instr 22)
  let immr = get_bit_region uint32 instr 16 21
  let imms = get_bit_region uint32 instr 10 15
  let rn = byte_field instr 5 9
  let rd = byte_field instr 0 4
  assert (is_64bit || n == 0)
  mask ← lift (decode_bit_masks (not (n == 0)) (u8 imms) (u8 immr))
  let imm_val = u32 mask
  operation ← lift (table_at bitwise_op_table op)
  let set_flags = op == 0b11
  let expr_reg = value_expression OperandType.register rn false
  let expr_imm = value_expression OperandType.immediate imm_val false
  e ← node_expression expr_reg operation expr_imm false
  pure (math_instruction rd set_flags e is_64bit set_flags)

unfoldable pub decode_data_imm_page : DataImmPage → ℕ → M Instruction
decode_data_imm_page DataImmPage.mov_wide instr = decode_movw instr
decode_data_imm_page DataImmPage.addsub_imm instr = decode_addsub_imm instr
decode_data_imm_page DataImmPage.logical_imm instr = decode_logical_imm instr
decode_data_imm_page other instr = pure zero_instruction

unfoldable pub decode_data_imm : ℕ → M Instruction
decode_data_imm instr = decode_data_imm_page (data_imm_get_group instr) instr
