-- ===== src/Decode/Branches.antt =====
-- `decode_branch_unconditional` and `decode_system_exception_branch` of src/imlgen/decode.cxx.
use koshka.Base.{ℕ, ◌==◌, if◌then◌else◌, true, false, not, u8}
use koshka.Bitmanip.{uint32, get_bit_region, get_single_bit}
use koshka.ArmEncoding.Pages.{BranchPage}
use koshka.ArmEncoding.Tables.{branch_get_group}
use koshka.Iml.Types.{Operand, BranchHint, InstrBranch, InstrBody, Instruction, zero_instruction}

abbrev pub branch_instruction : InstrBranch → Instruction
branch_instruction b = record zero_instruction { body = InstrBody.branch b }

-- Where nothing is written the fields are zero, and the hint zero is BRANCH_CALL.
abbrev pub unset_branch : Operand → InstrBranch
unset_branch dest = record {
  conditional = false;
  link = false;
  dest = dest;
  hint = BranchHint.call;
}

unfoldable pub register_branch : ℕ → ℕ → InstrBranch
register_branch opc instr =
    let to : InstrBranch = unset_branch (Operand.reg (u8 (get_bit_region uint32 instr 5 9))) in
    if opc == 0b0100
    then unset_branch (Operand.reg 0)
    else if opc == 0b0101
    then unset_branch (Operand.reg 0)
    else if opc == 0b0000
    then record to { hint = BranchHint.jump }
    else if opc == 0b0001
    then record to { hint = BranchHint.call; link = true }
    else if opc == 0b0010
    then record to { hint = BranchHint.return }
    else to

unfoldable pub immediate_branch : ℕ → InstrBranch
immediate_branch instr =
    let linked = not (get_single_bit instr 31 == 0) in
    record {
      conditional = false;
      link = linked;
      dest = Operand.imm (get_bit_region uint32 instr 0 25);
      hint = if linked then BranchHint.call else BranchHint.jump;
    }

unfoldable pub decode_branch_unconditional : ℕ → BranchPage → Instruction
decode_branch_unconditional instr BranchPage.unconditional_reg =
    branch_instruction (register_branch (u8 (get_bit_region uint32 instr 21 24)) instr)
decode_branch_unconditional instr other = branch_instruction (immediate_branch instr)

unfoldable pub decode_branch_page : BranchPage → ℕ → Instruction
decode_branch_page BranchPage.unconditional_reg instr =
    decode_branch_unconditional instr BranchPage.unconditional_reg
decode_branch_page BranchPage.unconditional_imm instr =
    decode_branch_unconditional instr BranchPage.unconditional_imm
decode_branch_page other instr = zero_instruction

unfoldable pub decode_system_exception_branch : ℕ → Instruction
decode_system_exception_branch instr = decode_branch_page (branch_get_group instr) instr
