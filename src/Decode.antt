-- ===== src/Decode.antt =====
-- The decoder of src/imlgen/decode.cxx: from an instruction word to an IML instruction, whose
-- sub-expressions it pushes into the pool. Log messages are left out.
pub mod Branches
pub mod Immediates
pub mod Registers
pub mod Meaning
pub mod Fields
pub mod Math
pub mod Shifted
pub mod Words
pub mod Manual
pub mod Values
pub mod Total
pub mod Computes
pub mod Adds
pub mod Effects
pub mod Faults
pub mod Typing
pub mod Starved
pub mod Jumps
use koshka.Base.{ℕ, ◌==◌, not}
use koshka.ArmEncoding.Pages.{L1Page}
use koshka.ArmEncoding.Tables.{instr_get_group}
use koshka.Iml.Types.{Instruction, zero_instruction}
use koshka.Iml.Monad.{M, pure, assert, ◌>>=◌, ◌>>◌}
use Branches.{decode_system_exception_branch}
use Immediates.{decode_data_imm}
use Registers.{decode_data_reg}

unfoldable pub decode_load_store : ℕ → M Instruction
decode_load_store instr = pure zero_instruction

unfoldable pub decode_group : L1Page → ℕ → M Instruction
decode_group L1Page.branch instr = pure (decode_system_exception_branch instr)
decode_group L1Page.data_imm instr = decode_data_imm instr
decode_group L1Page.data_reg instr = decode_data_reg instr
decode_group L1Page.ld_str instr = decode_load_store instr
decode_group L1Page.data_simd instr = pure zero_instruction
decode_group L1Page.unallocated instr = pure zero_instruction

-- `decode_result` is a struct of one field.
abbrev pub DecodeResult : Type 0
DecodeResult = Instruction

unfoldable pub decode : ℕ → M DecodeResult
decode instr = do assert (not (instr == 0)); decode_group (instr_get_group instr) instr
