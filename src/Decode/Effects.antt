-- ===== src/Decode/Effects.antt =====
-- What the instruction of a word of any page computes.
use koshka.Base.{false, ℕ, ◌≡◌, refl, ◌==◌, not}
use koshka.Bitmanip.Region.{field}
use koshka.Base.Digit.{digit}
use koshka.ArmEncoding.Pages.{L1Page, DataImmPage, DataRegPage}
use koshka.Pool.{Pool}
use koshka.Iml.Types.{Instruction, zero_instruction}
use koshka.Iml.Objects.{Cell}
use koshka.Decode.Meaning.{bit}
use koshka.Decode.Words.{top_page, imm_page, reg_page, branch_page, IsAccepted, ShiftFits}
use koshka.Decode.Words.{WordMeans, GroupMeans, ImmMeans, RegMeans, BranchMeans}
use koshka.Decode.Manual.{logical_shift_bit, shifted_register_bit, addsub_immediate}
use koshka.Decode.Computes.{
  Computes, LogicalImmComputes, logical_shift-Computes, logical_imm-Computes,
}
use koshka.Decode.Adds.{Adds, addsub_shift-Adds, addsub_imm-Adds}

-- The instruction computes what the manual says of the word, for these contents of the registers,
-- but additions and subtractions are swapped, those of an immediate read the stack pointer as zero,
-- and half of a bitmask is lost; a branch has the fields of the word, and what has no decoder is the
-- zero instruction.
abbrev pub ImmComputes : DataImmPage → ℕ → (ℕ → ℕ) → ℕ → Pool Cell → Instruction → Type 0
ImmComputes DataImmPage.addsub_imm v regs lo p i =
    Adds v regs (not (bit v 30)) false (digit (addsub_immediate v)) lo p i
ImmComputes DataImmPage.logical_imm v regs lo p i = LogicalImmComputes v regs lo p i
ImmComputes other v regs lo p i = i ≡ zero_instruction

abbrev pub RegComputes : DataRegPage → ℕ → (ℕ → ℕ) → ℕ → Pool Cell → Instruction → Type 0
RegComputes DataRegPage.logical_shift v regs lo p i =
    Computes v regs (field v 29 30 == 3) (λ j. logical_shift_bit v regs j) lo p i
RegComputes DataRegPage.addsub_shift v regs lo p i =
    Adds v regs (not (bit v 30)) (bit v 29) (shifted_register_bit v regs) lo p i
RegComputes other v regs lo p i = i ≡ zero_instruction

abbrev pub GroupComputes : L1Page → ℕ → (ℕ → ℕ) → ℕ → Pool Cell → Instruction → Type 0
GroupComputes L1Page.data_imm v regs lo p i = ImmComputes (imm_page v) v regs lo p i
GroupComputes L1Page.data_reg v regs lo p i = RegComputes (reg_page v) v regs lo p i
GroupComputes L1Page.branch v regs lo p i = BranchMeans (branch_page v) v i
GroupComputes other v regs lo p i = i ≡ zero_instruction

abbrev pub WordComputes : ℕ → (ℕ → ℕ) → ℕ → Pool Cell → Instruction → Type 0
WordComputes v regs lo p i = GroupComputes (top_page v) v regs lo p i

module _ (v lo : ℕ) (regs : ℕ → ℕ) (p : Pool Cell) (i : Instruction) where
  ImmMeans-ImmComputes :
      (page : DataImmPage) → ImmMeans page v lo p i → ImmComputes page v regs lo p i
  ImmMeans-ImmComputes DataImmPage.addsub_imm m = addsub_imm-Adds v lo regs p i m
  ImmMeans-ImmComputes DataImmPage.logical_imm (mask, is_mask, m) =
      logical_imm-Computes v mask lo regs p i is_mask m
  ImmMeans-ImmComputes other m = m

  RegMeans-RegComputes :
      (page : DataRegPage)
      → (page ≡ DataRegPage.logical_shift → ShiftFits v)
      → (page ≡ DataRegPage.addsub_shift → ShiftFits v)
      → RegMeans page v lo p i
      → RegComputes page v regs lo p i
  RegMeans-RegComputes DataRegPage.logical_shift logical addsub m =
      logical_shift-Computes v lo regs p i (logical refl) m
  RegMeans-RegComputes DataRegPage.addsub_shift logical addsub m =
      addsub_shift-Adds v lo regs p i (addsub refl) m
  RegMeans-RegComputes other logical addsub m = m

  GroupMeans-GroupComputes :
      (group : L1Page)
      → (group ≡ L1Page.data_reg → reg_page v ≡ DataRegPage.logical_shift → ShiftFits v)
      → (group ≡ L1Page.data_reg → reg_page v ≡ DataRegPage.addsub_shift → ShiftFits v)
      → GroupMeans group v lo p i
      → GroupComputes group v regs lo p i
  GroupMeans-GroupComputes L1Page.data_imm logical addsub m = ImmMeans-ImmComputes (imm_page v) m
  GroupMeans-GroupComputes L1Page.data_reg logical addsub m =
      RegMeans-RegComputes (reg_page v) (logical refl) (addsub refl) m
  GroupMeans-GroupComputes L1Page.branch logical addsub m = m
  GroupMeans-GroupComputes other logical addsub m = m

  -- An instruction with the meaning of a word computes what the word says.
  pub WordMeans-WordComputes : IsAccepted v → WordMeans v lo p i → WordComputes v regs lo p i
  WordMeans-WordComputes e m = GroupMeans-GroupComputes (top_page v) e.logical e.addsub m
