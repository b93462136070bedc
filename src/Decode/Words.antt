-- ===== src/Decode/Words.antt =====
-- What the decoder takes an instruction word of any page for, with the pages by the tables of the
-- manual, and which words it accepts.
use koshka.Base.{ℕ, ◌/◌, ◌%◌, ◌^◌, ◌<◌, ◌==◌, ◌≡◌, ◌≢◌, ◌||◌, true, [], ◌∷◌}
use koshka.Bitmanip.Region.{field}
use koshka.ArmAsl.Masks.{HasLength, wave}
use koshka.ArmEncoding.Pages.{L1Page, DataImmPage, BranchPage, DataRegPage}
use koshka.ArmEncoding.Spec.{page_of, c4_1, c4_2, c4_3, c4_5}
use koshka.Pool.{Pool}
use koshka.Iml.Types.{Instruction, zero_instruction}
use koshka.Iml.Objects.{Cell}
use koshka.Iml.Trees.{Agrees, Represents-Agrees}
use koshka.Decode.Branches.{branch_instruction}
use koshka.Decode.Jumps.{direct_branch, indirect_branch}
use koshka.Decode.Meaning.{bit, MathMeaning, Means, addsub_imm_meaning, logical_imm_meaning}
use koshka.Decode.Meaning.{logical_shift_meaning, addsub_shift_meaning}

-- The pages of a word in the manual's tables.
abbrev pub top_page : ℕ → L1Page
top_page v = page_of L1Page.unallocated c4_1 (field v 25 28 ∷ [])

abbrev pub imm_page : ℕ → DataImmPage
imm_page v = page_of DataImmPage.unallocated c4_2 (field v 23 25 ∷ [])

abbrev pub branch_page : ℕ → BranchPage
branch_page v = page_of BranchPage.unallocated c4_3 (field v 29 31 ∷ field v 22 25 ∷ [])

abbrev pub reg_page : ℕ → DataRegPage
reg_page v =
    page_of DataRegPage.unallocated c4_5
      (field v 30 30 ∷ field v 28 28 ∷ field v 21 24 ∷ field v 11 11 ∷ [])

-- The word of 64 bits that the fields of a bitmask immediate stand for.
pub record IsMask (v mask : ℕ) : Type 0 where
  pub len : ℕ
  pub has_length : HasLength (bit v 22) (field v 10 15) len
  pub small : mask < 2 ^ 64
  pub bits :
      (j : ℕ)
      → j < 64
      → mask / 2 ^ j % 2 ≡ wave (2 ^ len) (field v 10 15 % 2 ^ len) (field v 16 21 % 2 ^ len) j

abbrev pub ImmMeans : DataImmPage → ℕ → ℕ → Pool Cell → Instruction → Type 0
ImmMeans DataImmPage.addsub_imm v lo p i = Means (addsub_imm_meaning v) lo p i
ImmMeans DataImmPage.logical_imm v lo p i =
    (mask : ℕ) × IsMask v mask × Means (logical_imm_meaning mask v) lo p i
ImmMeans other v lo p i = i ≡ zero_instruction

abbrev pub RegMeans : DataRegPage → ℕ → ℕ → Pool Cell → Instruction → Type 0
RegMeans DataRegPage.logical_shift v lo p i = Means (logical_shift_meaning v) lo p i
RegMeans DataRegPage.addsub_shift v lo p i = Means (addsub_shift_meaning v) lo p i
RegMeans other v lo p i = i ≡ zero_instruction

abbrev pub BranchMeans : BranchPage → ℕ → Instruction → Type 0
BranchMeans BranchPage.unconditional_imm v i = i ≡ branch_instruction (direct_branch v)
BranchMeans BranchPage.unconditional_reg v i = i ≡ branch_instruction (indirect_branch v)
BranchMeans other v i = i ≡ zero_instruction

abbrev pub GroupMeans : L1Page → ℕ → ℕ → Pool Cell → Instruction → Type 0
GroupMeans L1Page.data_imm v lo p i = ImmMeans (imm_page v) v lo p i
GroupMeans L1Page.data_reg v lo p i = RegMeans (reg_page v) v lo p i
GroupMeans L1Page.branch v lo p i = BranchMeans (branch_page v) v i
GroupMeans other v lo p i = i ≡ zero_instruction

-- The instruction is what the decoder takes the word for. Where the decoder has nothing for the word yet, it
-- is the zero instruction.
abbrev pub WordMeans : ℕ → ℕ → Pool Cell → Instruction → Type 0
WordMeans v lo p i = GroupMeans (top_page v) v lo p i

-- The fields of a bitmask immediate encode a pattern, and a 32-bit form has N = 0.
pub record HasMask (v : ℕ) : Type 0 where
  pub len : ℕ
  pub has_length : HasLength (bit v 22) (field v 10 15) len
  pub wide : (bit v 31 || v / 2 ^ 22 % 2 == 0) ≡ true

-- A 32-bit form does not shift by more than 31.
abbrev pub ShiftFits : ℕ → Type 0
ShiftFits v = (bit v 31 || field v 10 15 / 2 ^ 5 % 2 == 0) ≡ true

-- `decode` accepts the word, which need not be one that the manual allocates: it is not 0; if it is a bitwise operation with an immediate its fields encode a bitmask, and
-- if it is an operation on shifted registers the shift fits them.
pub record IsAccepted (v : ℕ) : Type 0 where
  pub nonzero : v ≢ 0
  pub mask : top_page v ≡ L1Page.data_imm → imm_page v ≡ DataImmPage.logical_imm → HasMask v
  pub logical : top_page v ≡ L1Page.data_reg → reg_page v ≡ DataRegPage.logical_shift → ShiftFits v
  pub addsub : top_page v ≡ L1Page.data_reg → reg_page v ≡ DataRegPage.addsub_shift → ShiftFits v

Means-Agrees :
    {m : MathMeaning} {lo : ℕ} {p q : Pool Cell} {i : Instruction}
    → Agrees lo p q
    → Means m lo p i
    → Means m lo q i
Means-Agrees a m = record { expr = m.expr; is_math = m.is_math; tree = Represents-Agrees a m.tree }

ImmMeans-Agrees :
    (page : DataImmPage) (v : ℕ) (i : Instruction) {lo : ℕ} {p q : Pool Cell}
    → Agrees lo p q
    → ImmMeans page v lo p i
    → ImmMeans page v lo q i
ImmMeans-Agrees DataImmPage.addsub_imm v i a m = Means-Agrees a m
ImmMeans-Agrees DataImmPage.logical_imm v i a (mask, is_mask, m) = (mask, is_mask, Means-Agrees a m)
ImmMeans-Agrees other v i a m = m

RegMeans-Agrees :
    (page : DataRegPage) (v : ℕ) (i : Instruction) {lo : ℕ} {p q : Pool Cell}
    → Agrees lo p q
    → RegMeans page v lo p i
    → RegMeans page v lo q i
RegMeans-Agrees DataRegPage.logical_shift v i a m = Means-Agrees a m
RegMeans-Agrees DataRegPage.addsub_shift v i a m = Means-Agrees a m
RegMeans-Agrees other v i a m = m

GroupMeans-Agrees :
    (group : L1Page) (v : ℕ) (i : Instruction) {lo : ℕ} {p q : Pool Cell}
    → Agrees lo p q
    → GroupMeans group v lo p i
    → GroupMeans group v lo q i
GroupMeans-Agrees L1Page.data_imm v i a m = ImmMeans-Agrees (imm_page v) v i a m
GroupMeans-Agrees L1Page.data_reg v i a m = RegMeans-Agrees (reg_page v) v i a m
GroupMeans-Agrees other v i a m = m

-- A meaning lasts while the part of the pool that its tree stands in is left alone.
pub WordMeans-Agrees :
    (v : ℕ) (i : Instruction) {lo : ℕ} {p q : Pool Cell}
    → Agrees lo p q
    → WordMeans v lo p i
    → WordMeans v lo q i
WordMeans-Agrees v i a m = GroupMeans-Agrees (top_page v) v i a m
