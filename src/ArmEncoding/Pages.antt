-- ===== src/ArmEncoding/Pages.antt =====
-- The enums of src/imlgen/arm_encoding.h, and the number of each enumerator.
use koshka.Base.{ℕ, ◌≡◌, arith}

pub data L1Page : Type 0 where
  unallocated data_imm branch ld_str data_reg data_simd : L1Page

pub data DataImmPage : Type 0 where
  unallocated pc_rel_addr addsub_imm logical_imm mov_wide bitfield extract : DataImmPage

pub data BranchPage : Type 0 where
  conditional exception system unconditional_reg unconditional_imm compare test unallocated :
      BranchPage

pub data DataRegPage : Type 0 where
  three_sources two_sources one_source logical_shift addsub_shift addsub_extend addsub_carry
        cond_comp_reg cond_comp_imm cond_sel unallocated :
      DataRegPage

-- `L2_mem_page`, for a function that is declared and not written yet.
pub data MemPage : Type 0 where
  simd_multi_struct simd_multi_struct_post_idx simd_single_struct simd_single_struct_post_idx
        exclusive reg_literal regpair_no_alloc :
      MemPage

-- C numbers the enumerators in order.
abbrev pub l1_index : L1Page → ℕ
l1_index = elim [
  | L1Page.unallocated ↦ 0
  | L1Page.data_imm ↦ 1
  | L1Page.branch ↦ 2
  | L1Page.ld_str ↦ 3
  | L1Page.data_reg ↦ 4
  | L1Page.data_simd ↦ 5
]

abbrev pub data_imm_index : DataImmPage → ℕ
data_imm_index = elim [
  | DataImmPage.unallocated ↦ 0
  | DataImmPage.pc_rel_addr ↦ 1
  | DataImmPage.addsub_imm ↦ 2
  | DataImmPage.logical_imm ↦ 3
  | DataImmPage.mov_wide ↦ 4
  | DataImmPage.bitfield ↦ 5
  | DataImmPage.extract ↦ 6
]

abbrev pub branch_index : BranchPage → ℕ
branch_index = elim [
  | BranchPage.conditional ↦ 0
  | BranchPage.exception ↦ 1
  | BranchPage.system ↦ 2
  | BranchPage.unconditional_reg ↦ 3
  | BranchPage.unconditional_imm ↦ 4
  | BranchPage.compare ↦ 5
  | BranchPage.test ↦ 6
  | BranchPage.unallocated ↦ 7
]

abbrev pub data_reg_index : DataRegPage → ℕ
data_reg_index = elim [
  | DataRegPage.three_sources ↦ 0
  | DataRegPage.two_sources ↦ 1
  | DataRegPage.one_source ↦ 2
  | DataRegPage.logical_shift ↦ 3
  | DataRegPage.addsub_shift ↦ 4
  | DataRegPage.addsub_extend ↦ 5
  | DataRegPage.addsub_carry ↦ 6
  | DataRegPage.cond_comp_reg ↦ 7
  | DataRegPage.cond_comp_imm ↦ 8
  | DataRegPage.cond_sel ↦ 9
  | DataRegPage.unallocated ↦ 10
]

-- Pages with the same number are the same page.
pub l1_index_inj : (a b : L1Page) → l1_index a ≡ l1_index b → a ≡ b
l1_index_inj a b h = ground arith

pub data_imm_index_inj : (a b : DataImmPage) → data_imm_index a ≡ data_imm_index b → a ≡ b
data_imm_index_inj a b h = ground arith

pub branch_index_inj : (a b : BranchPage) → branch_index a ≡ branch_index b → a ≡ b
branch_index_inj a b h = ground arith

pub data_reg_index_inj : (a b : DataRegPage) → data_reg_index a ≡ data_reg_index b → a ≡ b
data_reg_index_inj a b h = ground arith
