-- ===== src/ArmEncoding/Tables.antt =====
-- The page tables and the four `*_get_group` functions of src/imlgen/arm_encoding.c.
use koshka.Base.{ℕ, ◌==◌, bit_and, u8, Bool, ◌&&◌, List, [], ◌∷◌, if◌then◌else◌}
use koshka.Bitmanip.{uint32, get_bit_region, get_single_bit}
use koshka.ArmEncoding.Pages.{L1Page, DataImmPage, BranchPage, DataRegPage}

-- `arm_page_entry` and `arm_double_page_entry`; `group` is of the enum that the table is for.
pub record ArmPageEntry (G : Type 0) : Type 0 where
  pub mask : ℕ
  pub pattern_ : ℕ
  pub group : G

pub record ArmDoublePageEntry (G : Type 0) : Type 0 where
  pub mask1 : ℕ
  pub pattern1 : ℕ
  pub mask2 : ℕ
  pub pattern2 : ℕ
  pub group : G

abbrev entry : {G : Type 0} → ℕ → ℕ → G → ArmPageEntry G
entry m p g = record { mask = m; pattern_ = p; group = g }

abbrev double_entry : {G : Type 0} → ℕ → ℕ → ℕ → ℕ → G → ArmDoublePageEntry G
double_entry m p n q g = record { mask1 = m; pattern1 = p; mask2 = n; pattern2 = q; group = g }

abbrev pub top_instr_pagetable : List (ArmPageEntry L1Page)
top_instr_pagetable =
    entry 0b1110 0b1000 L1Page.data_imm
    ∷ entry 0b1110 0b1010 L1Page.branch
    ∷ entry 0b0101 0b0100 L1Page.ld_str
    ∷ entry 0b0111 0b0101 L1Page.data_reg
    ∷ entry 0b1111 0b0111 L1Page.data_simd
    ∷ entry 0b1111 0b1111 L1Page.data_simd
    ∷ []

abbrev pub data_imm_pagetable : List (ArmPageEntry DataImmPage)
data_imm_pagetable =
    entry 0b110 0b000 DataImmPage.pc_rel_addr
    ∷ entry 0b110 0b010 DataImmPage.addsub_imm
    ∷ entry 0b111 0b100 DataImmPage.logical_imm
    ∷ entry 0b111 0b101 DataImmPage.mov_wide
    ∷ entry 0b111 0b110 DataImmPage.bitfield
    ∷ entry 0b111 0b111 DataImmPage.extract
    ∷ []

abbrev pub branch_pagetable : List (ArmDoublePageEntry BranchPage)
branch_pagetable =
    double_entry 0b111 0b010 0b1000 0b0000 BranchPage.conditional
    ∷ double_entry 0b111 0b110 0b1100 0b0000 BranchPage.exception
    ∷ double_entry 0b111 0b110 0b1111 0b0100 BranchPage.system
    ∷ double_entry 0b111 0b110 0b1000 0b1000 BranchPage.unconditional_reg
    ∷ double_entry 0b011 0b000 0b0000 0b0000 BranchPage.unconditional_imm
    ∷ double_entry 0b011 0b001 0b1000 0b0000 BranchPage.compare
    ∷ double_entry 0b011 0b001 0b1000 0b1000 BranchPage.test
    ∷ []

abbrev pub matches : {G : Type 0} → ℕ → ArmPageEntry G → Bool
matches op e = bit_and op e.mask == e.pattern_

abbrev pub double_matches : {G : Type 0} → ℕ → ℕ → ArmDoublePageEntry G → Bool
double_matches op0 op1 e =
    (bit_and op0 e.mask1 == e.pattern1) && (bit_and op1 e.mask2 == e.pattern2)

-- The loops over a table: the group of the first entry that matches, else `otherwise`.
unfoldable pub find_page : {G : Type 0} → ℕ → G → List (ArmPageEntry G) → G
find_page op otherwise [] = otherwise
find_page op otherwise (e ∷ es) = if matches op e then e.group else find_page op otherwise es

unfoldable pub find_double_page : {G : Type 0} → ℕ → ℕ → G → List (ArmDoublePageEntry G) → G
find_double_page op0 op1 otherwise [] = otherwise
find_double_page op0 op1 otherwise (e ∷ es) =
    if double_matches op0 op1 e then e.group else find_double_page op0 op1 otherwise es

unfoldable pub instr_get_group : ℕ → L1Page
unfolding find_page
instr_get_group instr =
    let op0 = u8 (get_bit_region uint32 instr 25 29) in
    find_page op0 L1Page.unallocated top_instr_pagetable

unfoldable pub data_imm_get_group : ℕ → DataImmPage
unfolding find_page
data_imm_get_group instr =
    let op0 = u8 (get_bit_region uint32 instr 23 25) in
    find_page op0 DataImmPage.unallocated data_imm_pagetable

unfoldable pub branch_get_group : ℕ → BranchPage
unfolding find_double_page
branch_get_group instr =
    let op0 = u8 (get_bit_region uint32 instr 29 31) in
    let op1 = u8 (get_bit_region uint32 instr 22 25) in
    find_double_page op0 op1 BranchPage.unallocated branch_pagetable

-- The tests of `data_reg_get_group` on its four fields, in order; each early return is a branch.
unfoldable pub data_reg_group : ℕ → ℕ → ℕ → ℕ → DataRegPage
data_reg_group op0 op1 op2 op3 =
    if (op1 == 0) && (get_single_bit op2 3 == 0)
    then DataRegPage.logical_shift
    else if (op1 == 0) && (bit_and op2 0b1001 == 0b1000)
    then DataRegPage.addsub_shift
    else if (op1 == 0) && (bit_and op2 0b1001 == 0b1001)
    then DataRegPage.addsub_extend
    else if (op1 == 1) && (op2 == 0b0000)
    then DataRegPage.addsub_carry
    else if (op1 == 1) && (op2 == 0b0010)
    then (if op3 == 0 then DataRegPage.cond_comp_reg else DataRegPage.cond_comp_imm)
    else if (op1 == 1) && (op2 == 0b0100)
    then DataRegPage.cond_sel
    else if (op1 == 1) && (op2 == 0b0110)
    then (if op0 == 0 then DataRegPage.two_sources else DataRegPage.one_source)
    else if (op1 == 1) && (bit_and op2 0b1000 == 0b1000)
    then DataRegPage.three_sources
    else DataRegPage.unallocated

unfoldable pub data_reg_get_group : ℕ → DataRegPage
unfolding data_reg_group
data_reg_get_group instr =
    let op0 = u8 (get_single_bit instr 30) in
    let op1 = u8 (get_single_bit instr 28) in
    let op2 = u8 (get_bit_region uint32 instr 21 24) in
    let op3 = u8 (get_single_bit instr 11) in data_reg_group op0 op1 op2 op3
