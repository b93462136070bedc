-- ===== src/ArmEncoding/Groups.antt =====
-- The four `*_get_group` functions give the page that the manual's tables give.
use koshka.Base.{ℕ, ◌+◌, ◌*◌, ◌/◌, ◌%◌, ◌<◌, ◌==◌, ==_iff, u8, ◌≡◌, refl, ap, ap₂, ◌∙◌}
use koshka.Base.{List, [], ◌∷◌, true, arith, every_below, every_below-at}
use koshka.Bitmanip.Region.{field, get_bit_region-u32, get_single_bit_lem}
use koshka.Bitmanip.{uint32, get_bit_region, get_single_bit}
use koshka.ArmEncoding.Pages.{L1Page, DataImmPage, BranchPage, DataRegPage}
use koshka.ArmEncoding.Pages.{l1_index, data_imm_index, branch_index, data_reg_index}
use koshka.ArmEncoding.Pages.{l1_index_inj, data_imm_index_inj, branch_index_inj}
use koshka.ArmEncoding.Pages.{data_reg_index_inj}
use koshka.ArmEncoding.Tables.{find_page, find_double_page, data_reg_group}
use koshka.ArmEncoding.Tables.{top_instr_pagetable, data_imm_pagetable, branch_pagetable}
use koshka.ArmEncoding.Tables.{instr_get_group, data_imm_get_group}
use koshka.ArmEncoding.Tables.{branch_get_group, data_reg_get_group}
use koshka.ArmEncoding.Spec.{page_of, c4_1, c4_2, c4_3, c4_5}

-- Two functions that agree by index at each value below `n` agree there.
agree_below :
    {G : Type 0} (index : G → ℕ)
    → ((a b : G) → index a ≡ index b → a ≡ b)
    → (f g : ℕ → G) (n : ℕ) → every_below n (λ t. index (f t) == index (g t)) ≡ true
    → (t : ℕ) → t < n
    → f t ≡ g t
agree_below index inj f g n table t h =
    inj (f t) (g t) ((==_iff _ _).0 (every_below-at n (λ t. index (f t) == index (g t)) t table h))

top_table :
    every_below 32 (λ t.
      l1_index (find_page t L1Page.unallocated top_instr_pagetable)
      == l1_index (page_of L1Page.unallocated c4_1 (t % 16 ∷ [])))
    ≡ true
unfolding every_below find_page page_of
top_table = refl

-- Every instruction word gets the top-level page of the top-level table, by its bits 28 to 25.
pub instr_get_group_lem :
    (instr : ℕ) → instr_get_group instr ≡ page_of L1Page.unallocated c4_1 (field instr 25 28 ∷ [])
unfolding instr_get_group
instr_get_group_lem instr =
    ap (λ t. find_page (u8 t) L1Page.unallocated top_instr_pagetable)
      (get_bit_region-u32 instr 25 29 (omega arith) (omega arith))
    ∙ agree_below l1_index l1_index_inj (λ t. find_page t L1Page.unallocated top_instr_pagetable)
        (λ t. page_of L1Page.unallocated c4_1 (t % 16 ∷ [])) 32 top_table (u8 (field instr 25 29))
        (omega arith)
    ∙ ap (λ t. page_of L1Page.unallocated c4_1 (t ∷ [])) {x = u8 (field instr 25 29) % 16}
        {y = field instr 25 28} (omega arith)

data_imm_table :
    every_below 8 (λ t.
      data_imm_index (find_page t DataImmPage.unallocated data_imm_pagetable)
      == data_imm_index (page_of DataImmPage.unallocated c4_2 (t ∷ [])))
    ≡ true
unfolding every_below find_page page_of
data_imm_table = refl

-- Every instruction word gets the immediate page of the immediate table, by its bits 25 to 23.
pub data_imm_get_group_lem :
    (instr : ℕ)
    → data_imm_get_group instr ≡ page_of DataImmPage.unallocated c4_2 (field instr 23 25 ∷ [])
unfolding data_imm_get_group
data_imm_get_group_lem instr =
    ap (λ t. find_page (u8 t) DataImmPage.unallocated data_imm_pagetable)
      (get_bit_region-u32 instr 23 25 (omega arith) (omega arith))
    ∙ agree_below data_imm_index data_imm_index_inj
        (λ t. find_page t DataImmPage.unallocated data_imm_pagetable)
        (λ t. page_of DataImmPage.unallocated c4_2 (t ∷ [])) 8 data_imm_table
        (u8 (field instr 23 25)) (omega arith)
    ∙ ap (λ t. page_of DataImmPage.unallocated c4_2 (t ∷ [])) {x = u8 (field instr 23 25)}
        {y = field instr 23 25} (omega arith)

-- The two fields of the branch table in one number.
branch_table :
    every_below 128 (λ t.
      branch_index (find_double_page (t / 16) (t % 16) BranchPage.unallocated branch_pagetable)
      == branch_index (page_of BranchPage.unallocated c4_3 (t / 16 ∷ t % 16 ∷ [])))
    ≡ true
unfolding every_below find_double_page page_of
branch_table = refl

-- Every instruction word gets the branch page of the branch table, by its bits 31 to 29 and 25 to 22.
pub branch_get_group_lem :
    (instr : ℕ)
    → branch_get_group instr
      ≡ page_of BranchPage.unallocated c4_3 (field instr 29 31 ∷ field instr 22 25 ∷ [])
unfolding branch_get_group
branch_get_group_lem instr =
    ap₂ (λ s t. find_double_page s t BranchPage.unallocated branch_pagetable) hi_read lo_read
    ∙ agree_below branch_index branch_index_inj
        (λ t. find_double_page (t / 16) (t % 16) BranchPage.unallocated branch_pagetable)
        (λ t. page_of BranchPage.unallocated c4_3 (t / 16 ∷ t % 16 ∷ [])) 128 branch_table both
        (omega arith)
    ∙ ap₂ (λ s t. page_of BranchPage.unallocated c4_3 (s ∷ t ∷ [])) hi lo
  where
    both : ℕ
    both = field instr 29 31 * 16 + field instr 22 25

    hi : both / 16 ≡ field instr 29 31
    hi = omega arith

    lo : both % 16 ≡ field instr 22 25
    lo = omega arith

    hi_read : u8 (get_bit_region uint32 instr 29 31) ≡ both / 16
    hi_read = omega (arith, get_bit_region-u32 instr 29 31 (omega arith) (omega arith))

    lo_read : u8 (get_bit_region uint32 instr 22 25) ≡ both % 16
    lo_read = omega (arith, get_bit_region-u32 instr 22 25 (omega arith) (omega arith))

-- op2, op0, op1 and op3 in one number.
data_reg_table :
    every_below 128 (λ t.
      data_reg_index (data_reg_group (t / 4 % 2) (t / 2 % 2) (t / 8) (t % 2))
      == data_reg_index
          (page_of DataRegPage.unallocated c4_5 (t / 4 % 2 ∷ t / 2 % 2 ∷ t / 8 ∷ t % 2 ∷ [])))
    ≡ true
unfolding every_below data_reg_group page_of get_single_bit
data_reg_table = refl

-- Every instruction word gets the register page of the register table, by its bits 30, 28, 24 to 21 and 11.
pub data_reg_get_group_lem :
    (instr : ℕ)
    → data_reg_get_group instr
      ≡ page_of DataRegPage.unallocated c4_5
          (field instr 30 30 ∷ field instr 28 28 ∷ field instr 21 24 ∷ field instr 11 11 ∷ [])
unfolding data_reg_get_group
data_reg_get_group_lem instr =
    ap₂ (λ (g : ℕ → ℕ → DataRegPage) (t : ℕ). g t (u8 (get_single_bit instr 11)))
      (ap₂ data_reg_group op0_read op1_read) op2_read
    ∙ ap (data_reg_group (all / 4 % 2) (all / 2 % 2) (all / 8)) op3_read
    ∙ agree_below data_reg_index data_reg_index_inj
        (λ t. data_reg_group (t / 4 % 2) (t / 2 % 2) (t / 8) (t % 2))
        (λ t. page_of DataRegPage.unallocated c4_5 (t / 4 % 2 ∷ t / 2 % 2 ∷ t / 8 ∷ t % 2 ∷ [])) 128
        data_reg_table all (omega arith)
    ∙ ap (page_of DataRegPage.unallocated c4_5) fields
  where
    all : ℕ
    all = field instr 21 24 * 8 + field instr 30 30 * 4 + field instr 28 28 * 2 + field instr 11 11

    op0_read : u8 (get_single_bit instr 30) ≡ all / 4 % 2
    op0_read = omega (arith, get_single_bit_lem instr 30)

    op1_read : u8 (get_single_bit instr 28) ≡ all / 2 % 2
    op1_read = omega (arith, get_single_bit_lem instr 28)

    op2_read : u8 (get_bit_region uint32 instr 21 24) ≡ all / 8
    op2_read = omega (arith, get_bit_region-u32 instr 21 24 (omega arith) (omega arith))

    op3_read : u8 (get_single_bit instr 11) ≡ all % 2
    op3_read = omega (arith, get_single_bit_lem instr 11)

    fields :
        ◌≡◌ {A = List ℕ}
          (all / 4 % 2 ∷ all / 2 % 2 ∷ all / 8 ∷ all % 2 ∷ [])
          (field instr 30 30 ∷ field instr 28 28 ∷ field instr 21 24 ∷ field instr 11 11 ∷ [])
    fields = ground arith
