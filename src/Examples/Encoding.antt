-- ===== src/Examples/Encoding.antt =====
-- src/imlgen/arm_encoding.c and src/bitmanip.h at instruction words of test/base.s.
use koshka.Base.{ℕ, ◌≡◌, refl, arith, [], ◌∷◌}
use koshka.Bitmanip.{uint8, uint32, get_bit_region}
use koshka.Bitmanip.Region.{field, get_bit_region-u32, get_bit_region-u8}
use koshka.ArmEncoding.Pages.{L1Page, DataImmPage, BranchPage, DataRegPage}
use koshka.ArmEncoding.Tables.{instr_get_group, data_imm_get_group, branch_get_group}
use koshka.ArmEncoding.Tables.{data_reg_get_group}
use koshka.ArmEncoding.Spec.{page_of, c4_1, c4_2, c4_3, c4_5}
use koshka.ArmEncoding.Groups.{instr_get_group_lem, data_imm_get_group_lem, branch_get_group_lem}
use koshka.ArmEncoding.Groups.{data_reg_get_group_lem}

-- mov x0, #1
abbrev movz : ℕ
movz = 0xD2800020

-- adc x1, x2, x3
abbrev adc : ℕ
adc = 0x9A030041

-- ret
abbrev ret : ℕ
ret = 0xD65F03C0

movz_opc : get_bit_region uint32 movz 29 30 ≡ 0b10
unfolding get_bit_region
movz_opc = refl

movz_page : instr_get_group movz ≡ L1Page.data_imm
unfolding instr_get_group get_bit_region
movz_page = refl

get_bit_region-u32_example : get_bit_region uint32 movz 29 30 ≡ field movz 29 30
get_bit_region-u32_example = get_bit_region-u32 movz 29 30 (omega arith) (omega arith)

-- Bits 2 to 4 of 0xFF are 7; the macro gives 63.
get_bit_region-u8_example : get_bit_region uint8 0xFF 2 4 ≡ 63
get_bit_region-u8_example = get_bit_region-u8 0xFF 2 4 (omega arith) (omega arith) (omega arith)

instr_get_group_lem_example : instr_get_group movz ≡ page_of L1Page.unallocated c4_1 (0b1001 ∷ [])
instr_get_group_lem_example = instr_get_group_lem movz

data_imm_get_group_lem_example :
    data_imm_get_group movz ≡ page_of DataImmPage.unallocated c4_2 (0b101 ∷ [])
data_imm_get_group_lem_example = data_imm_get_group_lem movz

branch_get_group_lem_example :
    branch_get_group ret ≡ page_of BranchPage.unallocated c4_3 (0b110 ∷ 0b1001 ∷ [])
branch_get_group_lem_example = branch_get_group_lem ret

data_reg_get_group_lem_example :
    data_reg_get_group adc ≡ page_of DataRegPage.unallocated c4_5 (0 ∷ 1 ∷ 0 ∷ 0 ∷ [])
data_reg_get_group_lem_example = data_reg_get_group_lem adc
