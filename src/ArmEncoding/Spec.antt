-- ===== src/ArmEncoding/Spec.antt =====
-- The encoding tables of the ARMv8-A manual that the comments of src/imlgen/arm_encoding.c cite
-- (the chapter on the encoding), in the manual's own notation: a field is written as a row of the bits
-- 0, 1 and x, highest first, and x matches both. Nothing here comes from the masks of the code.
use koshka.Base.{ℕ, ◌==◌, Bool, true, ◌&&◌, List, [], ◌∷◌, if◌then◌else◌, length}
use koshka.Base.Digit.{digit}
use koshka.ArmEncoding.Pages.{L1Page, DataImmPage, BranchPage, DataRegPage}

pub data Notation : Type 0 where
  o i x : Notation

abbrev bit_fits : Notation → ℕ → Bool
bit_fits o b = b == 0
bit_fits i b = b == 1
bit_fits x b = true

abbrev pub fits : List Notation → ℕ → Bool
fits [] n = true
fits (t ∷ ts) n = bit_fits t (digit n (length ts)) && fits ts n

-- One row of a table: a pattern for each field, and the page.
pub record Row (G : Type 0) : Type 0 where
  pub patterns : List (List Notation)
  pub page : G

abbrev pub row_fits : List (List Notation) → List ℕ → Bool
row_fits [] fields = true
row_fits (p ∷ ps) [] = true
row_fits (p ∷ ps) (f ∷ fs) = fits p f && row_fits ps fs

unfoldable pub page_of : {G : Type 0} → G → List (Row G) → List ℕ → G
page_of otherwise [] fields = otherwise
page_of otherwise (r ∷ rs) fields =
    if row_fits r.patterns fields then r.page else page_of otherwise rs fields

abbrev row1 : {G : Type 0} → List Notation → G → Row G
row1 p g = record { patterns = p ∷ []; page = g }

abbrev row2 : {G : Type 0} → List Notation → List Notation → G → Row G
row2 p q g = record { patterns = p ∷ q ∷ []; page = g }

-- The top-level table, op0 = bits 28:25. The other values of op0 are 00xx, unallocated.
abbrev pub c4_1 : List (Row L1Page)
c4_1 =
    row1 (i ∷ o ∷ o ∷ x ∷ []) L1Page.data_imm
    ∷ row1 (i ∷ o ∷ i ∷ x ∷ []) L1Page.branch
    ∷ row1 (x ∷ i ∷ x ∷ o ∷ []) L1Page.ld_str
    ∷ row1 (x ∷ i ∷ o ∷ i ∷ []) L1Page.data_reg
    ∷ row1 (x ∷ i ∷ i ∷ i ∷ []) L1Page.data_simd
    ∷ []

-- The immediate table, op0 = bits 25:23.
abbrev pub c4_2 : List (Row DataImmPage)
c4_2 =
    row1 (o ∷ o ∷ x ∷ []) DataImmPage.pc_rel_addr
    ∷ row1 (o ∷ i ∷ x ∷ []) DataImmPage.addsub_imm
    ∷ row1 (i ∷ o ∷ o ∷ []) DataImmPage.logical_imm
    ∷ row1 (i ∷ o ∷ i ∷ []) DataImmPage.mov_wide
    ∷ row1 (i ∷ i ∷ o ∷ []) DataImmPage.bitfield
    ∷ row1 (i ∷ i ∷ i ∷ []) DataImmPage.extract
    ∷ []

-- The branch table, op0 = bits 31:29 and op1 = bits 25:22.
abbrev pub c4_3 : List (Row BranchPage)
c4_3 =
    row2 (o ∷ i ∷ o ∷ []) (o ∷ x ∷ x ∷ x ∷ []) BranchPage.conditional
    ∷ row2 (i ∷ i ∷ o ∷ []) (o ∷ o ∷ x ∷ x ∷ []) BranchPage.exception
    ∷ row2 (i ∷ i ∷ o ∷ []) (o ∷ i ∷ o ∷ o ∷ []) BranchPage.system
    ∷ row2 (i ∷ i ∷ o ∷ []) (i ∷ x ∷ x ∷ x ∷ []) BranchPage.unconditional_reg
    ∷ row2 (x ∷ o ∷ o ∷ []) [] BranchPage.unconditional_imm
    ∷ row2 (x ∷ o ∷ i ∷ []) (o ∷ x ∷ x ∷ x ∷ []) BranchPage.compare
    ∷ row2 (x ∷ o ∷ i ∷ []) (i ∷ x ∷ x ∷ x ∷ []) BranchPage.test
    ∷ []

-- The register table, op0 = bit 30, op1 = bit 28, op2 = bits 24:21 and op3 = bit 11.
abbrev row4 : Notation → Notation → List Notation → Notation → DataRegPage → Row DataRegPage
row4 a b p c g = record { patterns = (a ∷ []) ∷ (b ∷ []) ∷ p ∷ (c ∷ []) ∷ []; page = g }

abbrev pub c4_5 : List (Row DataRegPage)
c4_5 =
    row4 x o (o ∷ x ∷ x ∷ x ∷ []) x DataRegPage.logical_shift
    ∷ row4 x o (i ∷ x ∷ x ∷ o ∷ []) x DataRegPage.addsub_shift
    ∷ row4 x o (i ∷ x ∷ x ∷ i ∷ []) x DataRegPage.addsub_extend
    ∷ row4 x i (o ∷ o ∷ o ∷ o ∷ []) x DataRegPage.addsub_carry
    ∷ row4 x i (o ∷ o ∷ i ∷ o ∷ []) o DataRegPage.cond_comp_reg
    ∷ row4 x i (o ∷ o ∷ i ∷ o ∷ []) i DataRegPage.cond_comp_imm
    ∷ row4 x i (o ∷ i ∷ o ∷ o ∷ []) x DataRegPage.cond_sel
    ∷ row4 o i (o ∷ i ∷ i ∷ o ∷ []) x DataRegPage.two_sources
    ∷ row4 i i (o ∷ i ∷ i ∷ o ∷ []) x DataRegPage.one_source
    ∷ row4 x i (i ∷ x ∷ x ∷ x ∷ []) x DataRegPage.three_sources
    ∷ []
