-- ===== src/Decode/Total.antt =====
-- `decode` gives every instruction word its meaning: the cases of its dispatch put together.
use koshka.Base.{ℕ, ◌==◌, ◌≡◌, refl, ap, arith, ==_iff}
use mathlib.Core.Path.{subst}
use koshka.Base.{Bool-cases, inl, inr, sym}
use koshka.Base.Result.{ok}
use koshka.Bitmanip.Region.{field}
use koshka.ArmAsl.Masks.{decode_bit_masks_lem}
use koshka.ArmEncoding.Pages.{L1Page, DataImmPage, BranchPage, DataRegPage}
use koshka.ArmEncoding.Tables.{branch_get_group}
use koshka.ArmEncoding.Groups.{instr_get_group_lem, data_imm_get_group_lem, branch_get_group_lem}
use koshka.ArmEncoding.Groups.{data_reg_get_group_lem}
use koshka.Pool.{Pool, Store}
use koshka.Iml.Types.{Instruction, zero_instruction}
use koshka.Iml.Objects.{Cell}
use koshka.Iml.Yields.{Ready, Ready-le, Yields, pure-Yields, Yields-weaken, Yields-map}
use koshka.Decode.{decode, decode_group, decode_load_store}
use koshka.Decode.Branches.{decode_branch_page, decode_system_exception_branch}
use koshka.Decode.Branches.{decode_branch_unconditional, branch_instruction}
use koshka.Decode.Immediates.{decode_data_imm, decode_data_imm_page, decode_movw}
use koshka.Decode.Registers.{decode_data_reg, decode_data_reg_page}
use koshka.Decode.Jumps.{immediate_branch_lem, register_branch_lem}
use koshka.Decode.Meaning.{bit}
use koshka.Decode.Math.{decode_addsub_imm-Means, decode_logical_imm-Means}
use koshka.Decode.Shifted.{decode_data_reg_logical_shift-Means, decode_data_reg_addsub_shift-Means}
use koshka.Decode.Words.{top_page, imm_page, branch_page, reg_page, ImmMeans, RegMeans}
use koshka.Decode.Words.{BranchMeans, GroupMeans, WordMeans, HasMask, ShiftFits, IsAccepted}

-- A decoder that leaves the pool alone.
pure_144 :
    (i : Instruction) (st : Store Cell) (Q : Pool Cell → Instruction → Type 0)
    → Ready st 144
    → Q st.pool i
    → Yields st 144 Q (ok (i, st))
pure_144 i st Q ready q =
    Yields-weaken 144 (omega arith) (pure-Yields i st Q (Ready-le 0 (omega arith) ready) q)

-- The immediate and what its fields encode.
logical_imm-ImmMeans :
    (v : ℕ) (st : Store Cell)
    → HasMask v
    → Ready st 144
    → Yields st 144
        (ImmMeans DataImmPage.logical_imm v st.pool.pos)
        (decode_data_imm_page DataImmPage.logical_imm v st)
unfolding decode_data_imm_page
logical_imm-ImmMeans v st m ready =
    let (mask, masked, small, bits) =
      decode_bit_masks_lem (bit v 22) (field v 10 15) (field v 16 21) m.len (omega arith)
        (omega arith) m.has_length in
    Yields-weaken 144 (omega arith) (
      Yields-map
        (λ p i means. (
          mask,
          record { len = m.len; has_length = m.has_length; small = small; bits = bits },
          means,
        ))
        (decode_logical_imm-Means v mask st masked m.wide (Ready-le 48 (omega arith) ready)))

data_imm_page-ImmMeans :
    (page : DataImmPage) (v : ℕ) (st : Store Cell)
    → (page ≡ DataImmPage.logical_imm → HasMask v)
    → Ready st 144
    → Yields st 144 (ImmMeans page v st.pool.pos) (decode_data_imm_page page v st)
unfolding decode_data_imm_page decode_movw
data_imm_page-ImmMeans DataImmPage.mov_wide v st h ready = pure_144 zero_instruction st _ ready refl
data_imm_page-ImmMeans DataImmPage.addsub_imm v st h ready =
    Yields-weaken 144 (omega arith) (decode_addsub_imm-Means v st (Ready-le 96 (omega arith) ready))
data_imm_page-ImmMeans DataImmPage.logical_imm v st h ready =
    logical_imm-ImmMeans v st (h refl) ready
data_imm_page-ImmMeans other v st h ready = pure_144 zero_instruction st _ ready refl

data_reg_page-RegMeans :
    (page : DataRegPage) (v : ℕ) (st : Store Cell)
    → (page ≡ DataRegPage.logical_shift → ShiftFits v)
    → (page ≡ DataRegPage.addsub_shift → ShiftFits v)
    → Ready st 144
    → Yields st 144 (RegMeans page v st.pool.pos) (decode_data_reg_page page v st)
unfolding decode_data_reg_page
data_reg_page-RegMeans DataRegPage.logical_shift v st h k ready =
    decode_data_reg_logical_shift-Means v st (h refl) ready
data_reg_page-RegMeans DataRegPage.addsub_shift v st h k ready =
    Yields-weaken 144 (omega arith)
      (decode_data_reg_addsub_shift-Means v st (k refl) (Ready-le 96 (omega arith) ready))
data_reg_page-RegMeans other v st h k ready = pure_144 zero_instruction st _ ready refl

branch_page-BranchMeans :
    (page : BranchPage) (v : ℕ) → BranchMeans page v (decode_branch_page page v)
unfolding decode_branch_page decode_branch_unconditional
branch_page-BranchMeans BranchPage.unconditional_reg v =
    ap branch_instruction (register_branch_lem v)
branch_page-BranchMeans BranchPage.unconditional_imm v =
    ap branch_instruction (immediate_branch_lem v)
branch_page-BranchMeans other v = refl

data_imm-ImmMeans :
    (v : ℕ) (st : Store Cell)
    → (imm_page v ≡ DataImmPage.logical_imm → HasMask v)
    → Ready st 144
    → Yields st 144 (ImmMeans (imm_page v) v st.pool.pos) (decode_data_imm v st)
unfolding decode_data_imm
data_imm-ImmMeans v st h ready =
    subst
      (λ page. Yields st 144 (ImmMeans (imm_page v) v st.pool.pos) (decode_data_imm_page page v st))
      (sym (data_imm_get_group_lem v)) (data_imm_page-ImmMeans (imm_page v) v st h ready)

data_reg-RegMeans :
    (v : ℕ) (st : Store Cell)
    → (reg_page v ≡ DataRegPage.logical_shift → ShiftFits v)
    → (reg_page v ≡ DataRegPage.addsub_shift → ShiftFits v)
    → Ready st 144
    → Yields st 144 (RegMeans (reg_page v) v st.pool.pos) (decode_data_reg v st)
unfolding decode_data_reg
data_reg-RegMeans v st h k ready =
    subst
      (λ page. Yields st 144 (RegMeans (reg_page v) v st.pool.pos) (decode_data_reg_page page v st))
      (sym (data_reg_get_group_lem v)) (data_reg_page-RegMeans (reg_page v) v st h k ready)

branch-BranchMeans : (v : ℕ) → BranchMeans (branch_page v) v (decode_system_exception_branch v)
unfolding decode_system_exception_branch
branch-BranchMeans v =
    subst (λ page. BranchMeans page v (decode_branch_page (branch_get_group v) v))
      (branch_get_group_lem v) (branch_page-BranchMeans (branch_get_group v) v)

group-GroupMeans :
    (group : L1Page) (v : ℕ) (st : Store Cell)
    → (group ≡ L1Page.data_imm → imm_page v ≡ DataImmPage.logical_imm → HasMask v)
    → (group ≡ L1Page.data_reg → reg_page v ≡ DataRegPage.logical_shift → ShiftFits v)
    → (group ≡ L1Page.data_reg → reg_page v ≡ DataRegPage.addsub_shift → ShiftFits v)
    → Ready st 144
    → Yields st 144 (GroupMeans group v st.pool.pos) (decode_group group v st)
unfolding decode_group decode_load_store
group-GroupMeans L1Page.branch v st h k l ready =
    pure_144 (decode_system_exception_branch v) st _ ready (branch-BranchMeans v)
group-GroupMeans L1Page.data_imm v st h k l ready = data_imm-ImmMeans v st (h refl) ready
group-GroupMeans L1Page.data_reg v st h k l ready = data_reg-RegMeans v st (k refl) (l refl) ready
group-GroupMeans L1Page.ld_str v st h k l ready = pure_144 zero_instruction st _ ready refl
group-GroupMeans L1Page.data_simd v st h k l ready = pure_144 zero_instruction st _ ready refl
group-GroupMeans L1Page.unallocated v st h k l ready = pure_144 zero_instruction st _ ready refl

-- From a valid pool with a buffer of at most 2^31 bytes, whose position is at most 2^30 after 144
-- more bytes, and with every calloc granted, decode returns for every word that decode accepts,
-- that is other than 0, with fields that encode a bitmask if it is a bitwise operation with an
-- immediate, and with a shift of at most 31 if it is an operation on shifted 32-bit registers, an
-- instruction with the fields and the expression tree that the decoder takes the word for, by its
-- page in the manual's tables; the zero instruction on a page without a decoder. Where the code
-- differs from the manual this is the reading of the code: bit 30 set is an addition; the
-- reserved shift type is ROR and the reserved shifts of an immediate are none; an addition or
-- subtraction of an immediate reads the stack pointer as zero and marks no flag as touched; a
-- bitmask is cut to 32 bits; the offset of a direct branch is neither scaled nor sign-extended;
-- and a return from an exception or a debug state, like a value that the manual leaves out, keeps
-- the hint that a branch starts with. The tag of an operation is unwritten, so its tree is read
-- by the member of the union that was written. The tree stands behind what the pool held, and
-- that stays.
pub decode-Means :
    (instr : ℕ) (st : Store Cell)
    → IsAccepted instr
    → Ready st 144
    → Yields st 144 (WordMeans instr st.pool.pos) (decode instr st)
unfolding decode
decode-Means instr st encoded ready = elim (Bool-cases (instr == 0)) [
  | inl zero_ ↦ absurd (encoded.nonzero ((==_iff instr 0).0 zero_))
  | inr some_ ↦ rw (some_) (
      subst (λ group. Yields st 144 (WordMeans instr st.pool.pos) (decode_group group instr st))
        (sym (instr_get_group_lem instr))
        (group-GroupMeans (top_page instr) instr st encoded.mask encoded.logical encoded.addsub
          ready))
]
