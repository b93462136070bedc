-- ===== src/Decode/Jumps.antt =====
-- What `decode` makes of the direct branches B and BL.
use koshka.Base.{ℕ, ◌==◌, if◌then◌else◌, ◌≡◌, refl, arith, false, Bool-cases}
use koshka.Base.{inl, inr, ==_iff}
use koshka.Base.Result.{ok}
use native.Mathlib.Nat.{mod-eq_of_lt, mod-lt, one-le-pow, pow-le-pow_right}
use koshka.Base.{◌+◌, ◌-◌, ◌≤◌, ◌/◌, ◌^◌, u8, true}
use koshka.Bitmanip.{uint32, get_bit_region}
use koshka.Bitmanip.Region.{field, get_bit_region-u32, get_single_bit_lem}
use koshka.Base.{[], ◌∷◌, ◌∙◌, ◌*◌, ◌%◌, ap, ap₂, every_below, every_below-at}
use koshka.ArmEncoding.Pages.{
  L1Page, BranchPage, l1_index, l1_index_inj, branch_index, branch_index_inj,
}
use koshka.ArmEncoding.Spec.{page_of, c4_1, c4_3}
use koshka.ArmEncoding.Groups.{instr_get_group_lem, branch_get_group_lem}
use koshka.ArmEncoding.Tables.{instr_get_group, branch_get_group}
use koshka.Pool.{Store}
use koshka.Iml.Types.{Operand, BranchHint, InstrBranch}
use koshka.Iml.Objects.{Cell}
use koshka.Decode.{decode, decode_group}
use koshka.Decode.Branches.{
  branch_instruction, unset_branch, register_branch, immediate_branch, decode_branch_unconditional,
}
use koshka.Decode.Branches.{decode_branch_page, decode_system_exception_branch}
use koshka.Decode.Meaning.{bit}

-- Bit 31 says whether it is a call; the destination is the 26-bit field as it stands.
abbrev pub direct_branch : ℕ → InstrBranch
direct_branch v = record {
  conditional = false;
  link = bit v 31;
  dest = Operand.imm (field v 0 25);
  hint = if bit v 31 then BranchHint.call else BranchHint.jump;
}

pub immediate_branch_lem : (instr : ℕ) → immediate_branch instr ≡ direct_branch instr
unfolding immediate_branch
immediate_branch_lem instr =
    rw (get_bit_region-u32 instr 0 25 (omega arith) (omega arith), get_single_bit_lem instr 31) refl

-- BR, BLR and RET by the field of bits 24 to 21. For the two returns from exceptions and for the
-- values that the manual leaves out the hint stays that of a call; the returns name no register.
abbrev pub indirect_branch : ℕ → InstrBranch
indirect_branch v =
    let to : InstrBranch = unset_branch (Operand.reg (field v 5 9)) in
    if field v 21 24 == 0
    then record to { hint = BranchHint.jump }
    else if field v 21 24 == 1
    then record to { hint = BranchHint.call; link = true }
    else if field v 21 24 == 2
    then record to { hint = BranchHint.return }
    else if field v 21 24 == 4
    then unset_branch (Operand.reg 0)
    else if field v 21 24 == 5
    then unset_branch (Operand.reg 0)
    else to

small_field : (v lo hi : ℕ) → hi + 1 - lo ≤ 8 → u8 (field v lo hi) ≡ field v lo hi
small_field v lo hi h = mod-eq_of_lt (
    omega (
      arith,
      mod-lt (v / 2 ^ lo) (one-le-pow (hi + 1 - lo) 2 (omega arith)),
      pow-le-pow_right {n = 2} (omega arith) h,
    ))

pub register_branch_lem :
    (instr : ℕ)
    → register_branch (u8 (get_bit_region uint32 instr 21 24)) instr ≡ indirect_branch instr
unfolding register_branch
register_branch_lem instr =
    rw
      (
        get_bit_region-u32 instr 21 24 (omega arith) (omega arith),
        get_bit_region-u32 instr 5 9 (omega arith) (omega arith),
        small_field instr 21 24 (omega arith),
        small_field instr 5 9 (omega arith),
      )
      (ground arith)

-- The pages of a word that has 00101 in its bits 30 to 26.
top_branch_table :
    every_below 2
      (λ t. l1_index (page_of L1Page.unallocated c4_1 ((10 + t) ∷ [])) == l1_index L1Page.branch)
    ≡ true
unfolding every_below page_of
top_branch_table = refl

direct_branch_table :
    every_below 32 (λ t.
      branch_index (page_of BranchPage.unallocated c4_3 (4 * (t / 16) ∷ t % 16 ∷ []))
      == branch_index BranchPage.unconditional_imm)
    ≡ true
unfolding every_below page_of
direct_branch_table = refl

top_branch : (v : ℕ) → field v 26 30 ≡ 5 → instr_get_group v ≡ L1Page.branch
top_branch v five =
    instr_get_group_lem v
    ∙ ap (λ t. page_of L1Page.unallocated c4_1 (t ∷ [])) {y = 10 + v / 2 ^ 25 % 2}
        (omega (arith, five))
    ∙ l1_index_inj _ _
        ((==_iff _ _).0 (every_below-at 2 _ (v / 2 ^ 25 % 2) top_branch_table (omega arith)))

page_branch : (v : ℕ) → field v 26 30 ≡ 5 → branch_get_group v ≡ BranchPage.unconditional_imm
page_branch v five =
    branch_get_group_lem v
    ∙ ap₂ (λ a b. page_of BranchPage.unallocated c4_3 (a ∷ b ∷ [])) {x = field v 29 31}
        {y = 4 * (fields / 16)} {u = field v 22 25} {v = fields % 16} (omega (arith, five))
        (omega (arith, five))
    ∙ branch_index_inj _ _
        ((==_iff _ _).0 (every_below-at 32 _ fields direct_branch_table (omega arith)))
  where
    fields : ℕ
    fields = v / 2 ^ 31 % 2 * 16 + field v 22 25

-- Every word with 00101 in its bits 30 to 26, which is what the manual has for B and BL, decodes
-- to an unconditional branch, a call if bit 31 is set, whose destination is the 26-bit field as
-- it stands, neither scaled nor sign-extended; the pool is left alone.
pub decode-direct_branch :
    (instr : ℕ) (st : Store Cell)
    → field instr 26 30 ≡ 5
    → decode instr st ≡ ok (branch_instruction (direct_branch instr), st)
unfolding decode decode_group decode_system_exception_branch decode_branch_page
    decode_branch_unconditional
decode-direct_branch instr st five = elim (Bool-cases (instr == 0)) [
  | inl zero_ ↦ absurd (omega (arith, five, (==_iff instr 0).0 zero_))
  | inr some_ ↦
      rw (some_, top_branch instr five, page_branch instr five, immediate_branch_lem instr) refl
]
