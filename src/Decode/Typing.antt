-- ===== src/Decode/Typing.antt =====
-- What the words mean is well-typed, but for the unwritten tags of operations.
use mathlib.Core.Path.{subst}
use koshka.Base.{ℕ, ◌/◌, ◌%◌, ◌^◌, ◌<◌, ◌==◌, if◌then◌else◌, ◌≡◌, ◌≢◌, sym, ap, arith}
use koshka.Base.{Bool-cases, inl, inr, Bool, true, false}
use koshka.Bitmanip.Region.{field}
use koshka.ArmEncoding.Pages.{L1Page, DataImmPage, BranchPage, DataRegPage}
use koshka.Pool.{Pool}
use koshka.Iml.Types.{MathOp, math_op_index, Instruction, zero_instruction}
use koshka.Iml.Objects.{Cell}
use koshka.Iml.Trees.{Tree}
use koshka.Iml.Typing.{TreeFits, IsTyped, BodyIsTyped, BranchFits, Represents-IsTyped}
use koshka.Iml.Typing.{register_tree-TreeFits}
use koshka.Decode.Jumps.{indirect_branch}
use koshka.Decode.Meaning.{MathMeaning, Means, bit, bitwise_op, shift_op, shifted_tree}
use koshka.Decode.Meaning.{addsub_imm_meaning, logical_imm_meaning, logical_shift_meaning}
use koshka.Decode.Meaning.{addsub_shift_meaning}
use koshka.Decode.Words.{imm_page, reg_page, branch_page, top_page, ImmMeans, RegMeans}
use koshka.Decode.Words.{BranchMeans, GroupMeans, WordMeans}

ne_enummax : (op : MathOp) → math_op_index op < 17 → op ≢ MathOp.enummax
ne_enummax op h e = absurd (omega (arith, h, ap math_op_index e))

bitwise_op-ne : (opc : ℕ) → bitwise_op opc ≢ MathOp.enummax
bitwise_op-ne opc = ne_enummax (bitwise_op opc) (ground arith)

shift_op-ne_end : (t : ℕ) → shift_op t ≢ MathOp.enummax
shift_op-ne_end t = ne_enummax (shift_op t) (ground arith)

shifted_tree-TreeFits : (v : ℕ) → TreeFits (shifted_tree v)
shifted_tree-TreeFits v = elim (Bool-cases (field v 10 15 == 0)) [
  | inl none_ ↦ rw none_ (register_tree-TreeFits (field v 16 20) (omega arith))
  | inr some_ ↦ rw some_ (
    shift_op-ne_end (field v 22 23),
    register_tree-TreeFits (field v 16 20) (omega arith),
    omega arith,
  )
]

addsub_imm-TreeFits : (v : ℕ) → TreeFits (addsub_imm_meaning v).tree
addsub_imm-TreeFits v = (
  ne_enummax (if v / 2 ^ 30 % 2 == 0 then MathOp.sub else MathOp.add) (ground arith),
  register_tree-TreeFits (field v 5 9) (omega arith),
  constant,
)
  where
    constant : TreeFits (
        if field v 22 23 == 1
        then Tree.node MathOp.lsl (Tree.imm (field v 10 21)) (Tree.imm 12)
        else Tree.imm (field v 10 21))
    constant = elim (Bool-cases (field v 22 23 == 1)) [
      | inl shifted ↦ rw shifted (ne_enummax MathOp.lsl (omega arith), omega arith, omega arith)
      | inr plain ↦ rw plain (omega arith)
    ]

logical_imm-TreeFits : (mask v : ℕ) → TreeFits (logical_imm_meaning mask v).tree
logical_imm-TreeFits mask v =
    (bitwise_op-ne (field v 29 30), register_tree-TreeFits (field v 5 9) (omega arith), omega arith)

logical_shift-TreeFits : (v : ℕ) → TreeFits (logical_shift_meaning v).tree
logical_shift-TreeFits v = (
  bitwise_op-ne (field v 29 30),
  register_tree-TreeFits (field v 5 9) (omega arith),
  negated (bit v 21),
)
  where
    negated :
        (b : Bool)
        → TreeFits (if b then Tree.node MathOp.neg (shifted_tree v) Tree.empty else shifted_tree v)
    negated true = (ne_enummax MathOp.neg (omega arith), shifted_tree-TreeFits v, tt)
    negated false = shifted_tree-TreeFits v

addsub_shift-TreeFits : (v : ℕ) → TreeFits (addsub_shift_meaning v).tree
addsub_shift-TreeFits v = (
  ne_enummax (if bit v 30 then MathOp.add else MathOp.sub) (ground arith),
  register_tree-TreeFits (field v 5 9) (omega arith),
  shifted_tree-TreeFits v,
)

Means-IsTyped :
    {m : MathMeaning} {lo : ℕ} {p : Pool Cell} {i : Instruction}
    → m.rd < 2 ^ 5
    → TreeFits m.tree
    → Means m lo p i
    → BodyIsTyped p i.body
Means-IsTyped {p = p} h f m =
    subst (λ i. BodyIsTyped p i.body) (sym m.is_math) (h, Represents-IsTyped m.tree f)

zero-IsTyped : (p : Pool Cell) (i : Instruction) → i ≡ zero_instruction → BodyIsTyped p i.body
zero-IsTyped p i e = subst (λ j. BodyIsTyped p j.body) (sym e) (omega arith, IsTyped.blank)

ImmMeans-IsTyped :
    (page : DataImmPage) (v lo : ℕ) (p : Pool Cell) (i : Instruction)
    → ImmMeans page v lo p i
    → BodyIsTyped p i.body
ImmMeans-IsTyped DataImmPage.addsub_imm v lo p i m =
    Means-IsTyped (omega arith) (addsub_imm-TreeFits v) m
ImmMeans-IsTyped DataImmPage.logical_imm v lo p i (mask, is_mask, m) =
    Means-IsTyped (omega arith) (logical_imm-TreeFits mask v) m
ImmMeans-IsTyped other v lo p i m = zero-IsTyped p i m

RegMeans-IsTyped :
    (page : DataRegPage) (v lo : ℕ) (p : Pool Cell) (i : Instruction)
    → RegMeans page v lo p i
    → BodyIsTyped p i.body
RegMeans-IsTyped DataRegPage.logical_shift v lo p i m =
    Means-IsTyped (omega arith) (logical_shift-TreeFits v) m
RegMeans-IsTyped DataRegPage.addsub_shift v lo p i m =
    Means-IsTyped (omega arith) (addsub_shift-TreeFits v) m
RegMeans-IsTyped other v lo p i m = zero-IsTyped p i m

indirect_branch-BranchFits : (v : ℕ) → BranchFits (indirect_branch v).dest
indirect_branch-BranchFits v = ground arith

BranchMeans-IsTyped :
    (page : BranchPage) (v : ℕ) (p : Pool Cell) (i : Instruction)
    → BranchMeans page v i
    → BodyIsTyped p i.body
BranchMeans-IsTyped BranchPage.unconditional_imm v p i m =
    subst (λ j. BodyIsTyped p j.body) (sym m) (omega arith)
BranchMeans-IsTyped BranchPage.unconditional_reg v p i m =
    subst (λ j. BodyIsTyped p j.body) (sym m) (indirect_branch-BranchFits v)
BranchMeans-IsTyped other v p i m = zero-IsTyped p i m

GroupMeans-IsTyped :
    (group : L1Page) (v lo : ℕ) (p : Pool Cell) (i : Instruction)
    → GroupMeans group v lo p i
    → BodyIsTyped p i.body
GroupMeans-IsTyped L1Page.data_imm v lo p i m = ImmMeans-IsTyped (imm_page v) v lo p i m
GroupMeans-IsTyped L1Page.data_reg v lo p i m = RegMeans-IsTyped (reg_page v) v lo p i m
GroupMeans-IsTyped L1Page.branch v lo p i m = BranchMeans-IsTyped (branch_page v) v p i m
GroupMeans-IsTyped other v lo p i m = zero-IsTyped p i m

-- An instruction with the meaning of some word is well-typed.
pub WordMeans-IsTyped :
    (v lo : ℕ) (p : Pool Cell) (i : Instruction) → WordMeans v lo p i → BodyIsTyped p i.body
WordMeans-IsTyped v lo p i m = GroupMeans-IsTyped (top_page v) v lo p i m
