-- ===== src/Decode/Computes.antt =====
-- What `decode` builds for a bitwise operation computes what the manual says, but for the upper half
-- of a bitmask.
use koshka.Base.{ℕ, ◌%◌, ◌^◌, ◌≤◌, ◌==◌, ◌≡◌, refl, ap, ◌∙◌, arith}
use koshka.Base.{ltb, if◌then◌else◌, Bool, u32}
use mathlib.Core.Path.{subst}
use koshka.Base.Digit.Shift.{digit-mod, digit_as_quotient}
use koshka.Bitmanip.Region.{field}
use koshka.ArmAsl.Masks.{HasLength}
use koshka.ArmEncoding.Pages.{L1Page, DataImmPage, DataRegPage}
use koshka.Pool.{Pool, Store}
use koshka.Iml.Types.{Instruction}
use koshka.Iml.Objects.{Cell}
use koshka.Iml.Trees.{Tree}
use koshka.Iml.Yields.{Ready, Yields, Yields-map}
use koshka.Iml.Bits.{mod-HasBits}
use koshka.Decode.{decode}
use koshka.Decode.Meaning.{bit, MathMeaning, Means, logical_imm_meaning, logical_shift_meaning}
use koshka.Decode.Words.{
  top_page, imm_page, reg_page, IsMask, IsAccepted, ShiftFits, WordMeans, GroupMeans, ImmMeans,
  RegMeans,
}
use koshka.Decode.Manual.{width}
use koshka.Decode.Manual.{logical_shift_bit, logical_imm_bit, bitmask_bit}
use koshka.Decode.Values.{
  Evaluates, logical-Evaluates, inverted-Evaluates, register_tree-Evaluates, shifted_tree-Evaluates,
}
use koshka.Decode.Total.{decode-Means}

-- A data processing instruction for the destination of the word, at its width, whose tree has these
-- bits as its value.
pub record Computes (v : ℕ) (regs : ℕ → ℕ) (set_flags : Bool) (bits : ℕ → ℕ) (lo : ℕ)
    (p : Pool Cell) (i : Instruction) : Type 0 where
  pub meaning : MathMeaning
  pub means : Means meaning lo p i
  pub destination : meaning.rd ≡ field v 0 4
  pub wide : meaning.is_64bit ≡ bit v 31
  pub flags : meaning.set_flags ≡ set_flags
  pub touches : meaning.touched ≡ set_flags
  pub evaluates : Evaluates (width v) regs meaning.tree bits

-- The meaning of a word, by its page.
pub RegMeans-of :
    (page : DataRegPage) (v lo : ℕ) (p : Pool Cell) (i : Instruction)
    → top_page v ≡ L1Page.data_reg
    → reg_page v ≡ page
    → WordMeans v lo p i
    → RegMeans page v lo p i
RegMeans-of page v lo p i g r m =
    subst (λ t. RegMeans t v lo p i) r (subst (λ t. GroupMeans t v lo p i) g m)

pub ImmMeans-of :
    (page : DataImmPage) (v lo : ℕ) (p : Pool Cell) (i : Instruction)
    → top_page v ≡ L1Page.data_imm
    → imm_page v ≡ page
    → WordMeans v lo p i
    → ImmMeans page v lo p i
ImmMeans-of page v lo p i g r m =
    subst (λ t. ImmMeans t v lo p i) r (subst (λ t. GroupMeans t v lo p i) g m)

-- A word with the meaning of its page computes what the manual says.
pub logical_shift-Computes :
    (v lo : ℕ) (regs : ℕ → ℕ) (p : Pool Cell) (i : Instruction)
    → ShiftFits v
    → Means (logical_shift_meaning v) lo p i
    → Computes v regs (field v 29 30 == 3) (λ j. logical_shift_bit v regs j) lo p i
logical_shift-Computes v lo regs p i fits means = record {
  meaning = logical_shift_meaning v;
  means = means;
  destination = refl;
  wide = refl;
  flags = refl;
  touches = refl;
  evaluates =
      logical-Evaluates (field v 29 30) (register_tree-Evaluates (width v) regs (field v 5 9))
        (inverted-Evaluates (bit v 21) (shifted_tree-Evaluates v regs fits));
}

-- From a valid pool with a buffer of at most 2^31 bytes, whose position is at most 2^30 after 144
-- more bytes, and with every calloc granted, every word of the page of bitwise operations on
-- shifted registers, with a shift of at most 31 if it is on 32 bits, decodes to an instruction
-- for the destination of the word whose expression tree in the pool has the value that the manual
-- says, bit by bit, for any contents of the registers: AND, BIC, ORR, ORN, EOR, EON, ANDS or BICS
-- of a register and a register shifted in any of the four ways. The instruction sets the flags,
-- and marks them as touched, for ANDS and BICS. The tag of an operation is unwritten, so its tree
-- is read by the member of the union that was written.
pub decode-logical_shift :
    (v : ℕ) (regs : ℕ → ℕ) (st : Store Cell)
    → IsAccepted v
    → top_page v ≡ L1Page.data_reg
    → reg_page v ≡ DataRegPage.logical_shift
    → Ready st 144
    → Yields st 144
        (Computes v regs (field v 29 30 == 3) (λ j. logical_shift_bit v regs j) st.pool.pos)
        (decode v st)
decode-logical_shift v regs st e g r ready =
    Yields-map
      (λ p i m.
        logical_shift-Computes v st.pool.pos regs p i (e.logical g r)
          (RegMeans-of DataRegPage.logical_shift v st.pool.pos p i g r m))
      (decode-Means v st e ready)

-- The constant of a bitwise operation: the low half of its bitmask.
mask-Evaluates :
    (w : ℕ) (regs : ℕ → ℕ) (v mask : ℕ)
    → (m : IsMask v mask) → w ≤ 64
    → Evaluates w regs (Tree.imm (u32 mask)) (λ j. if ltb j 32 then bitmask_bit v m.len j else 0)
mask-Evaluates w regs v mask m small = record {
  result = u32 mask % 2 ^ w;
  has_value = refl;
  has_bits = record {
    below = λ j h.
        (mod-HasBits w (u32 mask)).below j h
        ∙ digit-mod mask 32 j
        ∙ ap (λ t. if ltb j 32 then t else 0) (digit_as_quotient mask j ∙ m.bits j (omega arith));
    above = (mod-HasBits w (u32 mask)).above;
  };
}

-- The operation on the register and the low 32 bits of the bitmask.
abbrev pub LogicalImmComputes : ℕ → (ℕ → ℕ) → ℕ → Pool Cell → Instruction → Type 0
LogicalImmComputes v regs lo p i =
    (len : ℕ) × HasLength (bit v 22) (field v 10 15) len
    × Computes v regs (field v 29 30 == 3)
        (λ j. logical_imm_bit v regs (λ k. if ltb k 32 then bitmask_bit v len k else 0) j) lo p i

pub logical_imm-Computes :
    (v mask lo : ℕ) (regs : ℕ → ℕ) (p : Pool Cell) (i : Instruction)
    → IsMask v mask
    → Means (logical_imm_meaning mask v) lo p i
    → LogicalImmComputes v regs lo p i
logical_imm-Computes v mask lo regs p i is_mask means = (
  is_mask.len,
  is_mask.has_length,
  record {
    meaning = logical_imm_meaning mask v;
    means = means;
    destination = refl;
    wide = refl;
    flags = refl;
    touches = refl;
    evaluates =
        logical-Evaluates (field v 29 30) (register_tree-Evaluates (width v) regs (field v 5 9))
          (mask-Evaluates (width v) regs v mask is_mask (ground arith));
  },
)

-- From a valid pool with a buffer of at most 2^31 bytes, whose position is at most 2^30 after 144
-- more bytes, and with every calloc granted, every word of the page of bitwise operations with an
-- immediate whose fields encode a bitmask, with N = 0 if it is on 32 bits, decodes to an
-- instruction for the destination of the word whose expression tree in the pool has as its value,
-- bit by bit, the operation on the register and the low 32 bits of the bitmask of the manual: all
-- of it on 32 bits, and without its upper half on 64 bits. The instruction sets the flags, and
-- marks them as touched, for ANDS. The tag of an operation is unwritten, so its tree is read by
-- the member of the union that was written.
pub decode-logical_imm :
    (v : ℕ) (regs : ℕ → ℕ) (st : Store Cell)
    → IsAccepted v
    → top_page v ≡ L1Page.data_imm
    → imm_page v ≡ DataImmPage.logical_imm
    → Ready st 144
    → Yields st 144 (LogicalImmComputes v regs st.pool.pos) (decode v st)
decode-logical_imm v regs st e g r ready =
    Yields-map
      (λ p i m.
        let means = ImmMeans-of DataImmPage.logical_imm v st.pool.pos p i g r m in
        logical_imm-Computes v (means.0) st.pool.pos regs p i (means.1) (means.2))
      (decode-Means v st e ready)
