-- ===== src/Decode/Adds.antt =====
-- What `decode` builds for an addition or a subtraction, and where it is not what the manual says.
use koshka.Base.{ℕ, ◌/◌, ◌%◌, ◌^◌, ◌<◌, ◌==◌, ◌≡◌, refl, ap, arith}
use koshka.Base.{if◌then◌else◌, not, Bool, Bool-cases, inl, inr, some}
use native.Mathlib.Nat.{mod-eq_of_lt, one-le-pow}
use koshka.Base.Digit.{digit}
use koshka.Bitmanip.Region.{field}
use koshka.ArmEncoding.Pages.{L1Page, DataImmPage, DataRegPage}
use koshka.Pool.{Pool, Store}
use koshka.Iml.Types.{MathOp, Instruction}
use koshka.Iml.Objects.{Cell}
use koshka.Iml.Trees.{Tree, register_tree}
use koshka.Iml.Yields.{Ready, Yields, Yields-map}
use koshka.Iml.Values.{value}
use koshka.Iml.Bits.{HasBits, small-HasBits}
use koshka.Decode.{decode}
use koshka.Decode.Meaning.{bit, MathMeaning, Means}
use koshka.Decode.Meaning.{addsub_shift_meaning, addsub_imm_meaning, shifted_tree}
use koshka.Decode.Words.{top_page, imm_page, reg_page, IsAccepted}
use koshka.Decode.Manual.{width}
use koshka.Decode.Manual.{shifted_register_bit}
use koshka.Decode.Manual.{register, add_or_subtract, addsub_immediate}
use koshka.Decode.Values.{Evaluates, shifted_tree-Evaluates}
use koshka.Decode.Total.{decode-Means}
use koshka.Base.{false}
use koshka.Decode.Words.{ShiftFits}
use koshka.Decode.Computes.{RegMeans-of, ImmMeans-of}

-- An instruction that adds or subtracts the operand with these bits, and marks all four flags as
-- touched, or none.
pub record Adds (v : ℕ) (regs : ℕ → ℕ) (subtract touched : Bool) (bits : ℕ → ℕ) (lo : ℕ)
    (p : Pool Cell) (i : Instruction) : Type 0 where
  pub meaning : MathMeaning
  pub means : Means meaning lo p i
  pub destination : meaning.rd ≡ field v 0 4
  pub wide : meaning.is_64bit ≡ bit v 31
  pub flags : meaning.set_flags ≡ bit v 29
  pub touches : meaning.touched ≡ touched
  pub operand : ℕ
  pub operand_bits : HasBits (width v) operand bits
  pub has_value :
      value (width v) regs meaning.tree
      ≡ some (add_or_subtract (width v) subtract (register (width v) regs (field v 5 9)) operand)

value-register_tree :
    (w : ℕ) (regs : ℕ → ℕ) (n : ℕ) → value w regs (register_tree n) ≡ some (register w regs n)
value-register_tree w regs n = elim (Bool-cases (n == 31)) [
  | inl zero ↦ rw zero (ap some (mod-eq_of_lt (one-le-pow w 2 (omega arith))))
  | inr other ↦ rw other refl
]

pub addsub_shift-Adds :
    (v lo : ℕ) (regs : ℕ → ℕ) (p : Pool Cell) (i : Instruction)
    → ShiftFits v
    → Means (addsub_shift_meaning v) lo p i
    → Adds v regs (not (bit v 30)) (bit v 29) (shifted_register_bit v regs) lo p i
addsub_shift-Adds v lo regs p i fits means =
    let operand : Evaluates (width v) regs (shifted_tree v) _ =
      shifted_tree-Evaluates v regs fits in
    record {
      meaning = addsub_shift_meaning v;
      means = means;
      destination = refl;
      wide = refl;
      flags = refl;
      touches = refl;
      operand = operand.result;
      operand_bits = operand.has_bits;
      has_value = elim (Bool-cases (bit v 30)) [
        | inl adds ↦
            rw (adds, value-register_tree (width v) regs (field v 5 9), operand.has_value) refl
        | inr subtracts ↦
            rw (subtracts, value-register_tree (width v) regs (field v 5 9), operand.has_value) refl
      ];
    }

-- From a valid pool with a buffer of at most 2^31 bytes, whose position is at most 2^30 after 144
-- more bytes, and with every calloc granted, every word of the page of additions and subtractions
-- of shifted registers, with a shift of at most 31 if it is on 32 bits, decodes to an instruction
-- for the destination of the word whose expression tree in the pool has as its value, at the
-- width of the word, the sum or difference of the register and the shifted register of the
-- manual, but the sum where the manual subtracts and the difference where it adds, and with the
-- reserved shift type as ROR. The instruction sets the flags, and marks them as touched, where
-- bit 29 is set. The tag of an operation is unwritten, so its tree is read by the member of the
-- union that was written.
pub decode-addsub_shift :
    (v : ℕ) (regs : ℕ → ℕ) (st : Store Cell)
    → IsAccepted v
    → top_page v ≡ L1Page.data_reg
    → reg_page v ≡ DataRegPage.addsub_shift
    → Ready st 144
    → Yields st 144
        (Adds v regs (not (bit v 30)) (bit v 29) (shifted_register_bit v regs) st.pool.pos)
        (decode v st)
decode-addsub_shift v regs st e g r ready =
    Yields-map
      (λ p i m.
        addsub_shift-Adds v st.pool.pos regs p i (e.addsub g r)
          (RegMeans-of DataRegPage.addsub_shift v st.pool.pos p i g r m))
      (decode-Means v st e ready)

addsub_immediate-small : (v : ℕ) → addsub_immediate v < 2 ^ 24
addsub_immediate-small v = ground arith

value-immediate :
    (v : ℕ) (regs : ℕ → ℕ)
    → value (width v) regs (
        if field v 22 23 == 1
        then Tree.node MathOp.lsl (Tree.imm (field v 10 21)) (Tree.imm 12)
        else Tree.imm (field v 10 21))
      ≡ some (addsub_immediate v)
value-immediate v regs = elim (Bool-cases (field v 22 23 == 1)) [
  | inl shifted ↦ rw shifted (elim (Bool-cases (bit v 31)) [
    | inl wide ↦ rw wide (ap some (omega arith))
    | inr short ↦ rw short (ap some (omega arith))
  ])
  | inr plain ↦ rw plain (elim (Bool-cases (bit v 31)) [
    | inl wide ↦ rw wide (ap some (omega arith))
    | inr short ↦ rw short (ap some (omega arith))
  ])
]

pub addsub_imm-Adds :
    (v lo : ℕ) (regs : ℕ → ℕ) (p : Pool Cell) (i : Instruction)
    → Means (addsub_imm_meaning v) lo p i
    → Adds v regs (not (bit v 30)) false (digit (addsub_immediate v)) lo p i
addsub_imm-Adds v lo regs p i means = record {
  meaning = addsub_imm_meaning v;
  means = means;
  destination = refl;
  wide = refl;
  flags = refl;
  touches = refl;
  operand = addsub_immediate v;
  operand_bits =
      small-HasBits (width v) 24 (addsub_immediate v) (addsub_immediate-small v) (ground arith);
  has_value = elim (Bool-cases (v / 2 ^ 30 % 2 == 0)) [
    | inl clear ↦
        rw (clear, value-register_tree (width v) regs (field v 5 9), value-immediate v regs) refl
    | inr set_ ↦
        rw (set_, value-register_tree (width v) regs (field v 5 9), value-immediate v regs) refl
  ];
}

-- From a valid pool with a buffer of at most 2^31 bytes, whose position is at most 2^30 after 144
-- more bytes, and with every calloc granted, every word of the page of additions and subtractions
-- of an immediate decodes to an instruction for the destination of the word whose expression tree
-- in the pool has as its value, at the width of the word, the sum or difference of the register,
-- where register 31 is zero and not the stack pointer, and the immediate, shifted by 12 where the
-- shift field is 1 and else not, but the sum where the manual subtracts and the difference where
-- it adds. The instruction sets the flags where bit 29 is set, but never marks them as touched.
-- The tag of an operation is unwritten, so its tree is read by the member of the union that was
-- written.
pub decode-addsub_imm :
    (v : ℕ) (regs : ℕ → ℕ) (st : Store Cell)
    → IsAccepted v
    → top_page v ≡ L1Page.data_imm
    → imm_page v ≡ DataImmPage.addsub_imm
    → Ready st 144
    → Yields st 144
        (Adds v regs (not (bit v 30)) false (digit (addsub_immediate v)) st.pool.pos)
        (decode v st)
decode-addsub_imm v regs st e g r ready =
    Yields-map
      (λ p i m.
        addsub_imm-Adds v st.pool.pos regs p i
          (ImmMeans-of DataImmPage.addsub_imm v st.pool.pos p i g r m))
      (decode-Means v st e ready)
