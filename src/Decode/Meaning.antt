-- ===== src/Decode/Meaning.antt =====
-- What the decoder takes the data processing instructions for, read off the fields of the instruction
-- word: an operation on a tree of registers and constants, with no pool and no handles. This follows
-- the code where it differs from the manual; what the manual says is in Manual.
use koshka.Base.{ℕ, ◌/◌, ◌%◌, ◌^◌, ◌==◌, if◌then◌else◌, ◌≡◌, Bool, false, not, u32}
use koshka.Pool.{Pool}
use koshka.Bitmanip.Region.{field}
use koshka.Iml.Types.{MathOp, Expression, Instruction}
use koshka.Iml.Objects.{Cell}
use koshka.Iml.Trees.{Tree, Represents, register_tree}
use koshka.Decode.Immediates.{math_instruction}

pub record MathMeaning : Type 0 where
  pub rd : ℕ
  pub set_flags : Bool
  pub tree : Tree
  pub is_64bit : Bool
  pub touched : Bool

-- The instruction has that meaning in the pool, and its tree stands at or after `lo`.
pub record Means (m : MathMeaning) (lo : ℕ) (p : Pool Cell) (i : Instruction) : Type 0 where
  pub expr : Expression
  pub is_math : i ≡ math_instruction m.rd m.set_flags expr m.is_64bit m.touched
  pub tree : Represents p lo expr m.tree

abbrev pub bit : ℕ → ℕ → Bool
bit v k = not (v / 2 ^ k % 2 == 0)

-- Bits 23 and 22 say whether the 12-bit immediate is shifted by 12. The code takes bit 30 for an
-- addition, where the manual has it for a subtraction, and marks no flag as touched, also where bit
-- 29 says that the flags are set.
abbrev pub addsub_imm_meaning : ℕ → MathMeaning
addsub_imm_meaning v = record {
  rd = field v 0 4;
  set_flags = bit v 29;
  tree =
      Tree.node (if v / 2 ^ 30 % 2 == 0 then MathOp.sub else MathOp.add)
        (register_tree (field v 5 9))
        (if field v 22 23 == 1
          then Tree.node MathOp.lsl (Tree.imm (field v 10 21)) (Tree.imm 12)
          else Tree.imm (field v 10 21));
  is_64bit = bit v 31;
  touched = false;
}

-- A 2-bit `opc` field of a bitwise instruction: AND, ORR, EOR and ANDS.
abbrev pub bitwise_op : ℕ → MathOp
bitwise_op opc = if opc == 1 then MathOp.or else if opc == 2 then MathOp.xor else MathOp.and

-- A 2-bit shift type: LSL, LSR, ASR and ROR.
abbrev pub shift_op : ℕ → MathOp
shift_op t =
    if t == 0
    then MathOp.lsl
    else if t == 1
    then MathOp.lsr
    else if t == 2
    then MathOp.asr
    else MathOp.ror

-- `mask` is what the bitmask immediate stands for; the code keeps its low 32 bits.
abbrev pub logical_imm_meaning : ℕ → ℕ → MathMeaning
logical_imm_meaning mask v = record {
  rd = field v 0 4;
  set_flags = field v 29 30 == 3;
  tree = Tree.node (bitwise_op (field v 29 30)) (register_tree (field v 5 9)) (Tree.imm (u32 mask));
  is_64bit = bit v 31;
  touched = field v 29 30 == 3;
}

abbrev pub shifted_tree : ℕ → Tree
shifted_tree v =
    if field v 10 15 == 0
    then register_tree (field v 16 20)
    else Tree.node (shift_op (field v 22 23)) (register_tree (field v 16 20))
        (Tree.imm (field v 10 15))

abbrev pub logical_shift_meaning : ℕ → MathMeaning
logical_shift_meaning v = record {
  rd = field v 0 4;
  set_flags = field v 29 30 == 3;
  tree =
      Tree.node (bitwise_op (field v 29 30)) (register_tree (field v 5 9))
        (if bit v 21 then Tree.node MathOp.neg (shifted_tree v) Tree.empty else shifted_tree v);
  is_64bit = bit v 31;
  touched = field v 29 30 == 3;
}

abbrev pub addsub_shift_meaning : ℕ → MathMeaning
addsub_shift_meaning v = record {
  rd = field v 0 4;
  set_flags = bit v 29;
  tree =
      Tree.node (if bit v 30 then MathOp.add else MathOp.sub) (register_tree (field v 5 9))
        (shifted_tree v);
  is_64bit = bit v 31;
  touched = bit v 29;
}
