-- ===== src/Decode/Math.antt =====
-- The decoders of immediates build the tree that the instruction word means.
use koshka.Base.{ℕ, ◌/◌, ◌%◌, ◌^◌, ◌≤◌, ◌==◌, if◌then◌else◌, ◌≡◌, refl, arith}
use koshka.Base.{◌||◌, Bool, true, false, u32, Bool-cases, inl, inr}
use koshka.Bitmanip.Region.{field, get_bit_region-u32, get_single_bit_lem}
use koshka.Pool.{Store}
use koshka.Iml.Types.{MathOp, Expression}
use koshka.Iml.Objects.{Cell}
use koshka.Iml.Monad.{pure, ◌>>=◌}
use koshka.Iml.Expressions.{node_expression}
use koshka.Iml.Trees.{Tree, Represents, register_tree}
use koshka.Iml.Trees.{value_expression-register, value_expression-immediate, node_expression-Yields}
use koshka.Iml.Yields.{Ready, Ready-le, Yields, bind-Yields, pure-Yields, Yields-weaken}
use koshka.Decode.Fields.{byte_field_lem, u8_bit, bitwise_table}
use koshka.Decode.Immediates.{math_instruction, shifted_immediate}
use koshka.Decode.Immediates.{decode_addsub_imm, decode_logical_imm}
use koshka.ArmAsl.{decode_bit_masks}
use koshka.Base.Result.{ok}
use koshka.Decode.Meaning.{Means, addsub_imm_meaning, bit}
use koshka.Decode.Meaning.{logical_imm_meaning}

-- The last step of every decoder: the node over both operands, and the instruction round it.
pub finish_math :
    (l r : Expression) (op : MathOp) (tl tr : Tree) (rd : ℕ) (set_flags is_64bit touched : Bool)
    (st : Store Cell) (lo : ℕ)
    → lo ≤ st.pool.pos
    → Ready st 48
    → Represents st.pool lo l tl
    → Represents st.pool lo r tr
    → Yields st 48
        (Means
          (record {
            rd = rd;
            set_flags = set_flags;
            tree = Tree.node op tl tr;
            is_64bit = is_64bit;
            touched = touched;
          })
          lo)
        ((node_expression l op r false >>= λ e.
            pure (math_instruction rd set_flags e is_64bit touched))
          st)
finish_math l r op tl tr rd set_flags is_64bit touched st lo from ready hl hr =
    bind-Yields (node_expression l op r false) _ st 48 0
      (λ p e. Represents p lo e (Tree.node op tl tr)) _ ready
      (node_expression-Yields l r op tl tr st lo from ready hl hr)
      (λ e st1 ready1 ext t.
        pure-Yields _ st1 _ ready1 (record { expr = e; is_math = refl; tree = t }))

shifted_immediate-Yields :
    (shift n : ℕ) (st : Store Cell) (lo : ℕ)
    → lo ≤ st.pool.pos
    → Ready st 48
    → Yields st 48
        (λ p e.
          Represents p lo e
            (if shift == 1 then Tree.node MathOp.lsl (Tree.imm n) (Tree.imm 12) else Tree.imm n))
        (shifted_immediate shift n st)
unfolding shifted_immediate
shifted_immediate-Yields shift n st lo from ready = elim (Bool-cases (shift == 1)) [
  | inl yes_ ↦ rw yes_ (
      node_expression-Yields _ _ MathOp.lsl (Tree.imm n) (Tree.imm 12) st lo from ready
        (value_expression-immediate st.pool lo n) (value_expression-immediate st.pool lo 12))
  | inr no_ ↦ rw no_ (
      Yields-weaken 48 (omega arith) (
        pure-Yields _ st _ (Ready-le 0 (omega arith) ready)
          (value_expression-immediate st.pool lo n)))
]

-- An add or subtract of an immediate decodes to its meaning, from any pool with room for it.
pub decode_addsub_imm-Means :
    (instr : ℕ) (st : Store Cell)
    → Ready st 96
    → Yields st 96 (Means (addsub_imm_meaning instr) st.pool.pos) (decode_addsub_imm instr st)
unfolding decode_addsub_imm
decode_addsub_imm-Means instr st ready =
    rw
      (
        byte_field_lem instr 22 23 (omega arith) (omega arith) (omega arith),
        byte_field_lem instr 5 9 (omega arith) (omega arith) (omega arith),
        byte_field_lem instr 0 4 (omega arith) (omega arith) (omega arith),
        get_bit_region-u32 instr 10 21 (omega arith) (omega arith),
        get_single_bit_lem instr 29,
        u8_bit instr 30,
        get_single_bit_lem instr 31,
      )
      (bind-Yields (shifted_immediate (field instr 22 23) (field instr 10 21)) _ st 48 48 _ _ ready
        (shifted_immediate-Yields (field instr 22 23) (field instr 10 21) st st.pool.pos
          (omega arith) (Ready-le 48 (omega arith) ready))
        (λ e st1 ready1 ext t.
          finish_math _ e _ (register_tree (field instr 5 9)) _ _ _ _ _ st1 st.pool.pos
            (omega arith) ready1
            (value_expression-register st1.pool st.pool.pos (field instr 5 9) (omega arith)) t))

-- A bitwise operation with an immediate decodes to its meaning, where its bitmask does.
pub decode_logical_imm-Means :
    (instr mask : ℕ) (st : Store Cell)
    → decode_bit_masks (bit instr 22) (field instr 10 15) (field instr 16 21) ≡ ok mask
    → (bit instr 31 || instr / 2 ^ 22 % 2 == 0) ≡ true
    → Ready st 48
    → Yields st 48
        (Means (logical_imm_meaning mask instr) st.pool.pos)
        (decode_logical_imm instr st)
unfolding decode_logical_imm
decode_logical_imm-Means instr mask st masked wide ready =
    rw
      (
        byte_field_lem instr 29 30 (omega arith) (omega arith) (omega arith),
        byte_field_lem instr 5 9 (omega arith) (omega arith) (omega arith),
        byte_field_lem instr 0 4 (omega arith) (omega arith) (omega arith),
        byte_field_lem instr 16 21 (omega arith) (omega arith) (omega arith),
        byte_field_lem instr 10 15 (omega arith) (omega arith) (omega arith),
        u8_bit instr 22,
        get_single_bit_lem instr 31,
        wide,
        masked,
        bitwise_table (field instr 29 30) (omega arith),
      )
      (finish_math _ _ _ (register_tree (field instr 5 9)) (Tree.imm (u32 mask)) _ _ _ _ st
        st.pool.pos (omega arith) ready
        (value_expression-register st.pool st.pool.pos (field instr 5 9) (omega arith))
        (value_expression-immediate st.pool st.pool.pos (u32 mask)))
