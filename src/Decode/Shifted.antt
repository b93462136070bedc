-- ===== src/Decode/Shifted.antt =====
-- The decoders of shifted registers build the tree that the instruction word means.
use koshka.Base.{ℕ, ◌/◌, ◌%◌, ◌^◌, ◌≤◌, ◌==◌, if◌then◌else◌, ◌≡◌, arith}
use koshka.Base.{◌||◌, Bool, true, false, Bool-cases, inl, inr}
use koshka.Bitmanip.Region.{field, get_single_bit_lem}
use koshka.Pool.{Store}
use koshka.Iml.Types.{MathOp, Expression, zero_expression}
use koshka.Iml.Objects.{Cell}
use koshka.Iml.Trees.{Tree, Represents, register_tree}
use koshka.Iml.Trees.{value_expression-register, value_expression-immediate, node_expression-Yields}
use koshka.Iml.Yields.{Ready, Ready-le, Yields, bind-Yields, pure-Yields, Yields-weaken}
use koshka.Decode.Fields.{byte_field_lem, bitwise_table, shift_table, shift_op-ne}
use koshka.Decode.Registers.{shifted_register, negated, decode_data_reg_logical_shift}
use koshka.Decode.Registers.{decode_data_reg_addsub_shift}
use koshka.Decode.Meaning.{Means, bit}
use koshka.Decode.Meaning.{shift_op, logical_shift_meaning}
use koshka.Decode.Meaning.{addsub_shift_meaning}
use koshka.Decode.Math.{finish_math}

shifted_register-Yields :
    (rm : ℕ) (op : MathOp) (len : ℕ) (st : Store Cell) (lo : ℕ)
    → lo ≤ st.pool.pos
    → rm ≤ 31
    → Ready st 48
    → Yields st 48
        (λ p e.
          Represents p lo e
            (if len == 0 then register_tree rm else Tree.node op (register_tree rm) (Tree.imm len)))
        (shifted_register rm op len st)
unfolding shifted_register
shifted_register-Yields rm op len st lo from small ready = elim (Bool-cases (len == 0)) [
  | inl none_ ↦ rw none_ (
      Yields-weaken 48 (omega arith) (
        pure-Yields _ st _ (Ready-le 0 (omega arith) ready)
          (value_expression-register st.pool lo rm small)))
  | inr some_ ↦ rw some_ (
      node_expression-Yields _ _ op (register_tree rm) (Tree.imm len) st lo from ready
        (value_expression-register st.pool lo rm small) (value_expression-immediate st.pool lo len))
]

negated-Yields :
    (negate : Bool) (e : Expression) (t : Tree) (st : Store Cell) (lo : ℕ)
    → lo ≤ st.pool.pos
    → Ready st 48
    → Represents st.pool lo e t
    → Yields st 48
        (λ p e'. Represents p lo e' (if negate then Tree.node MathOp.neg t Tree.empty else t))
        (negated negate e st)
unfolding negated
negated-Yields true e t st lo from ready h =
    node_expression-Yields e zero_expression MathOp.neg t Tree.empty st lo from ready h
      Represents.empty
negated-Yields false e t st lo from ready h =
    Yields-weaken 48 (omega arith) (pure-Yields e st _ (Ready-le 0 (omega arith) ready) h)

-- A bitwise operation on shifted registers decodes to its meaning, unless it shifts a 32-bit
-- register by more than 31.
pub decode_data_reg_logical_shift-Means :
    (instr : ℕ) (st : Store Cell)
    → (bit instr 31 || field instr 10 15 / 2 ^ 5 % 2 == 0) ≡ true
    → Ready st 144
    → Yields st 144
        (Means (logical_shift_meaning instr) st.pool.pos)
        (decode_data_reg_logical_shift instr st)
unfolding decode_data_reg_logical_shift
decode_data_reg_logical_shift-Means instr st wide ready =
    rw
      (
        byte_field_lem instr 29 30 (omega arith) (omega arith) (omega arith),
        byte_field_lem instr 22 23 (omega arith) (omega arith) (omega arith),
        byte_field_lem instr 5 9 (omega arith) (omega arith) (omega arith),
        byte_field_lem instr 0 4 (omega arith) (omega arith) (omega arith),
        byte_field_lem instr 16 20 (omega arith) (omega arith) (omega arith),
        byte_field_lem instr 10 15 (omega arith) (omega arith) (omega arith),
        get_single_bit_lem instr 31,
        get_single_bit_lem instr 21,
        get_single_bit_lem (field instr 10 15) 5,
        wide,
        bitwise_table (field instr 29 30) (omega arith),
        shift_table (field instr 22 23) (omega arith),
      )
      (bind-Yields
        (shifted_register (field instr 16 20) (shift_op (field instr 22 23)) (field instr 10 15)) _
        st 48 96 _ _ ready
        (shifted_register-Yields (field instr 16 20) (shift_op (field instr 22 23))
          (field instr 10 15) st st.pool.pos (omega arith) (omega arith)
          (Ready-le 48 (omega arith) ready))
        (λ e st1 ready1 ext t.
          bind-Yields (negated (bit instr 21) e) _ st1 48 48 _ _ ready1
            (negated-Yields (bit instr 21) e _ st1 st.pool.pos (omega arith)
              (Ready-le 48 (omega arith) ready1) t)
            (λ e' st2 ready2 ext2 t'.
              finish_math _ e' _ (register_tree (field instr 5 9)) _ _ _ _ _ st2 st.pool.pos
                (omega arith) ready2
                (value_expression-register st2.pool st.pool.pos (field instr 5 9) (omega arith))
                t')))

-- An add or subtract of a shifted register decodes to its meaning, unless it shifts a 32-bit
-- register by more than 31. The reserved shift type 3 is decoded as a rotation.
pub decode_data_reg_addsub_shift-Means :
    (instr : ℕ) (st : Store Cell)
    → (bit instr 31 || field instr 10 15 / 2 ^ 5 % 2 == 0) ≡ true
    → Ready st 96
    → Yields st 96
        (Means (addsub_shift_meaning instr) st.pool.pos)
        (decode_data_reg_addsub_shift instr st)
unfolding decode_data_reg_addsub_shift
decode_data_reg_addsub_shift-Means instr st wide ready =
    rw
      (
        byte_field_lem instr 22 23 (omega arith) (omega arith) (omega arith),
        byte_field_lem instr 5 9 (omega arith) (omega arith) (omega arith),
        byte_field_lem instr 0 4 (omega arith) (omega arith) (omega arith),
        byte_field_lem instr 16 20 (omega arith) (omega arith) (omega arith),
        byte_field_lem instr 10 15 (omega arith) (omega arith) (omega arith),
        get_single_bit_lem instr 31,
        get_single_bit_lem instr 30,
        get_single_bit_lem instr 29,
        get_single_bit_lem (field instr 10 15) 5,
        shift_table (field instr 22 23) (omega arith),
        shift_op-ne (field instr 22 23),
        wide,
      )
      (bind-Yields
        (shifted_register (field instr 16 20) (shift_op (field instr 22 23)) (field instr 10 15)) _
        st 48 48 _ _ ready
        (shifted_register-Yields (field instr 16 20) (shift_op (field instr 22 23))
          (field instr 10 15) st st.pool.pos (omega arith) (omega arith)
          (Ready-le 48 (omega arith) ready))
        (λ e st1 ready1 ext t.
          finish_math _ e _ (register_tree (field instr 5 9)) _ _ _ _ _ st1 st.pool.pos
            (omega arith) ready1
            (value_expression-register st1.pool st.pool.pos (field instr 5 9) (omega arith)) t))
