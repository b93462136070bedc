-- ===== src/Decode/Starved.antt =====
-- `decode` on a pool without a buffer.
use koshka.Bitmanip.{uint32, get_bit_region, get_single_bit}
use koshka.ArmAsl.{decode_bit_masks}
use koshka.Iml.Types.{bitwise_op_table, shift_type_table, math_op_index}
use koshka.Decode.Immediates.{flag, byte_field, table_at}
use koshka.Base.{Bool-cases, inl, inr}
use koshka.Base.{ℕ, ◌==◌, not, ◌||◌, Bool, true, false, u8}
use koshka.ArmEncoding.Pages.{L1Page, DataImmPage, DataRegPage}
use koshka.ArmEncoding.Tables.{instr_get_group, data_imm_get_group, data_reg_get_group}
use koshka.Pool.{Store}
use koshka.Pool.Missing.{NoBuffer}
use koshka.Iml.Types.{MathOp, Expression}
use koshka.Iml.Objects.{Cell}
use koshka.Iml.Monad.{lift, assert}
use koshka.Iml.Expressions.{node_expression}
use koshka.Iml.Starved.{Starves, pure-Starves, lift-Starves, bind-Starves}
use koshka.Iml.Starved.{node_expression-Starves}
use koshka.Decode.{decode, decode_group, decode_load_store}
use koshka.Decode.Immediates.{shifted_immediate, decode_addsub_imm, decode_logical_imm, decode_movw}
use koshka.Decode.Immediates.{decode_data_imm, decode_data_imm_page}
use koshka.Decode.Registers.{shifted_register, negated, decode_data_reg_logical_shift}
use koshka.Decode.Registers.{decode_data_reg_addsub_shift, decode_data_reg, decode_data_reg_page}

shifted_immediate-Starves :
    (shift imm : ℕ) (st : Store Cell) → NoBuffer st.pool → Starves (shifted_immediate shift imm st)
unfolding shifted_immediate
shifted_immediate-Starves shift imm st n = elim (Bool-cases (shift == 1)) [
  | inl yes_ ↦ rw yes_ (node_expression-Starves _ _ MathOp.lsl false st n)
  | inr no_ ↦ rw no_ (pure-Starves _ st n)
]

addsub_imm-Starves : (v : ℕ) (st : Store Cell) → NoBuffer st.pool → Starves (decode_addsub_imm v st)
unfolding decode_addsub_imm
addsub_imm-Starves v st n =
    bind-Starves (shifted_immediate _ _) _ st (shifted_immediate-Starves _ _ st n) (λ e st1 n1.
      bind-Starves (node_expression _ _ e false) _ st1 (node_expression-Starves _ _ _ _ st1 n1)
        (λ t st2 n2. pure-Starves _ st2 n2))

logical_imm-Starves :
    (v : ℕ) (st : Store Cell) → NoBuffer st.pool → Starves (decode_logical_imm v st)
unfolding decode_logical_imm
logical_imm-Starves v st n =
    bind-Starves (assert (flag v 31 || u8 (get_single_bit v 22) == 0)) _ st (lift-Starves _ st n)
      (λ a st1 n1.
        bind-Starves
          (lift (
            decode_bit_masks (not (u8 (get_single_bit v 22) == 0))
              (u8 (get_bit_region uint32 v 10 15)) (u8 (get_bit_region uint32 v 16 21))))
          _ st1 (lift-Starves _ st1 n1)
          (λ mask st2 n2.
            bind-Starves (lift (table_at bitwise_op_table (byte_field v 29 30))) _ st2
              (lift-Starves _ st2 n2)
              (λ op st3 n3.
                bind-Starves (node_expression _ op _ false) _ st3
                  (node_expression-Starves _ _ _ _ st3 n3) (λ t st4 n4. pure-Starves _ st4 n4))))

shifted_register-Starves :
    (rm : ℕ) (op : MathOp) (len : ℕ) (st : Store Cell)
    → NoBuffer st.pool
    → Starves (shifted_register rm op len st)
unfolding shifted_register
shifted_register-Starves rm op len st n = elim (Bool-cases (len == 0)) [
  | inl none_ ↦ rw none_ (pure-Starves _ st n)
  | inr some_ ↦ rw some_ (node_expression-Starves _ _ op false st n)
]

negated-Starves :
    (negate : Bool) (e : Expression) (st : Store Cell)
    → NoBuffer st.pool
    → Starves (negated negate e st)
unfolding negated
negated-Starves true e st n = node_expression-Starves _ _ MathOp.neg false st n
negated-Starves false e st n = pure-Starves e st n

logical_shift-Starves :
    (v : ℕ) (st : Store Cell) → NoBuffer st.pool → Starves (decode_data_reg_logical_shift v st)
unfolding decode_data_reg_logical_shift
logical_shift-Starves v st n =
    bind-Starves (lift (table_at shift_type_table (byte_field v 22 23))) _ st (lift-Starves _ st n)
      (λ shift st1 n1.
        bind-Starves (lift (table_at bitwise_op_table (byte_field v 29 30))) _ st1
          (lift-Starves _ st1 n1)
          (λ op st2 n2.
            bind-Starves (assert (flag v 31 || get_single_bit (byte_field v 10 15) 5 == 0)) _ st2
              (lift-Starves _ st2 n2)
              (λ a st3 n3.
                bind-Starves (shifted_register _ shift _) _ st3
                  (shifted_register-Starves _ shift _ st3 n3)
                  (λ e st4 n4.
                    bind-Starves (negated _ e) _ st4 (negated-Starves _ e st4 n4) (λ e' st5 n5.
                      bind-Starves (node_expression _ op e' false) _ st5
                        (node_expression-Starves _ _ _ _ st5 n5)
                        (λ t st6 n6. pure-Starves _ st6 n6))))))

addsub_shift-Starves :
    (v : ℕ) (st : Store Cell) → NoBuffer st.pool → Starves (decode_data_reg_addsub_shift v st)
unfolding decode_data_reg_addsub_shift
addsub_shift-Starves v st n =
    bind-Starves (lift (table_at shift_type_table (byte_field v 22 23))) _ st (lift-Starves _ st n)
      (λ shift st1 n1.
        bind-Starves (assert (not (math_op_index shift == 3))) _ st1 (lift-Starves _ st1 n1)
          (λ a st2 n2.
            bind-Starves (assert (flag v 31 || get_single_bit (byte_field v 10 15) 5 == 0)) _ st2
              (lift-Starves _ st2 n2)
              (λ b st3 n3.
                bind-Starves (shifted_register _ shift _) _ st3
                  (shifted_register-Starves _ shift _ st3 n3)
                  (λ e st4 n4.
                    bind-Starves (node_expression _ _ e false) _ st4
                      (node_expression-Starves _ _ _ _ st4 n4)
                      (λ t st5 n5. pure-Starves _ st5 n5)))))

imm_page-Starves :
    (page : DataImmPage) (v : ℕ) (st : Store Cell)
    → NoBuffer st.pool
    → Starves (decode_data_imm_page page v st)
unfolding decode_data_imm_page decode_movw
imm_page-Starves DataImmPage.mov_wide v st n = pure-Starves _ st n
imm_page-Starves DataImmPage.addsub_imm v st n = addsub_imm-Starves v st n
imm_page-Starves DataImmPage.logical_imm v st n = logical_imm-Starves v st n
imm_page-Starves other v st n = pure-Starves _ st n

reg_page-Starves :
    (page : DataRegPage) (v : ℕ) (st : Store Cell)
    → NoBuffer st.pool
    → Starves (decode_data_reg_page page v st)
unfolding decode_data_reg_page
reg_page-Starves DataRegPage.logical_shift v st n = logical_shift-Starves v st n
reg_page-Starves DataRegPage.addsub_shift v st n = addsub_shift-Starves v st n
reg_page-Starves other v st n = pure-Starves _ st n

group-Starves :
    (group : L1Page) (v : ℕ) (st : Store Cell)
    → NoBuffer st.pool
    → Starves (decode_group group v st)
unfolding decode_group decode_data_imm decode_data_reg decode_load_store
group-Starves L1Page.branch v st n = pure-Starves _ st n
group-Starves L1Page.data_imm v st n = imm_page-Starves (data_imm_get_group v) v st n
group-Starves L1Page.data_reg v st n = reg_page-Starves (data_reg_get_group v) v st n
group-Starves other v st n = pure-Starves _ st n

-- From a pool without a buffer `decode` faults, or leaves the pool without one.
pub decode-Starves : (v : ℕ) (st : Store Cell) → NoBuffer st.pool → Starves (decode v st)
unfolding decode
decode-Starves v st n =
    bind-Starves (assert (not (v == 0))) _ st (lift-Starves _ st n)
      (λ a st1 n1. group-Starves (instr_get_group v) v st1 n1)
