-- ===== src/Decode/Fields.antt =====
-- What the decoders read from the fields of a word, and from their tables.
use native.Mathlib.Nat.{mod-eq_of_lt, mod-lt, pow-le-pow_right, one-le-pow}
use koshka.Base.{ℕ, ◌+◌, ◌-◌, ◌/◌, ◌%◌, ◌^◌, ◌≤◌, ◌<◌, ◌==◌, ◌≡◌, refl, ap, ◌∙◌, arith}
use koshka.Base.{zero, suc, true, not, u8}
use koshka.Bitmanip.{get_single_bit}
use koshka.Bitmanip.Region.{field, get_bit_region-u32, get_single_bit_lem}
use koshka.Iml.Types.{bitwise_op_table, shift_type_table, math_op_index}
use koshka.Decode.Immediates.{byte_field}
use koshka.Decode.Immediates.{table_at}
use koshka.Base.Result.{ok}
use koshka.Decode.Meaning.{bitwise_op}
use koshka.Decode.Meaning.{shift_op}

pub byte_field_lem :
    (instr lo hi : ℕ)
    → lo ≤ hi
    → hi < 32
    → hi + 1 - lo ≤ 8
    → byte_field instr lo hi ≡ field instr lo hi
byte_field_lem instr lo hi h k w =
    ap u8 (get_bit_region-u32 instr lo hi h k)
    ∙ mod-eq_of_lt (
        omega (
          arith,
          mod-lt (instr / 2 ^ lo) (one-le-pow (hi + 1 - lo) 2 (omega arith)),
          pow-le-pow_right {n = 2} (omega arith) w,
        ))

pub u8_bit : (instr k : ℕ) → u8 (get_single_bit instr k) ≡ instr / 2 ^ k % 2
u8_bit instr k = omega (arith, get_single_bit_lem instr k)

pub bitwise_table : (t : ℕ) → t < 4 → table_at bitwise_op_table t ≡ ok (bitwise_op t)
bitwise_table zero h = refl
bitwise_table (suc zero) h = refl
bitwise_table (suc (suc zero)) h = refl
bitwise_table (suc (suc (suc zero))) h = refl
bitwise_table (suc (suc (suc (suc t)))) h = absurd (omega arith)

pub shift_table : (t : ℕ) → t < 4 → table_at shift_type_table t ≡ ok (shift_op t)
shift_table zero h = refl
shift_table (suc zero) h = refl
shift_table (suc (suc zero)) h = refl
shift_table (suc (suc (suc zero))) h = refl
shift_table (suc (suc (suc (suc t)))) h = absurd (omega arith)

pub shift_op-ne : (t : ℕ) → not (math_op_index (shift_op t) == 3) ≡ true
shift_op-ne t = ground arith
