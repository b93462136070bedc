-- ===== src/Examples/Decoding.antt =====
-- src/imlgen/decode.cxx at instruction words of test/base.s, into a pool of 96 bytes.
use koshka.Base.{◌/◌, ◌%◌, ◌^◌, ◌<◌}
use koshka.ArmAsl.Masks.{wave, decode_bit_masks_lem}
use koshka.Base.{ℕ, ◌≤◌, ◌≡◌, refl, arith, true, false, [], some, replicate}
use koshka.Base.Result.{ok}
use koshka.Bitmanip.{get_single_bit, max_val_for_size}
use koshka.ArmAsl.{decode_bit_masks, highest_bit_set, highest_from, ror, ror_step, widen}
use koshka.Pool.{Store, pool_invalid_handle}
use koshka.Iml.Types.{zero_expression, ExprBody}
use koshka.Iml.Expressions.{node_of}
use koshka.Iml.Dangling.{node_expression-dangling}
use koshka.Base.{false, none, ◌∷◌}
use koshka.Iml.Types.{MathOp, Operand}
use koshka.Iml.Objects.{Cell, blank}
use koshka.Iml.Expressions.{node_expression}
use koshka.Iml.Trees.{Tree, Represents, value_of, node_expression-Yields}
use koshka.Iml.Yields.{Ready, Yields}

abbrev pub fresh : Store Cell
fresh = record {
  pool = record { buf = some (replicate 96 blank); alloc_size = 96; pos = 0 };
  answers = [];
}

pub fresh-Ready : (n : ℕ) → n ≤ 144 → Ready fresh n
fresh-Ready n h = record {
  valid = record {
    cells = replicate 96 blank;
    present = refl;
    sized = refl;
    in_range = omega arith;
    small = omega arith;
  };
  granted = refl;
  small = omega arith;
  space = omega arith;
}

-- add x1, x2, #42
abbrev pub add_imm : ℕ
add_imm = 0x9100A841

-- and x1, x2, #0xFFFFFFFFFFFFFFFE
abbrev pub and_imm : ℕ
and_imm = 0x927FF841

-- bic x1, x2, x3, lsl 4
abbrev pub bic : ℕ
bic = 0x8A231041

-- add x1, x2, x3, lsl 4
abbrev pub add_shifted : ℕ
add_shifted = 0x8B031041

-- 63 ones, rotated right by 63.
bitmask : decode_bit_masks true 62 63 ≡ ok 0xFFFFFFFFFFFFFFFE
unfolding decode_bit_masks highest_bit_set highest_from ror ror_step widen get_single_bit
    max_val_for_size
bitmask = refl

node_expression-Yields_example :
    Yields fresh 48
      (λ p e. Represents p 0 e (Tree.node MathOp.add (Tree.reg 2) (Tree.imm 42)))
      (node_expression
        (value_of (Operand.reg 2))
        MathOp.add
        (value_of (Operand.imm 42))
        false
        fresh)
node_expression-Yields_example =
    node_expression-Yields (value_of (Operand.reg 2)) (value_of (Operand.imm 42)) MathOp.add
      (Tree.reg 2) (Tree.imm 42) fresh 0 (omega arith) (fresh-Ready 48 (omega arith))
      (Represents.reg 2) (Represents.imm 42)

-- Runs of 31 ones in elements of 32 bits, rotated right by one.
decode_bit_masks_lem_example :
    (m : ℕ) × (decode_bit_masks false 30 1 ≡ ok m)
    × (m < 2 ^ 64)
    × ((j : ℕ) → j < 64 → m / 2 ^ j % 2 ≡ wave (2 ^ 5) (30 % 2 ^ 5) (1 % 2 ^ 5) j)
decode_bit_masks_lem_example =
    decode_bit_masks_lem false 30 1 5 (omega arith) (omega arith) (record {
      positive = omega arith;
      lower = omega arith;
      upper = omega arith;
      not_ones = λ e. omega arith;
    })

-- Room for one expression and not for two.
abbrev tight : Store Cell
tight = record {
  pool = record { buf = some (replicate 48 blank); alloc_size = 48; pos = 0 };
  answers = false ∷ [];
}

node_expression-dangling_example :
    (after : Store Cell) × (node_expression zero_expression MathOp.lsl zero_expression false tight
      ≡ ok (
        record {
          is_value = none;
          body = ExprBody.expr (node_of MathOp.lsl false 0 pool_invalid_handle);
        },
        after,
      ))
node_expression-dangling_example =
    node_expression-dangling zero_expression zero_expression MathOp.lsl false tight []
      (record {
        cells = replicate 48 blank;
        present = refl;
        sized = refl;
        in_range = omega arith;
        small = omega arith;
      })
      (omega arith) (omega arith) (omega arith) refl
