-- ===== src/Iml/Values.antt =====
-- The values of expression trees: what the operations of src/imlgen/iml.hxx stand for on words of
-- `w` bits. MATH_OP_NEG is the bitwise complement, as the comments on it say.
use koshka.Base.{ℕ, ◌+◌, ◌-◌, ◌*◌, ◌/◌, ◌%◌, ◌^◌, ◌==◌, if◌then◌else◌}
use koshka.Base.{Option, none, some, bit_and, bit_or, bit_xor}
use koshka.Base.Digit.{digit}
use koshka.Iml.Types.{MathOp}
use koshka.Iml.Trees.{Tree}

-- The operations that the decoders use; the others have no value here. `a` and `b` are words, and a
-- shift is by less than `w`.
abbrev pub operate : ℕ → MathOp → ℕ → ℕ → Option ℕ
operate w MathOp.add a b = some ((a + b) % 2 ^ w)
operate w MathOp.sub a b = some ((a + (2 ^ w - b)) % 2 ^ w)
operate w MathOp.lsl a b = some (a * 2 ^ b % 2 ^ w)
operate w MathOp.lsr a b = some (a / 2 ^ b)
operate w MathOp.asr a b =
    some (bit_or (a / 2 ^ b) (if digit a (w - 1) == 0 then 0 else (2 ^ b - 1) * 2 ^ (w - b)))
operate w MathOp.ror a b = some (bit_or (a / 2 ^ b) (a * 2 ^ (w - b) % 2 ^ w))
operate w MathOp.and a b = some (bit_and a b)
operate w MathOp.or a b = some (bit_or a b)
operate w MathOp.xor a b = some (bit_xor a b)
operate w MathOp.neg a b = some (bit_xor a (2 ^ w - 1))
operate w other a b = none

abbrev operate_on : ℕ → MathOp → Option ℕ → Option ℕ → Option ℕ
operate_on w op (some a) (some b) = operate w op a b
operate_on w op a b = none

-- The value of a tree where register `n` holds `regs n`.
abbrev pub value : ℕ → (ℕ → ℕ) → Tree → Option ℕ
value w regs (Tree.reg n) = some (regs n % 2 ^ w)
value w regs (Tree.imm n) = some (n % 2 ^ w)
value w regs Tree.empty = some 0
value w regs (Tree.node op l r) = operate_on w op (value w regs l) (value w regs r)
