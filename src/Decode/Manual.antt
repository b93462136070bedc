-- ===== src/Decode/Manual.antt =====
-- What the manual says that data processing instructions compute, bit by bit: the registers that
-- they read, the four shifts of a register, and the bitwise operations.
use koshka.Base.{ℕ, ◌+◌, ◌-◌, ◌*◌, ◌%◌, ◌^◌, ◌==◌, ltb, if◌then◌else◌, Bool, min, max}
use koshka.Base.Digit.{digit}
use koshka.Bitmanip.Region.{field}
use koshka.ArmAsl.Masks.{wave}
use koshka.Decode.Meaning.{bit}

-- The width of the operation is in bit 31.
abbrev pub width : ℕ → ℕ
width v = if bit v 31 then 64 else 32

-- Bit `j` of X[n]; register 31 reads as zero.
abbrev pub register_bit : (ℕ → ℕ) → ℕ → ℕ → ℕ
register_bit regs n j = if n == 31 then 0 else digit (regs n) j

-- ShiftReg: bit `j` of a word of `w` bits after LSL, LSR, ASR or ROR by `n`.
abbrev pub shifted_bit : ℕ → ℕ → ℕ → (ℕ → ℕ) → ℕ → ℕ
shifted_bit w shift_type n x j =
    if shift_type == 0
    then (if ltb j n then 0 else x (j - n))
    else if shift_type == 1
    then (if ltb (n + j) w then x (n + j) else 0)
    else if shift_type == 2
    then (if ltb (n + j) w then x (n + j) else x (w - 1))
    else x ((n + j) % w)

-- AND, ORR, EOR and ANDS.
abbrev pub logical_bit : ℕ → ℕ → ℕ → ℕ
logical_bit opc x y = if opc == 1 then max x y else if opc == 2 then (x + y) % 2 else min x y

-- The second operand is inverted where N is set.
abbrev pub inverted_bit : Bool → ℕ → ℕ
inverted_bit n x = if n then 1 - x else x

-- X[n] as a word of `w` bits.
abbrev pub register : ℕ → (ℕ → ℕ) → ℕ → ℕ
register w regs n = if n == 31 then 0 else regs n % 2 ^ w

-- Addition, or subtraction where `subtract` is set. In the manual that is where bit 30 is set.
abbrev pub add_or_subtract : ℕ → Bool → ℕ → ℕ → ℕ
add_or_subtract w subtract a b = if subtract then (a + (2 ^ w - b)) % 2 ^ w else (a + b) % 2 ^ w

-- The immediate of an addition or subtraction, shifted by 12 where the shift field is 1.
abbrev pub addsub_immediate : ℕ → ℕ
addsub_immediate v = if field v 22 23 == 1 then field v 10 21 * 2 ^ 12 else field v 10 21

-- The second operand of the instructions on shifted registers.
abbrev pub shifted_register_bit : ℕ → (ℕ → ℕ) → ℕ → ℕ
shifted_register_bit v regs =
    shifted_bit (width v) (field v 22 23) (field v 10 15) (register_bit regs (field v 16 20))

-- AND, BIC, ORR, ORN, EOR, EON, ANDS and BICS of a register and a shifted register.
abbrev pub logical_shift_bit : ℕ → (ℕ → ℕ) → ℕ → ℕ
logical_shift_bit v regs j =
    logical_bit (field v 29 30) (register_bit regs (field v 5 9) j)
      (inverted_bit (bit v 21) (shifted_register_bit v regs j))

-- AND, ORR, EOR and ANDS of a register and a constant of these bits.
abbrev pub logical_imm_bit : ℕ → (ℕ → ℕ) → (ℕ → ℕ) → ℕ → ℕ
logical_imm_bit v regs constant j =
    logical_bit (field v 29 30) (register_bit regs (field v 5 9) j) (constant j)

-- The bitmask of the fields, whose element has `2 ^ len` bits.
abbrev pub bitmask_bit : ℕ → ℕ → ℕ → ℕ
bitmask_bit v len j = wave (2 ^ len) (field v 10 15 % 2 ^ len) (field v 16 21 % 2 ^ len) j
