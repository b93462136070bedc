-- ===== src/Decode/Values.antt =====
-- The trees that the decoders build have the values that the manual gives.
use koshka.Base.{ℕ, ◌*◌, ◌/◌, ◌%◌, ◌^◌, ◌<◌, ◌==◌, ◌≡◌, refl, ap, sym, ◌∙◌, arith}
use koshka.Base.{if◌then◌else◌, Bool, true, false, Bool-cases, inl, inr, some, ==_iff}
use native.Mathlib.Nat.{mod-eq_of_lt}
use koshka.Base.Digit.{digit-zero}
use koshka.Bitmanip.Region.{field}
use koshka.Iml.Types.{MathOp}
use koshka.Iml.Trees.{Tree, register_tree}
use koshka.Iml.Values.{value}
use koshka.Iml.Bits.{HasBits, mod-HasBits, and-HasBits, or-HasBits, xor-HasBits, complement-HasBits}
use koshka.Iml.Bits.{lsl-HasBits, lsr-HasBits, asr-HasBits, ror-HasBits}
use koshka.Decode.Meaning.{shift_op, bitwise_op, shifted_tree}
use koshka.Decode.Words.{ShiftFits}
use koshka.Decode.Manual.{width, register_bit, shifted_bit, logical_bit, inverted_bit}

-- The tree has a value of `w` bits.
pub record Evaluates (w : ℕ) (regs : ℕ → ℕ) (t : Tree) (bits : ℕ → ℕ) : Type 0 where
  pub result : ℕ
  pub has_value : value w regs t ≡ some result
  pub has_bits : HasBits w result bits

Evaluates-ext :
    {w : ℕ} {regs : ℕ → ℕ} {t : Tree} {f : ℕ → ℕ} (g : ℕ → ℕ)
    → ((j : ℕ) → j < w → f j ≡ g j)
    → Evaluates w regs t f
    → Evaluates w regs t g
Evaluates-ext g same e = record {
  result = e.result;
  has_value = e.has_value;
  has_bits = record { below = λ j h. e.has_bits.below j h ∙ same j h; above = e.has_bits.above };
}

pub register_tree-Evaluates :
    (w : ℕ) (regs : ℕ → ℕ) (n : ℕ) → Evaluates w regs (register_tree n) (λ j. register_bit regs n j)
register_tree-Evaluates w regs n = elim (Bool-cases (n == 31)) [
  | inl zero ↦ rw zero (record {
    result = 0 % 2 ^ w;
    has_value = refl;
    has_bits = record {
      below = λ j h. (mod-HasBits w 0).below j h ∙ digit-zero j;
      above = (mod-HasBits w 0).above;
    };
  })
  | inr other ↦
      rw other
        (record { result = regs n % 2 ^ w; has_value = refl; has_bits = mod-HasBits w (regs n) })
]

-- A shift by a constant.
shift-Evaluates :
    {w : ℕ} {regs : ℕ → ℕ} {t : Tree} {f : ℕ → ℕ} (shift_type n : ℕ)
    → n < w
    → n < 2 ^ w
    → Evaluates w regs t f
    → Evaluates w regs
        (Tree.node (shift_op shift_type) t (Tree.imm n))
        (λ j. shifted_bit w shift_type n f j)
shift-Evaluates {w} shift_type n h k e = elim (Bool-cases (shift_type == 0)) [
  | inl left ↦ rw left (record {
    result = e.result * 2 ^ n % 2 ^ w;
    has_value = rw (e.has_value, mod-eq_of_lt k) refl;
    has_bits = lsl-HasBits e.has_bits n;
  })
  | inr a ↦ elim (Bool-cases (shift_type == 1)) [
    | inl right ↦
        rw (a, right)
          (record {
            result = e.result / 2 ^ n;
            has_value = rw (e.has_value, mod-eq_of_lt k) refl;
            has_bits = lsr-HasBits e.has_bits n;
          })
    | inr b ↦ elim (Bool-cases (shift_type == 2)) [
      | inl right ↦
          rw (a, b, right)
            (record {
              result = _;
              has_value = rw (e.has_value, mod-eq_of_lt k) refl;
              has_bits = asr-HasBits e.has_bits n h;
            })
      | inr c ↦
          rw (a, b, c)
            (record {
              result = _;
              has_value = rw (e.has_value, mod-eq_of_lt k) refl;
              has_bits = ror-HasBits e.has_bits n h;
            })
    ]
  ]
]

pub logical-Evaluates :
    {w : ℕ} {regs : ℕ → ℕ} {t u : Tree} {f g : ℕ → ℕ} (opc : ℕ)
    → Evaluates w regs t f
    → Evaluates w regs u g
    → Evaluates w regs (Tree.node (bitwise_op opc) t u) (λ j. logical_bit opc (f j) (g j))
logical-Evaluates opc e d = elim (Bool-cases (opc == 1)) [
  | inl or ↦ rw or (record {
    result = _;
    has_value = rw (e.has_value, d.has_value) refl;
    has_bits = or-HasBits e.has_bits d.has_bits;
  })
  | inr a ↦ elim (Bool-cases (opc == 2)) [
    | inl xor ↦
        rw (a, xor)
          (record {
            result = _;
            has_value = rw (e.has_value, d.has_value) refl;
            has_bits = xor-HasBits e.has_bits d.has_bits;
          })
    | inr b ↦
        rw (a, b)
          (record {
            result = _;
            has_value = rw (e.has_value, d.has_value) refl;
            has_bits = and-HasBits e.has_bits d.has_bits;
          })
  ]
]

pub inverted-Evaluates :
    {w : ℕ} {regs : ℕ → ℕ} {t : Tree} {f : ℕ → ℕ} (n : Bool)
    → Evaluates w regs t f
    → Evaluates w regs
        (if n then Tree.node MathOp.neg t Tree.empty else t)
        (λ j. inverted_bit n (f j))
inverted-Evaluates false e = e
inverted-Evaluates true e = record {
  result = _;
  has_value = rw e.has_value refl;
  has_bits = complement-HasBits e.has_bits;
}

shifted_bit-none : (w shift_type j : ℕ) (f : ℕ → ℕ) → j < w → f j ≡ shifted_bit w shift_type 0 f j
shifted_bit-none w shift_type j f h = ground (arith, ap f (mod-eq_of_lt h))

-- The second operand of the instructions on shifted registers.
pub shifted_tree-Evaluates :
    (v : ℕ) (regs : ℕ → ℕ)
    → ShiftFits v
    → Evaluates
        (width v)
        regs
        (shifted_tree v)
        (shifted_bit (width v) (field v 22 23) (field v 10 15) (register_bit regs (field v 16 20)))
shifted_tree-Evaluates v regs fits = elim (Bool-cases (field v 10 15 == 0)) [
  | inl none_ ↦ rw none_ (
      Evaluates-ext _
        (λ j h.
          shifted_bit-none (width v) (field v 22 23) j (register_bit regs (field v 16 20)) h
          ∙ ap (λ n. shifted_bit (width v) (field v 22 23) n (register_bit regs (field v 16 20)) j)
              (sym ((==_iff (field v 10 15) 0).0 none_)))
        (register_tree-Evaluates (width v) regs (field v 16 20)))
  | inr some_ ↦ rw some_ (
      shift-Evaluates (field v 22 23) (field v 10 15) (ground arith) (ground arith)
        (register_tree-Evaluates (width v) regs (field v 16 20)))
]
