-- ===== src/Bitmanip/Flag.antt =====
-- HAS_BIT_FLAG of src/bitmanip.h on a flag of one bit.
use koshka.Base.{ℕ, ◌+◌, ◌-◌, ◌*◌, ◌/◌, ◌%◌, ◌^◌, ◌≤◌, ◌==◌, ◌≡◌, ap, arith, not, bit_and}
use native.Mathlib.Nat.{one-le-pow}
use koshka.Base.Digit.{digit, digit_ext, digit-bit_and, digit-le-one}
use koshka.Base.Digit.Shift.{digit-shl, digit-shr, digit-mod, digit-ones}
use koshka.Bitmanip.{has_bit_flag}

digit_at : (v k p : ℕ) → k ≤ p → digit v (k + (p - k)) ≡ digit v p
digit_at v k p h = ap (digit v) {x = k + (p - k)} {y = p} (omega arith)

bit_and-flag : (v k : ℕ) → bit_and v (2 ^ k) ≡ v / 2 ^ k % 2 * 2 ^ k
bit_and-flag v k = digit_ext _ _ λ p. ground (
  arith,
  digit-bit_and v (2 ^ k) p,
  ap (λ t. digit t p) {x = 1 * 2 ^ k} {y = 2 ^ k} (omega arith),
  digit-shl 1 k p,
  digit-shl (v / 2 ^ k % 2) k p,
  digit-ones 1 (p - k),
  digit-mod (v / 2 ^ k) 1 (p - k),
  digit-shr v k (p - k),
  digit-le-one v p,
  digit_at v k p,
)

-- The flag with the value 2^k is bit k.
pub has_bit_flag_lem : (v k : ℕ) → has_bit_flag v (2 ^ k) ≡ not (v / 2 ^ k % 2 == 0)
unfolding has_bit_flag
has_bit_flag_lem v k = rw (bit_and-flag v k) (ground (arith, one-le-pow k 2))
