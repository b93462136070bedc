-- ===== src/Bitmanip/Region.antt =====
-- What the macros of src/bitmanip.h compute, as arithmetic.
use koshka.Base.{
  ◌==◌, ==_iff, every_below, every_below-at, refl, true, ℕ, suc, ◌+◌, ◌-◌, ◌/◌, ◌%◌, ◌^◌, ◌≤◌, ◌<◌,
  bit_and,
}
use koshka.Base.{◌≡◌, ap, ◌∙◌, arith}
use koshka.Base.Digit.{digit_ext}
use koshka.Base.Digit.Shift.{bit_and-ones, digit-shr, digit-ones, digit-mod}
use koshka.Bitmanip.{uint8, uint32, max_val_for_size, shift_int}
use koshka.Bitmanip.{get_bit_region, get_single_bit}

-- Shifting `k` of `k + n` ones out leaves `n` ones.
ones_shr : (k n : ℕ) → (2 ^ (k + n) - 1) / 2 ^ k ≡ 2 ^ n - 1
ones_shr k n =
    digit_ext _ _ λ p.
      ground (arith, digit-shr (2 ^ (k + n) - 1) k p, digit-ones (k + n) (k + p), digit-ones n p)

-- The `n` low ones of a word of `w` bits, as the code shifts them down.
ones_shr_at : (w n : ℕ) → n ≤ w → (2 ^ w - 1) / 2 ^ (w - n) ≡ 2 ^ n - 1
ones_shr_at w n h =
    ap (λ t. (2 ^ t - 1) / 2 ^ (w - n)) {y = w - n + n} (omega arith) ∙ ones_shr (w - n) n

pub max_val_for_size_lem : (bits : ℕ) → bits ≤ 64 → max_val_for_size bits ≡ 2 ^ bits - 1
unfolding max_val_for_size
max_val_for_size_lem bits h = ones_shr_at 64 bits h

-- Truncating above and then shifting below cuts the field out.
mod_shr : (a lo n : ℕ) → a % 2 ^ (lo + n) / 2 ^ lo ≡ a / 2 ^ lo % 2 ^ n
mod_shr a lo n = digit_ext _ _ λ p. ground (
  arith,
  digit-shr (a % 2 ^ (lo + n)) lo p,
  digit-mod a (lo + n) (lo + p),
  digit-mod (a / 2 ^ lo) n p,
  digit-shr a lo p,
)

-- The field of the bits from `lo` to `hi`.
abbrev pub field : ℕ → ℕ → ℕ → ℕ
field val lo hi = val / 2 ^ lo % 2 ^ (hi + 1 - lo)

pub get_bit_region-u32 :
    (val lo hi : ℕ) → lo ≤ hi → hi < 32 → get_bit_region uint32 val lo hi ≡ field val lo hi
unfolding get_bit_region
get_bit_region-u32 val lo hi h k =
    ap (λ t. bit_and val ((2 ^ 32 - 1) / 2 ^ t) / 2 ^ lo) {y = 32 - suc hi} (omega arith)
    ∙ ap (λ t. bit_and val t / 2 ^ lo) (ones_shr_at 32 (suc hi) k)
    ∙ ap (λ t. t / 2 ^ lo) (bit_and-ones val (suc hi))
    ∙ ap (λ t. val % 2 ^ t / 2 ^ lo) {y = lo + (hi + 1 - lo)} (omega arith)
    ∙ mod_shr val lo (hi + 1 - lo)

pub get_single_bit_lem : (val bit : ℕ) → get_single_bit val bit ≡ val / 2 ^ bit % 2
unfolding get_single_bit
get_single_bit_lem val bit = bit_and-ones (val / 2 ^ bit) 1

-- The `int` -1 keeps every bit under a shift.
shift_int_table : every_below 8 (λ n. shift_int (2 ^ 32 - 1) n == 2 ^ 32 - 1) ≡ true
unfolding every_below
shift_int_table = refl

shift_int-ones : (n : ℕ) → n < 8 → shift_int (2 ^ 32 - 1) n ≡ 2 ^ 32 - 1
shift_int-ones n h =
    (==_iff _ _).0
      (every_below-at 8 (λ n. shift_int (2 ^ 32 - 1) n == 2 ^ 32 - 1) n shift_int_table h)

-- On an 8-bit value, for a low position up to the high one and a high one below 8, GET_BIT_REGION
-- masks nothing, since the mask is -1 of an int, shifted with its sign: the bits above the high
-- position stay.
pub get_bit_region-u8 :
    (val lo hi : ℕ) → val < 2 ^ 8 → lo ≤ hi → hi < 8 → get_bit_region uint8 val lo hi ≡ val / 2 ^ lo
unfolding get_bit_region
get_bit_region-u8 val lo hi h below small =
    ap (λ t. bit_and val t / 2 ^ lo) (shift_int-ones (8 - hi - 1) (omega arith))
    ∙ ap (λ t. t / 2 ^ lo) (bit_and-ones val 32)
    ∙ ap (λ t. t / 2 ^ lo) {y = val} (omega arith)
