-- ===== src/Base/Digit/Shift.antt =====
-- The digits of shifted, masked and truncated numbers, and the masks that the code builds.
use Prim.Native.Nat.{ℕ, zero, suc, ◌+◌, ◌-◌, ◌*◌, ◌/◌, ◌%◌, ◌^◌, ◌<◌}
use Prim.Native.Nat.{bit_and}
use mathlib.Core.Path.{◌≡◌, ap, sym, ◌∙◌}
use native.Mathlib.Nat.{pow-suc, one-le-pow, div-div-eq-div-mul, add-zero}
use native.Mathlib.Omega.{arith}
use koshka.Base.Tests.{ltb, if◌then◌else◌}
use koshka.Base.Digit.{digit, digit-zero, digit_ext, digit-bit_and, digit-le-one}

two_pow_suc : (k : ℕ) → 2 ^ suc k ≡ 2 * 2 ^ k
two_pow_suc k = omega (arith, pow-suc 2 k)

-- `x >> k` moves every digit down by `k`.
pub digit-shr : (a k p : ℕ) → digit (a / 2 ^ k) p ≡ digit a (k + p)
digit-shr a zero p =
    ap (λ t. digit t p) {y = a} (omega arith) ∙ ap (digit a) {x = p} {y = 0 + p} (omega arith)
digit-shr a (suc k) p =
    ap (λ t. digit t p) (quotient k)
    ∙ digit-shr (a / 2) k p
    ∙ ap (digit a) {x = suc (k + p)} {y = suc k + p} (omega arith)
  where
    quotient : (k : ℕ) → a / 2 ^ suc k ≡ a / 2 / 2 ^ k
    quotient k = ap (λ t. a / t) (two_pow_suc k) ∙ sym (div-div-eq-div-mul a 2 (2 ^ k))

-- `x << k` moves every digit up by `k`.
pub digit-shl : (a k p : ℕ) → digit (a * 2 ^ k) p ≡ (if ltb p k then 0 else digit a (p - k))
digit-shl a zero p =
    ap (λ t. digit t p) {y = a} (omega arith)
    ∙ ground (arith, ap (digit a) {x = p - 0} {y = p} (omega arith))
digit-shl a (suc k) zero = ground (arith, ap (λ (t : ℕ). a * t) (two_pow_suc k))
digit-shl a (suc k) (suc p) =
    ap (λ t. digit t p) (omega (arith, ap (λ (t : ℕ). a * t) (two_pow_suc k)))
    ∙ digit-shl a k p
    ∙ ground arith

mod_halves : (a m : ℕ) → 0 < m → (a % (2 * m) / 2 ≡ a / 2 % m) × (a % (2 * m) % 2 ≡ a % 2)
mod_halves a m h = grind arith

-- A cast to `k` bits keeps the digits below `k`.
pub digit-mod : (a k p : ℕ) → digit (a % 2 ^ k) p ≡ (if ltb p k then digit a p else 0)
digit-mod a zero p = ap (λ t. digit t p) {y = 0} (omega arith) ∙ ground (arith, digit-zero p)
digit-mod a (suc k) zero = ground (
  arith,
  ap (λ (t : ℕ). a % t) (two_pow_suc k),
  (mod_halves a (2 ^ k) (one-le-pow k 2 (omega arith))).1,
)
digit-mod a (suc k) (suc p) =
    ap (λ t. digit t p)
      (ap (λ t. a % t / 2) (two_pow_suc k)
        ∙ (mod_halves a (2 ^ k) (one-le-pow k 2 (omega arith))).0)
    ∙ digit-mod (a / 2) k p
    ∙ ground arith

-- The mask of `k` ones.
pub digit-ones : (k p : ℕ) → digit (2 ^ k - 1) p ≡ (if ltb p k then 1 else 0)
digit-ones zero p = ground (arith, digit-zero p)
digit-ones (suc k) zero = ground (arith, two_pow_suc k, one-le-pow k 2)
digit-ones (suc k) (suc p) =
    ap (λ t. digit t p) (omega (arith, two_pow_suc k, one-le-pow k 2 (omega arith)))
    ∙ digit-ones k p
    ∙ ground arith

pub bit_and-ones : (a k : ℕ) → bit_and a (2 ^ k - 1) ≡ a % 2 ^ k
bit_and-ones a k = digit_ext _ _ λ p.
    ground (arith, digit-bit_and a (2 ^ k - 1) p, digit-ones k p, digit-mod a k p, digit-le-one a p)

pub digit_as_quotient : (a p : ℕ) → digit a p ≡ a / 2 ^ p % 2
digit_as_quotient a p = omega (arith, digit-shr a p 0, ap (digit a) (add-zero p))
