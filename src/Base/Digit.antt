-- ===== src/Base/Digit.antt =====
-- The binary digits of a number, lowest first, and what `&`, `|` and the shifts do to each.
pub mod Shift
use Prim.Native.Nat.{ℕ, zero, suc, ◌+◌, ◌/◌, ◌%◌, ◌≤◌, min, max}
use Prim.Native.Nat.{bit_and, bit_or, bit_xor, differ, digits, bit_and-bitwise, bit_or-bitwise}
use Prim.Native.Nat.{bit_xor-bitwise}
use mathlib.Core.Path.{◌≡◌, refl, ap, sym, ◌∙◌}
use native.Mathlib.Omega.{arith}

-- Digit `p` of `a`.
abbrev pub digit : ℕ → ℕ → ℕ
digit a zero = a % 2
digit a (suc p) = digit (a / 2) p

pub digit-le-one : (a p : ℕ) → digit a p ≤ 1
digit-le-one a zero = omega arith
digit-le-one a (suc p) = digit-le-one (a / 2) p

pub digit-zero : (p : ℕ) → digit 0 p ≡ 0
digit-zero zero = refl
digit-zero (suc p) = digit-zero p

module _ (f : ℕ → ℕ → ℕ) (z : ℕ → ℕ) where
  -- The native operations are `digits` with enough fuel.
  digit-digits :
      ((a b : ℕ) → f (a % 2) (b % 2) ≤ 1)
      → ((b p : ℕ) → digit (z b) p ≡ f 0 (digit b p))
      → (n a b p : ℕ) → a ≤ n
      → digit (digits z f n a b) p ≡ f (digit a p) (digit b p)
  digit-digits small out zero zero b p h = out b p ∙ ap (λ t. f t (digit b p)) (sym (digit-zero p))
  digit-digits small out zero (suc a) b p h = absurd (omega arith)
  digit-digits small out (suc n) zero b p h =
      out b p ∙ ap (λ t. f t (digit b p)) (sym (digit-zero p))
  digit-digits small out (suc n) (suc a) b zero h = omega (arith, small (suc a) b)
  digit-digits small out (suc n) (suc a) b (suc p) h =
      ap (λ t. digit t p) (omega (arith, small (suc a) b))
      ∙ digit-digits small out n (suc a / 2) (b / 2) p (omega arith)

pub digit-bit_and : (a b p : ℕ) → digit (bit_and a b) p ≡ min (digit a p) (digit b p)
digit-bit_and a b p =
    ap (λ t. digit t p) (bit_and-bitwise a b)
    ∙ digit-digits min (λ b. 0) (λ a b. omega arith) (λ b p. omega (arith, digit-zero p)) a a b p
        (omega arith)

pub digit-bit_or : (a b p : ℕ) → digit (bit_or a b) p ≡ max (digit a p) (digit b p)
digit-bit_or a b p =
    ap (λ t. digit t p) (bit_or-bitwise a b)
    ∙ digit-digits max (λ b. b) (λ a b. omega arith) (λ b p. omega arith) a a b p (omega arith)

-- Numbers with the same digits are equal.
digit_ext_fuel : (n a b : ℕ) → a ≤ n → b ≤ n → ((p : ℕ) → digit a p ≡ digit b p) → a ≡ b
digit_ext_fuel zero a b ha hb same = omega arith
digit_ext_fuel (suc n) a b ha hb same = omega (
  arith,
  same 0,
  digit_ext_fuel n (a / 2) (b / 2) (omega arith) (omega arith) (λ p. same (suc p)),
)

pub digit_ext : (a b : ℕ) → ((p : ℕ) → digit a p ≡ digit b p) → a ≡ b
digit_ext a b = digit_ext_fuel (a + b) a b (omega arith) (omega arith)

differ-small : (x y : ℕ) → x ≤ 1 → y ≤ 1 → differ x y ≡ (x + y) % 2
differ-small zero y hx hy = omega arith
differ-small (suc zero) zero hx hy = refl
differ-small (suc zero) (suc zero) hx hy = refl
differ-small (suc (suc x)) y hx hy = absurd (omega arith)
differ-small (suc zero) (suc (suc y)) hx hy = absurd (omega arith)

pub digit-bit_xor : (a b p : ℕ) → digit (bit_xor a b) p ≡ (digit a p + digit b p) % 2
digit-bit_xor a b p =
    ap (λ t. digit t p) (bit_xor-bitwise a b)
    ∙ digit-digits differ (λ b. b) (λ a b. omega (arith, differ-small (a % 2) (b % 2)))
        (λ b p. omega arith) a a b p (omega arith)
    ∙ differ-small (digit a p) (digit b p) (digit-le-one a p) (digit-le-one b p)
