-- ===== src/Iml/Bits.antt =====
-- The bits of the values of expression trees.
use koshka.Base.{ℕ, ◌+◌, ◌-◌, ◌*◌, ◌/◌, ◌%◌, ◌^◌, ◌<◌, ◌≤◌, ◌==◌, ◌≡◌, refl, ap, sym, ◌∙◌, arith}
use koshka.Base.{ltb, if◌then◌else◌, min, max, bit_and, bit_or, bit_xor, Bool-cases, inl, inr}
use native.Mathlib.Nat.{mod-eq_of_lt, add-mod_right}
use koshka.Base.{ltb→lt, ltb_false→le}
use koshka.Base.Digit.{digit, digit-bit_and, digit-bit_or, digit-bit_xor, digit-le-one, digit-zero}
use koshka.Base.Digit.Shift.{digit-shl, digit-shr, digit-mod, digit-ones}

-- A word of `w` bits, the lowest first.
pub record HasBits (w x : ℕ) (bits : ℕ → ℕ) : Type 0 where
  pub below : (j : ℕ) → j < w → digit x j ≡ bits j
  pub above : (j : ℕ) → w ≤ j → digit x j ≡ 0

pub mod-HasBits : (w x : ℕ) → HasBits w (x % 2 ^ w) (digit x)
mod-HasBits w x = record {
  below = λ j h. ground (arith, digit-mod x w j);
  above = λ j h. ground (arith, digit-mod x w j);
}

pub small-HasBits : (w k x : ℕ) → x < 2 ^ k → k ≤ w → HasBits w x (digit x)
small-HasBits w k x h small = record {
  below = λ j l. refl;
  above = λ j l. ap (λ t. digit t j) (sym (mod-eq_of_lt h)) ∙ ground (arith, digit-mod x k j);
}

module _ {w a b : ℕ} {f g : ℕ → ℕ} (ha : HasBits w a f) (hb : HasBits w b g) where
  pub and-HasBits : HasBits w (bit_and a b) (λ j. min (f j) (g j))
  and-HasBits = record {
    below = λ j h. omega (arith, digit-bit_and a b j, ha.below j h, hb.below j h);
    above = λ j h. omega (arith, digit-bit_and a b j, ha.above j h, hb.above j h);
  }

  pub or-HasBits : HasBits w (bit_or a b) (λ j. max (f j) (g j))
  or-HasBits = record {
    below = λ j h. omega (arith, digit-bit_or a b j, ha.below j h, hb.below j h);
    above = λ j h. omega (arith, digit-bit_or a b j, ha.above j h, hb.above j h);
  }

  pub xor-HasBits : HasBits w (bit_xor a b) (λ j. (f j + g j) % 2)
  xor-HasBits = record {
    below = λ j h. omega (arith, digit-bit_xor a b j, ha.below j h, hb.below j h);
    above = λ j h. omega (arith, digit-bit_xor a b j, ha.above j h, hb.above j h);
  }

-- `n` ones at the top of a word.
digit-fill :
    (w n j : ℕ)
    → digit ((2 ^ n - 1) * 2 ^ (w - n)) j
      ≡ (if ltb j (w - n) then 0 else if ltb (j - (w - n)) n then 1 else 0)
digit-fill w n j = ground (arith, digit-shl (2 ^ n - 1) (w - n) j, digit-ones n (j - (w - n)))

around_end : (w n j : ℕ) → n < w → j < w → w ≤ n + j → (n + j) % w ≡ j - (w - n)
around_end w n j h k past =
    ap (λ t. t % w) {y = (j - (w - n)) + w} (omega arith)
    ∙ add-mod_right (j - (w - n)) w
    ∙ mod-eq_of_lt (omega arith)

module _ {w a : ℕ} {f : ℕ → ℕ} (ha : HasBits w a f) where
  pub complement-HasBits : HasBits w (bit_xor a (2 ^ w - 1)) (λ j. 1 - f j)
  complement-HasBits = record {
    below = λ j h.
        ground
          (arith, digit-bit_xor a (2 ^ w - 1) j, ha.below j h, digit-ones w j, digit-le-one a j);
    above = λ j h. ground (arith, digit-bit_xor a (2 ^ w - 1) j, ha.above j h, digit-ones w j);
  }

  pub lsl-HasBits : (n : ℕ) → HasBits w (a * 2 ^ n % 2 ^ w) (λ j. if ltb j n then 0 else f (j - n))
  lsl-HasBits n = record {
    below = λ j h. ground (arith, digit-mod (a * 2 ^ n) w j, digit-shl a n j, ha.below (j - n));
    above = λ j h. ground (arith, digit-mod (a * 2 ^ n) w j);
  }

  pub lsr-HasBits : (n : ℕ) → HasBits w (a / 2 ^ n) (λ j. if ltb (n + j) w then f (n + j) else 0)
  lsr-HasBits n = record {
    below = λ j h. ground (arith, digit-shr a n j, ha.below (n + j), ha.above (n + j));
    above = λ j h. ground (arith, digit-shr a n j, ha.above (n + j));
  }

  pub asr-HasBits :
      (n : ℕ)
      → n < w
      → HasBits w
          (bit_or (a / 2 ^ n) (if digit a (w - 1) == 0 then 0 else (2 ^ n - 1) * 2 ^ (w - n)))
          (λ j. if ltb (n + j) w then f (n + j) else f (w - 1))
  asr-HasBits n h = elim (Bool-cases (digit a (w - 1) == 0)) [
    | inl positive ↦ rw positive (record {
      below = λ j k. ground (
        arith,
        digit-bit_or (a / 2 ^ n) 0 j,
        digit-zero j,
        digit-shr a n j,
        ha.below (n + j),
        ha.above (n + j),
        ha.below (w - 1),
      );
      above = λ j k.
          ground
            (arith, digit-bit_or (a / 2 ^ n) 0 j, digit-zero j, digit-shr a n j, ha.above (n + j));
    })
    | inr negative ↦ rw negative (record {
      below = λ j k. ground (
        arith,
        digit-bit_or (a / 2 ^ n) ((2 ^ n - 1) * 2 ^ (w - n)) j,
        digit-fill w n j,
        digit-shr a n j,
        ha.below (n + j),
        ha.above (n + j),
        ha.below (w - 1),
        digit-le-one a (w - 1),
      );
      above = λ j k. ground (
        arith,
        digit-bit_or (a / 2 ^ n) ((2 ^ n - 1) * 2 ^ (w - n)) j,
        digit-fill w n j,
        digit-shr a n j,
        ha.above (n + j),
      );
    })
  ]

  pub ror-HasBits :
      (n : ℕ)
      → n < w
      → HasBits w (bit_or (a / 2 ^ n) (a * 2 ^ (w - n) % 2 ^ w)) (λ j. f ((n + j) % w))
  ror-HasBits n h = record {
    below = λ j k.
        digit-bit_or (a / 2 ^ n) (a * 2 ^ (w - n) % 2 ^ w) j ∙ elim (Bool-cases (ltb (n + j) w)) [
          | inl inside ↦ rw (mod-eq_of_lt (ltb→lt (n + j) w inside)) (
              ground (
                arith,
                digit-shr a n j,
                ha.below (n + j),
                digit-mod (a * 2 ^ (w - n)) w j,
                digit-shl a (w - n) j,
              ))
          | inr around ↦ rw (around_end w n j h k (ltb_false→le (n + j) w around)) (
              ground (
                arith,
                digit-shr a n j,
                ha.above (n + j),
                digit-mod (a * 2 ^ (w - n)) w j,
                digit-shl a (w - n) j,
                ha.below (j - (w - n)),
              ))
        ];
    above = λ j k. ground (
      arith,
      digit-bit_or (a / 2 ^ n) (a * 2 ^ (w - n) % 2 ^ w) j,
      digit-shr a n j,
      ha.above (n + j),
      digit-mod (a * 2 ^ (w - n)) w j,
    );
  }
