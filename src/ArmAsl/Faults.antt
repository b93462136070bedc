-- ===== src/ArmAsl/Faults.antt =====
-- Where `DecodeBitMasks` has no result.
use koshka.Base.{ℕ, zero, suc, ◌-◌, ◌%◌, ◌^◌, ◌≤◌, ◌<◌, ◌≡◌, ◌⊎◌, inl, inr, refl}
use koshka.Base.{arith, ltb, ◌==◌, Bool, true, lt→ltb, ap}
use koshka.Base.{Bool-cases, ltb→lt, ltb_false→le, ==_iff, ==_false}
use koshka.Base.Result.{Fault, err, undefined, assertion}
use koshka.Base.Digit.Shift.{bit_and-ones}
use koshka.Bitmanip.{max_val_for_size, get_single_bit}
use koshka.ArmAsl.{decode_bit_masks, highest_bit_set, highest_from}
use koshka.ArmAsl.Length.{code_of, length_code_lem, highest_bit_set_lem}
use koshka.ArmAsl.Masks.{HasLength, le→leb, code_small, u8_size}

-- The highest bit of a number.
bracket : (n c : ℕ) → 1 ≤ c → c < 2 ^ n → (len : ℕ) × (len < n) × (2 ^ len ≤ c) × (c < 2 ^ suc len)
bracket zero c h k = absurd (omega arith)
bracket (suc n) c h k = elim (Bool-cases (ltb c (2 ^ n))) [
  | inl below ↦
      let (len, less, lower, upper) = bracket n c h (ltb→lt c (2 ^ n) below) in
      (len, omega arith, lower, upper)
  | inr above ↦ (n, omega arith, ltb_false→le c (2 ^ n) above, k)
]

highest_bit_set-zero : highest_bit_set 0 ≡ err undefined
unfolding highest_bit_set highest_from get_single_bit
highest_bit_set-zero = refl

-- A code of zero: the search for its highest bit leaves the word.
no_code :
    (immN : Bool) (imms immr : ℕ)
    → imms < 64
    → immr < 64
    → code_of immN imms ≡ 0
    → decode_bit_masks immN imms immr ≡ err undefined
unfolding decode_bit_masks max_val_for_size
no_code immN imms immr hs hr z =
    rw
      (
        le→leb imms 63 (omega arith),
        le→leb immr 63 (omega arith),
        length_code_lem immN imms hs,
        z,
        highest_bit_set-zero,
      )
      refl

-- An element of one bit.
no_element :
    (immN : Bool) (imms immr : ℕ)
    → imms < 64
    → immr < 64
    → code_of immN imms ≡ 1
    → decode_bit_masks immN imms immr ≡ err assertion
unfolding decode_bit_masks max_val_for_size
no_element immN imms immr hs hr one =
    rw
      (
        le→leb imms 63 (omega arith),
        le→leb immr 63 (omega arith),
        length_code_lem immN imms hs,
        one,
        highest_bit_set_lem 1 0 (omega arith) (omega arith) (omega arith),
      )
      refl

-- An element of ones only.
all_ones :
    (immN : Bool) (imms immr len : ℕ)
    → imms < 64
    → immr < 64
    → 1 ≤ len
    → len < 7
    → 2 ^ len ≤ code_of immN imms
    → code_of immN imms < 2 ^ suc len
    → (imms % 2 ^ len == 2 ^ len - 1) ≡ true
    → decode_bit_masks immN imms immr ≡ err assertion
unfolding decode_bit_masks max_val_for_size
all_ones immN imms immr len hs hr pos less lower upper ones =
    rw
      (
        le→leb imms 63 (omega arith),
        le→leb immr 63 (omega arith),
        length_code_lem immN imms hs,
        highest_bit_set_lem (code_of immN imms) len lower upper (omega arith),
        lt→ltb 0 len pos,
        le→leb len 6 (omega arith),
        u8_size len less,
        bit_and-ones imms len,
        ones,
      )
      refl

-- Two 6-bit fields either encode a pattern, or the run of `DecodeBitMasks` faults.
pub decode_bit_masks-HasLength :
    (immN : Bool) (imms immr : ℕ)
    → imms < 64
    → immr < 64
    → ((len : ℕ) × HasLength immN imms len)
      ⊎ ((e : Fault) × (decode_bit_masks immN imms immr ≡ err e))
decode_bit_masks-HasLength immN imms immr hs hr = elim (Bool-cases (code_of immN imms == 0)) [
  | inl z ↦ inr (undefined, no_code immN imms immr hs hr ((==_iff (code_of immN imms) 0).0 z))
  | inr nz ↦
      let ne = ==_false nz in
      let (len, less, lower, upper) =
        bracket 7 (code_of immN imms) (omega (arith, ne)) (omega (arith, code_small immN imms)) in
      elim (Bool-cases (len == 0)) [
        | inl none_ ↦
            let zero_len = (==_iff len 0).0 none_ in
            inr (
              assertion,
              no_element immN imms immr hs hr (below_two immN imms len zero_len lower upper),
            )
        | inr some_ ↦
            let pos = ==_false some_ in
            elim (Bool-cases (imms % 2 ^ len == 2 ^ len - 1)) [
              | inl ones ↦ inr (
                assertion,
                all_ones immN imms immr len hs hr (omega (arith, pos)) less lower upper ones,
              )
              | inr other ↦ inl (
                len,
                record {
                  positive = omega (arith, pos);
                  lower = lower;
                  upper = upper;
                  not_ones = ==_false other;
                },
              )
            ]
      ]
]
  where
    below_two :
        (immN : Bool) (imms len : ℕ)
        → len ≡ 0
        → 2 ^ len ≤ code_of immN imms
        → code_of immN imms < 2 ^ suc len
        → code_of immN imms ≡ 1
    below_two immN imms len z lower upper = omega (arith, ap (λ t. 2 ^ t) z, ap (λ t. 2 ^ suc t) z)
