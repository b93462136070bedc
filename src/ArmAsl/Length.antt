-- ===== src/ArmAsl/Length.antt =====
-- The length of the pattern of a bitmask immediate.
use koshka.Base.{ℕ, zero, suc, ◌+◌, ◌-◌, ◌/◌, ◌%◌, ◌^◌, ◌≤◌, ◌<◌, ◌≡◌, refl, ap, sym, ◌∙◌, arith}
use koshka.Base.{◌==◌, if◌then◌else◌, Bool, true, false, every_below, every_below-at, ==_iff}
use koshka.Base.{Bool-cases, inl, inr, ==_false}
use koshka.Base.Result.{ok}
use native.Mathlib.Nat.{div-eq_of_lt, div-eq_of_lt-le, pow-le-pow_right, pow-suc}
use koshka.Bitmanip.{get_single_bit, max_val_for_size}
use koshka.Bitmanip.Region.{get_single_bit_lem}
use koshka.ArmAsl.{highest_from, highest_bit_set, length_code}

top_bit : (x len : ℕ) → 2 ^ len ≤ x → x < 2 ^ suc len → get_single_bit x len ≡ 1
top_bit x len lo hi =
    let one_ : x / 2 ^ len ≡ 1 =
      div-eq_of_lt-le {k = 1} (2 ^ len) (omega (arith, lo)) (omega (arith, hi, pow-suc 2 len)) in
    get_single_bit_lem x len ∙ ap (λ (t : ℕ). t % 2) one_

no_bit : (x i : ℕ) → x < 2 ^ i → get_single_bit x i ≡ 0
no_bit x i h = get_single_bit_lem x i ∙ ap (λ (t : ℕ). t % 2) (div-eq_of_lt h)

highest_from_lem :
    (x len i : ℕ) → 2 ^ len ≤ x → x < 2 ^ suc len → len ≤ i → highest_from x i ≡ ok len
unfolding highest_from
highest_from_lem x zero zero lo hi le = rw (top_bit x 0 lo hi) refl
highest_from_lem x (suc len) zero lo hi le = absurd (omega arith)
highest_from_lem x len (suc i) lo hi le = elim (Bool-cases (len == suc i)) [
  | inl here ↦
      let e : len ≡ suc i = (==_iff len (suc i)).0 here in
      let bit : get_single_bit x (suc i) ≡ 1 =
        ap (get_single_bit x) (sym e) ∙ top_bit x len lo hi in
      rw bit (ap ok (sym e))
  | inr other ↦
      let below : len ≤ i = omega (arith, ==_false other) in
      rw
        (no_bit x (suc i) (
          omega (
            arith,
            hi,
            pow-le-pow_right {n = 2} (omega arith) {i = suc len} {j = suc i} (omega arith),
          )))
        (highest_from_lem x len i lo hi below)
]

-- For a number of at most 64 bits, not 0, `HighestBitSet` is the position of its highest bit.
pub highest_bit_set_lem :
    (x len : ℕ) → 2 ^ len ≤ x → x < 2 ^ suc len → len ≤ 63 → highest_bit_set x ≡ ok len
unfolding highest_bit_set
highest_bit_set_lem x len lo hi le = highest_from_lem x len 63 lo hi le

-- `immN:NOT(imms)` as a number.
abbrev pub code_of : Bool → ℕ → ℕ
code_of immN imms = (if immN then 64 else 0) + (63 - imms)

code_table :
    (every_below 64 (λ t. length_code true t == code_of true t) ≡ true)
    × (every_below 64 (λ t. length_code false t == code_of false t) ≡ true)
unfolding every_below max_val_for_size
code_table = (refl, refl)

pub length_code_lem :
    (immN : Bool) (imms : ℕ) → imms < 64 → length_code immN imms ≡ code_of immN imms
length_code_lem true imms h = (==_iff _ _).0 (every_below-at 64 _ imms code_table.0 h)
length_code_lem false imms h = (==_iff _ _).0 (every_below-at 64 _ imms code_table.1 h)
