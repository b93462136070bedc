-- ===== src/ArmAsl/Tiles.antt =====
-- A word that repeats a pattern of `size` bits, and what rotating and doubling do to it. While the
-- code rotates, rests of the pattern stand above its `size` bits; they are never wrong bits.
use koshka.Base.{ℕ, zero, suc, ◌+◌, ◌-◌, ◌*◌, ◌^◌, ◌≤◌, ◌<◌, ◌≡◌, refl, ap, sym, ◌∙◌, arith}
use koshka.Base.{ltb, ◌==◌, if◌then◌else◌, u8, u64, bit_or, max, ◌/◌}
use koshka.Base.{false, Bool-cases, inl, inr, ltb→lt, ltb_false→le}
use mathlib.Core.Path.{subst}
use native.Mathlib.Nat.{pow-suc, one-le-pow}
use koshka.Base.Result.{ok}
use koshka.Base.Digit.{digit, digit-bit_or}
use koshka.Base.Digit.Shift.{digit-shl, digit-shr, digit-mod}
use koshka.ArmAsl.{ror_step, ror, widen}

-- `wave` has a period of `size`.
abbrev pub Period : ℕ → (ℕ → ℕ) → Type 0
Period size wave = (j : ℕ) → wave (j + size) ≡ wave j

-- The lowest `size` bits are those of the wave, and no bit is set that the wave has not.
pub record Tiles (x size : ℕ) (wave : ℕ → ℕ) : Type 0 where
  pub exact : (j : ℕ) → j < size → digit x j ≡ wave j
  pub within : (j : ℕ) → digit x j ≤ wave j
  pub high : (j : ℕ) → 64 ≤ j → digit x j ≡ 0

digit-ror_step :
    (size x j : ℕ)
    → digit (ror_step size x) j
      ≡ max
          (if ltb j 64 then (if ltb j (size - 1) then 0 else digit x (j - (size - 1))) else 0)
          (digit x (1 + j))
unfolding ror_step
digit-ror_step size x j =
    digit-bit_or (u64 (x * 2 ^ (size - 1))) (x / 2 ^ 1) j
    ∙ ground (arith, digit-mod (x * 2 ^ (size - 1)) 64 j, digit-shl x (size - 1) j, digit-shr x 1 j)

-- One step forward is `size - 1` steps back.
wave_back :
    (size j : ℕ) (wave : ℕ → ℕ)
    → 0 < size
    → Period size wave
    → size - 1 ≤ j
    → wave (j - (size - 1)) ≡ wave (1 + j)
wave_back size j wave pos period h = sym (period (j - (size - 1))) ∙ ap wave (omega arith)

ror_step-Tiles :
    (size x : ℕ) (wave : ℕ → ℕ)
    → 0 < size
    → size ≤ 64
    → Period size wave
    → Tiles x size wave
    → Tiles (ror_step size x) size (λ j. wave (1 + j))
ror_step-Tiles size x wave pos small period t = record {
  exact = λ j h. digit-ror_step size x j ∙ elim (Bool-cases (ltb j (size - 1))) [
    | inl below ↦
        rw below (ground (arith, t.exact (1 + j) (omega (arith, ltb→lt j (size - 1) below))))
    | inr last ↦ rw last (
        ground (
          arith,
          t.exact 0 pos,
          ap (digit x) {x = j - (size - 1)} {y = 0} (omega arith),
          wave_back size j wave pos period (ltb_false→le j (size - 1) last),
          ap wave {x = j - (size - 1)} {y = 0} (omega arith),
          t.within (1 + j),
        ))
  ];
  within = λ j. elim (Bool-cases (ltb j (size - 1))) [
    | inl below ↦ rw (digit-ror_step size x j, below) (ground (arith, t.within (1 + j)))
    | inr above ↦
        rw (digit-ror_step size x j, above)
          (ground (
            arith,
            t.within (1 + j),
            t.within (j - (size - 1)),
            wave_back size j wave pos period (ltb_false→le j (size - 1) above),
          ))
  ];
  high = λ j h. ground (arith, digit-ror_step size x j, t.high (1 + j));
}

Tiles-wave :
    {x size : ℕ} {wave wave' : ℕ → ℕ}
    → ((j : ℕ) → wave j ≡ wave' j)
    → Tiles x size wave
    → Tiles x size wave'
Tiles-wave same t = record {
  exact = λ j h. t.exact j h ∙ same j;
  within = λ j. omega (arith, t.within j, same j);
  high = t.high;
}

-- `ROR` turns the wave.
pub ror-Tiles :
    (shift size x : ℕ) (wave : ℕ → ℕ)
    → 0 < size
    → size ≤ 64
    → Period size wave
    → Tiles x size wave
    → Tiles (ror x size shift) size (λ j. wave (shift + j))
unfolding ror
ror-Tiles zero size x wave pos small period t =
    Tiles-wave (λ j. ap wave {x = j} {y = 0 + j} (omega arith)) t
ror-Tiles (suc shift) size x wave pos small period t =
    Tiles-wave (λ j. ap wave {x = 1 + (shift + j)} {y = suc shift + j} (omega arith))
      (ror-Tiles shift size (ror_step size x) (λ j. wave (1 + j)) pos small
        (λ j. ap wave {x = 1 + (j + size)} {y = 1 + j + size} (omega arith) ∙ period (1 + j))
        (ror_step-Tiles size x wave pos small period t))

digit-doubled :
    (size p j : ℕ)
    → digit (bit_or p (u64 (p * 2 ^ size))) j
      ≡ max (digit p j) (if ltb j 64 then (if ltb j size then 0 else digit p (j - size)) else 0)
digit-doubled size p j =
    digit-bit_or p (u64 (p * 2 ^ size)) j
    ∙ ground (arith, digit-mod (p * 2 ^ size) 64 j, digit-shl p size j)

-- The step of the loop that widens the pattern.
doubled-Tiles :
    (size p : ℕ) (wave : ℕ → ℕ)
    → size * 2 ≤ 64
    → Period size wave
    → Tiles p size wave
    → Tiles (bit_or p (u64 (p * 2 ^ size))) (size * 2) wave
doubled-Tiles size p wave small period t = record {
  exact = λ j h. elim (Bool-cases (ltb j size)) [
    | inl below ↦
        rw (digit-doubled size p j, below) (ground (arith, t.exact j (ltb→lt j size below)))
    | inr above ↦
        rw (digit-doubled size p j, above)
          (let le = ltb_false→le j size above in
            ground (
              arith,
              t.within j,
              t.exact (j - size) (omega arith),
              period (j - size),
              ap wave {x = j - size + size} {y = j} (omega arith),
            ))
  ];
  within = λ j. elim (Bool-cases (ltb j size)) [
    | inl below ↦ rw (digit-doubled size p j, below) (ground (arith, t.within j))
    | inr above ↦
        rw (digit-doubled size p j, above)
          (let le = ltb_false→le j size above in
            ground (
              arith,
              t.within j,
              t.within (j - size),
              period (j - size),
              ap wave {x = j - size + size} {y = j} (omega arith),
            ))
  ];
  high = λ j h. ground (arith, digit-doubled size p j, t.high j);
}

Period-twice : (size : ℕ) (wave : ℕ → ℕ) → Period size wave → Period (size * 2) wave
Period-twice size wave period j =
    ap wave {x = j + size * 2} {y = j + size + size} (omega arith) ∙ period (j + size) ∙ period j

mul_grows : (a b : ℕ) → 1 ≤ b → a ≤ a * b
mul_grows a b h = grind arith

not_full : (size : ℕ) → size * 2 ≤ 64 → (size == 64) ≡ false
not_full size h = ground arith

fits_u8 : (a : ℕ) → a ≤ 64 → u8 a ≡ a
fits_u8 a h = omega arith

-- The loop widens the pattern to all 64 bits.
pub widen-Tiles :
    (k n size p : ℕ) (wave : ℕ → ℕ)
    → k < n
    → size * 2 ^ k ≡ 64
    → Period size wave
    → Tiles p size wave
    → (m : ℕ) × (widen n size p ≡ ok m) × Tiles m 64 wave
unfolding widen
widen-Tiles k zero size p wave h power period t = absurd (omega arith)
widen-Tiles zero (suc n) size p wave h power period t =
    let full : size ≡ 64 = omega arith in (p, rw full refl, subst (λ s. Tiles p s wave) full t)
widen-Tiles (suc k) (suc n) size p wave h power period t =
    let power' : size * 2 * 2 ^ k ≡ 64 =
      omega (arith, ap (λ (q : ℕ). size * q) (pow-suc 2 k), power) in
    let small : size * 2 ≤ 64 =
      omega (arith, mul_grows (size * 2) (2 ^ k) (one-le-pow k 2 (omega arith)), power') in
    let (m, returns, all) =
      widen-Tiles k n (size * 2) (bit_or p (u64 (p * 2 ^ size))) wave (omega arith) power'
        (Period-twice size wave period) (doubled-Tiles size p wave small period t) in
    (m, rw (not_full size small, fits_u8 (size * 2) small) returns, all)
