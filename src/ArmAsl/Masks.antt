-- ===== src/ArmAsl/Masks.antt =====
-- `DecodeBitMasks` against the description of bitmask immediates in the manual.
use koshka.Base.{ℕ, suc, ◌+◌, ◌-◌, ◌*◌, ◌/◌, ◌%◌, ◌^◌, ◌≤◌, ◌<◌, ◌≡◌, ◌≢◌, refl, ap, ◌∙◌}
use koshka.Base.{arith, ltb, leb, ◌==◌, if◌then◌else◌, Bool, true, false, u8, lt→ltb}
use koshka.Base.{Bool-cases, inl, inr, ltb→lt, ltb_false→le, sym, every_below, every_below-at}
use koshka.Base.{==_iff}
use koshka.Base.Result.{ok}
use koshka.Base.Digit.{digit, digit_ext}
use koshka.Base.Digit.Shift.{digit-ones, digit_as_quotient, bit_and-ones, digit-mod}
use native.Mathlib.Nat.{mod-eq_of_lt, mod-lt, add-mod_right, one-le-pow, pow-le-pow_right}
use koshka.Bitmanip.{max_val_for_size}
use koshka.ArmAsl.{decode_bit_masks, ror, widen}
use koshka.ArmAsl.Length.{code_of, length_code_lem, highest_bit_set_lem}
use koshka.ArmAsl.Tiles.{Period, Tiles, ror-Tiles, widen-Tiles}

-- The pattern of `size` bits has `s + 1` ones, and is turned right by `r`.
abbrev pub wave : ℕ → ℕ → ℕ → ℕ → ℕ
wave size s r j = if leb ((r + j) % size) s then 1 else 0

-- The lengths that the encoding can have: the highest bit of `immN:NOT(imms)`.
pub record HasLength (immN : Bool) (imms len : ℕ) : Type 0 where
  pub positive : 1 ≤ len
  pub lower : 2 ^ len ≤ code_of immN imms
  pub upper : code_of immN imms < 2 ^ suc len
  pub not_ones : imms % 2 ^ len ≢ 2 ^ len - 1

wave_start : (size s j : ℕ) → wave size s 0 j ≡ (if leb (j % size) s then 1 else 0)
wave_start size s j = ap (λ t. if leb (t % size) s then 1 else 0) {x = 0 + j} {y = j} (omega arith)

ones-Tiles :
    (size s : ℕ)
    → 0 < size
    → size ≤ 64
    → s < size - 1
    → Tiles (2 ^ (s + 1) - 1) size (λ j. wave size s 0 j)
ones-Tiles size s pos small h = record {
  exact = λ j k. rw (wave_start size s j, mod-eq_of_lt k) (ground (arith, digit-ones (s + 1) j));
  within = λ j. rw (wave_start size s j) (elim (Bool-cases (ltb j (s + 1))) [
    | inl one_ ↦
        let k : j < s + 1 = ltb→lt j (s + 1) one_ in
        let same : j % size ≡ j = mod-eq_of_lt (omega arith) in
        rw same (ground (arith, digit-ones (s + 1) j))
    | inr none_ ↦ rw (digit-ones (s + 1) j, none_) (omega arith)
  ]);
  high = λ j k. ground (arith, digit-ones (s + 1) j);
}

wave-Period : (size s : ℕ) → Period size (λ j. wave size s 0 j)
wave-Period size s j =
    wave_start size s (j + size)
    ∙ ap (λ t. if leb t s then 1 else 0) (add-mod_right j size)
    ∙ sym (wave_start size s j)

fits_word : (m : ℕ) → ((j : ℕ) → 64 ≤ j → digit m j ≡ 0) → m < 2 ^ 64
fits_word m high =
    let same : m % 2 ^ 64 ≡ m =
      digit_ext (m % 2 ^ 64) m λ p. ground (arith, digit-mod m 64 p, high p) in
    omega (arith, same)

-- The rotated pattern, widened.
pub widen-wave :
    (k size s r : ℕ)
    → k < 7
    → size * 2 ^ k ≡ 64
    → 0 < size
    → size ≤ 64
    → s < size - 1
    → (m : ℕ) × (widen 7 size (ror (2 ^ (s + 1) - 1) size r) ≡ ok m)
      × (m < 2 ^ 64)
      × ((j : ℕ) → j < 64 → m / 2 ^ j % 2 ≡ wave size s r j)
widen-wave k size s r less power pos small h =
    let turned =
      ror-Tiles r size (2 ^ (s + 1) - 1) (λ j. wave size s 0 j) pos small (wave-Period size s)
        (ones-Tiles size s pos small h) in
    let period : Period size (λ j. wave size s 0 (r + j)) = λ j.
      ap (wave size s 0) {x = r + (j + size)} {y = r + j + size} (omega arith)
      ∙ wave-Period size s (r + j) in
    let (m, returns, all) =
      widen-Tiles k 7 size (ror (2 ^ (s + 1) - 1) size r) (λ j. wave size s 0 (r + j)) less power
        period turned in
    (
      m,
      returns,
      fits_word m all.high,
      λ j k. sym (digit_as_quotient m j) ∙ all.exact j k ∙ wave_start size s (r + j),
    )

size_table : every_below 7 (λ t. 2 ^ t * 2 ^ (6 - t) == 64) ≡ true
unfolding every_below
size_table = refl

u8_table : every_below 7 (λ t. u8 (1 * 2 ^ t) == 2 ^ t) ≡ true
unfolding every_below
u8_table = refl

pub u8_size : (len : ℕ) → len < 7 → u8 (1 * 2 ^ len) ≡ 2 ^ len
u8_size len less =
    (==_iff (u8 (1 * 2 ^ len)) (2 ^ len)).0
      (every_below-at 7 (λ t. u8 (1 * 2 ^ t) == 2 ^ t) len u8_table less)

pub code_small : (immN : Bool) (imms : ℕ) → code_of immN imms < 128
code_small true imms = omega arith
code_small false imms = omega arith

length_small : (immN : Bool) (imms len : ℕ) → HasLength immN imms len → len < 7
length_small immN imms len l = elim (Bool-cases (ltb len 7)) [
  | inl yes_ ↦ ltb→lt len 7 yes_
  | inr no_ ↦ absurd (
      omega (
        arith,
        l.lower,
        code_small immN imms,
        pow-le-pow_right {n = 2} (omega arith) {i = 7} {j = len} (ltb_false→le len 7 no_),
      ))
]

pub le→leb : (a b : ℕ) → a ≤ b → leb a b ≡ true
le→leb a b h = ground arith

not_same : (a b : ℕ) → a ≢ b → (a == b) ≡ false
not_same a b h = ground arith

one_times : (a : ℕ) → 1 * a ≡ a
one_times a = omega arith

decode_bit_masks-widen :
    (immN : Bool) (imms immr len : ℕ)
    → imms < 64
    → immr < 64
    → HasLength immN imms len
    → decode_bit_masks immN imms immr
      ≡ widen 7 (2 ^ len) (ror (2 ^ (imms % 2 ^ len + 1) - 1) (2 ^ len) (immr % 2 ^ len))
unfolding decode_bit_masks max_val_for_size
decode_bit_masks-widen immN imms immr len hs hr l =
    let less : len < 7 = length_small immN imms len l in
    rw
      (
        le→leb imms 63 (omega arith),
        le→leb immr 63 (omega arith),
        length_code_lem immN imms hs,
        highest_bit_set_lem (code_of immN imms) len l.lower l.upper (omega arith),
        lt→ltb 0 len l.positive,
        le→leb len 6 (omega arith),
        u8_size len less,
        bit_and-ones imms len,
        bit_and-ones immr len,
        not_same (imms % 2 ^ len) (2 ^ len - 1) l.not_ones,
        one_times (2 ^ (imms % 2 ^ len + 1)),
      )
      refl

-- For 6-bit fields whose pattern has a length of 2 to 64 bits and is not all ones, `DecodeBitMasks`
-- returns. The result is a 64-bit word that repeats the pattern: `S + 1` ones in a run of `2 ^ len`
-- bits, turned right by `R`, where `S` and `R` are the low `len` bits of the two fields.
pub decode_bit_masks_lem :
    (immN : Bool) (imms immr len : ℕ)
    → imms < 64
    → immr < 64
    → HasLength immN imms len
    → (m : ℕ) × (decode_bit_masks immN imms immr ≡ ok m)
      × (m < 2 ^ 64)
      × ((j : ℕ) → j < 64 → m / 2 ^ j % 2 ≡ wave (2 ^ len) (imms % 2 ^ len) (immr % 2 ^ len) j)
decode_bit_masks_lem immN imms immr len hs hr l =
    let less : len < 7 = length_small immN imms len l in
    let pos : 1 ≤ 2 ^ len = one-le-pow len 2 (omega arith) in
    let s_lt : imms % 2 ^ len < 2 ^ len = mod-lt imms pos in
    let size_le : 2 ^ len ≤ 64 =
      omega (arith, pow-le-pow_right {n = 2} (omega arith) {i = len} {j = 6} (omega arith)) in
    let (m, returns, small, bits) =
      widen-wave (6 - len) (2 ^ len) (imms % 2 ^ len) (immr % 2 ^ len) (omega arith)
        ((==_iff (2 ^ len * 2 ^ (6 - len)) 64).0
          (every_below-at 7 (λ t. 2 ^ t * 2 ^ (6 - t) == 64) len size_table less))
        pos size_le (omega (arith, l.not_ones)) in
    (m, decode_bit_masks-widen immN imms immr len hs hr l ∙ returns, small, bits)
