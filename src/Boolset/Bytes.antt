-- ===== src/Boolset/Bytes.antt =====
-- The bits of one byte, and a run of bytes set to one value.
use koshka.Base.{
  ℕ, zero, suc, ◌+◌, ◌-◌, ◌*◌, ◌/◌, ◌%◌, ◌^◌, ◌≤◌, ◌<◌, ltb, leb, ◌==◌, if◌then◌else◌,
}
use koshka.Base.{◌≡◌, refl, sym, ◌∙◌, ◌&&◌, arith, Bool, true, u8, bit_or, complement}
use koshka.Base.{
  List, [], ◌∷◌, length, get_or, replicate, ◌++◌, drop, every_below, every_below-at, ==_iff,
}
use mathlib.Core.Path.{subst₂}
use koshka.Base.Digit.{digit, digit-bit_or, digit-bit_and, digit-le-one, digit-zero}
use koshka.Base.Digit.Shift.{digit-mod, digit-shl, digit_as_quotient}
use koshka.Base.Slice.{overwrite}
use koshka.Bitmanip.{get_single_bit, max_val_for_size}
use koshka.Bitmanip.Region.{get_single_bit_lem}
use koshka.Boolset.{set_in_byte}

pub get_single_bit-digit : (v k : ℕ) → get_single_bit v k ≡ digit v k
get_single_bit-digit v k = get_single_bit_lem v k ∙ sym (digit_as_quotient v k)

digit-one : (p : ℕ) → digit 1 p ≡ (if p == 0 then 1 else 0)
digit-one zero = refl
digit-one (suc p) = ground (arith, digit-zero p)

-- Setting one bit of a byte.
pub digit-set_one :
    (byte k p : ℕ)
    → k < 8
    → p < 8
    → digit (u8 (bit_or byte (1 * 2 ^ k))) p ≡ (if p == k then 1 else digit byte p)
digit-set_one byte k p hk hp = ground (
  arith,
  digit-mod (bit_or byte (1 * 2 ^ k)) 8 p,
  digit-bit_or byte (1 * 2 ^ k) p,
  digit-shl 1 k p,
  digit-one (p - k),
  digit-le-one byte p,
)

-- The mask of `set_in_byte` and its complement, at every start and bit.
abbrev low_mask : ℕ → ℕ
low_mask n = u8 (max_val_for_size (8 - n))

mask_table :
    every_below 64 (λ t.
      (digit (low_mask (t / 8)) (t % 8) == (if ltb (t % 8) (8 - t / 8) then 1 else 0))
      && (digit (complement 8 (low_mask (t / 8))) (t % 8)
          == (if ltb (t % 8) (8 - t / 8) then 0 else 1)))
    ≡ true
unfolding every_below max_val_for_size
mask_table = refl

abbrev MaskDigits : ℕ → ℕ → Type 0
MaskDigits n p =
    (digit (low_mask n) p ≡ (if ltb p (8 - n) then 1 else 0))
    × (digit (complement 8 (low_mask n)) p ≡ (if ltb p (8 - n) then 0 else 1))

and_true : (a b : Bool) → (a && b) ≡ true → (a ≡ true) × (b ≡ true)
and_true a b h = ground arith

MaskDigits-at : (t : ℕ) → t < 64 → MaskDigits (t / 8) (t % 8)
MaskDigits-at t h =
    let both = and_true _ _ (every_below-at 64 _ t mask_table h) in
    ((==_iff _ _).0 both.0, (==_iff _ _).0 both.1)

quotient : (n p : ℕ) → p < 8 → (n * 8 + p) / 8 ≡ n
quotient n p h = omega arith

remainder : (n p : ℕ) → p < 8 → (n * 8 + p) % 8 ≡ p
remainder n p h = omega arith

MaskDigits_lem : (n p : ℕ) → n < 8 → p < 8 → MaskDigits n p
MaskDigits_lem n p hn hp =
    subst₂ MaskDigits (quotient n p hp) (remainder n p hp) (MaskDigits-at (n * 8 + p) (omega arith))

-- `set_in_byte` sets the bits from `n` down to the lowest, counted from the highest, to `value`, and
-- keeps the others; a start outside the byte changes nothing.
pub digit-set_in_byte :
    (byte n p : ℕ) (value : Bool)
    → n < 8
    → p < 8
    → digit (set_in_byte byte n value) p
      ≡ (if ltb p (8 - n) then (if value then 1 else 0) else digit byte p)
unfolding set_in_byte
digit-set_in_byte byte n p value hn hp = ground (
  arith,
  MaskDigits_lem n p hn hp,
  digit-mod (bit_or byte (low_mask n)) 8 p,
  digit-bit_or byte (low_mask n) p,
  digit-bit_and byte (complement 8 (low_mask n)) p,
  digit-le-one byte p,
)

module _ {ℓ} {A : Type ℓ} where
  drop_empty : (n : ℕ) → drop {A = A} n [] ≡ []
  drop_empty zero = refl
  drop_empty (suc n) = refl

  get_or-fill_zero :
      (n : ℕ) (v : A) (xs : List A) (j : ℕ) (d : A)
      → get_or (replicate n v ++ drop (length (replicate n v)) xs) j d
        ≡ (if ltb j n then v else get_or xs j d)
  get_or-fill_zero zero v xs j d = ground arith
  get_or-fill_zero (suc n) v [] zero d = ground arith
  get_or-fill_zero (suc n) v (x ∷ xs) zero d = ground arith
  get_or-fill_zero (suc n) v [] (suc j) d =
      ground (arith, get_or-fill_zero n v [] j d, drop_empty (length (replicate n v)))
  get_or-fill_zero (suc n) v (x ∷ xs) (suc j) d = ground (arith, get_or-fill_zero n v xs j d)

  -- A run of `n` elements set to `v` from index `i` on.
  pub get_or-fill :
      (i n : ℕ) (v : A) (xs : List A) (j : ℕ) (d : A)
      → i + n ≤ length xs
      → get_or (overwrite i (replicate n v) xs) j d
        ≡ (if leb i j && ltb j (i + n) then v else get_or xs j d)
  unfolding overwrite
  get_or-fill zero n v xs j d h = ground (arith, get_or-fill_zero n v xs j d)
  get_or-fill (suc i) n v [] j d h = absurd (omega arith)
  get_or-fill (suc i) n v (x ∷ xs) zero d h = ground arith
  get_or-fill (suc i) n v (x ∷ xs) (suc j) d h = ground (arith, get_or-fill i n v xs j d)
