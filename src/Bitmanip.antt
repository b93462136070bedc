-- ===== src/Bitmanip.antt =====
-- The macros of src/bitmanip.h. A macro works at the type of the value that it is given, so that
-- type is an argument here.
pub mod Region
pub mod Flag
use koshka.Base.{
  ℕ, ◌+◌, ◌*◌, ltb, if◌then◌else◌, ◌-◌, ◌^◌, ◌>>>◌, bit_and, Bool, not, ◌==◌, List, [], ◌∷◌,
}

-- The unsigned types that the code passes to the macros.
pub data WordType : Type 0 where
  uint8 uint16 uint32 uint64 : WordType

-- NUM_BITS
abbrev pub num_bits : WordType → ℕ
num_bits uint8 = 8
num_bits uint16 = 16
num_bits uint32 = 32
num_bits uint64 = 64

-- MAX_VAL_FOR_SIZE, for 1 ≤ bits ≤ 64: outside, C leaves the shift undefined, and no caller goes there.
unfoldable pub max_val_for_size : ℕ → ℕ
max_val_for_size bits = (2 ^ 64 - 1) >>> (64 - bits)

-- The shift of an `int` of 32 bits to the right, which copies its sign into the upper `n` bits.
abbrev pub shift_int : ℕ → ℕ → ℕ
shift_int x n = (x >>> n) + (if ltb x (2 ^ 31) then 0 else (2 ^ n - 1) * 2 ^ (32 - n))

-- SET_ALL(val) >> (NUM_BITS(val) - bit_high - 1), for bit_high < NUM_BITS(val): from there on the
-- count wraps and C leaves the shift undefined; every caller passes constants below it. A type below
-- `int` is promoted to it, so there `~` gives -1, as an `int`, and the shift is one of an `int`.
unfoldable pub region_mask : WordType → ℕ → ℕ
region_mask uint8 bit_high = shift_int (2 ^ 32 - 1) (8 - bit_high - 1)
region_mask uint16 bit_high = shift_int (2 ^ 32 - 1) (16 - bit_high - 1)
region_mask uint32 bit_high = (2 ^ 32 - 1) >>> (32 - bit_high - 1)
region_mask uint64 bit_high = (2 ^ 64 - 1) >>> (64 - bit_high - 1)

-- GET_BIT_REGION
unfoldable pub get_bit_region : WordType → ℕ → ℕ → ℕ → ℕ
unfolding region_mask
get_bit_region t val bit_low bit_high = bit_and val (region_mask t bit_high) >>> bit_low

-- GET_SINGLE_BIT
unfoldable pub get_single_bit : ℕ → ℕ → ℕ
get_single_bit val bit = bit_and (val >>> bit) 1

-- HAS_BIT_FLAG
unfoldable pub has_bit_flag : ℕ → ℕ → Bool
has_bit_flag val flag = not (bit_and val flag == 0)

-- The conditions that the header asserts of its macros at compile time.
unfoldable pub static_asserts : List Bool
static_asserts =
    (get_single_bit 0 5 == 0)
    ∷ (get_single_bit 0b1010110 1 == 1)
    ∷ (get_bit_region uint8 0b0010100 2 4 == 0b101)
    ∷ (get_bit_region uint32 0xD2800020 29 30 == 0b10)
    ∷ []
