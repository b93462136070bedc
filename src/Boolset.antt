-- ===== src/Boolset.antt =====
-- The bit set of src/boolset.{hxx,cxx}: a heap buffer of bytes, bit 0 of the set in the highest
-- bit of byte 0. Log messages are left out.
pub mod Bytes
pub mod Laws
pub mod Ranges
pub mod History
use koshka.Base.{
  ℕ, ◌+◌, ◌-◌, ◌/◌, ◌%◌, ◌<<<◌, ltb, leb, ◌==◌, if◌then◌else◌, u8, not, Bool, true, false,
}
use koshka.Base.{
  Option, none, some, List, length, replicate, get_or, set, bit_and, bit_or, complement,
}
use koshka.Base.Result.{Result, ok, err, bounds, ◌>>=◌}
use koshka.Base.Slice.{overwrite}
use koshka.Bitmanip.{get_single_bit, max_val_for_size}
use koshka.Pool.{calloc}

pub record Boolset : Type 0 where
  pub buf : Option (List ℕ)
  pub byte_size : ℕ
  pub initialized : Bool

abbrev round_up : ℕ → ℕ
round_up bits = if bits == 0 then 0 else 1

abbrev is_some : Option (List ℕ) → Bool
is_some none = false
is_some (some bytes) = true

-- The constructor. The first argument is what calloc answers, as in the pool.
unfoldable pub boolset : List Bool → ℕ → Boolset
boolset answers bit_count =
    let size = bit_count / 8 + round_up (bit_count % 8) in
    let (bytes, rest) = calloc 0 answers size in
    record { buf = bytes; byte_size = size; initialized = is_some bytes }

-- The destructor frees the buffer; an access afterwards is a fault.
unfoldable pub destroy : Boolset → Boolset
destroy b = record b { buf = none }

-- `buf[i]`, and a store to it.
unfoldable pub byte_at : Boolset → ℕ → Result ℕ
byte_at b i = elim b.buf [
  | none ↦ err bounds
  | some bytes ↦ if ltb i (length bytes) then ok (get_or bytes i 0) else err bounds
]

unfoldable pub put_byte : Boolset → ℕ → ℕ → Result Boolset
put_byte b i v = elim b.buf [
  | none ↦ err bounds
  | some bytes ↦
      if ltb i (length bytes) then ok (record b { buf = some (set bytes i v) }) else err bounds
]

-- memset(&buf[i], v, n)
unfoldable pub fill_bytes : Boolset → ℕ → ℕ → ℕ → Result Boolset
fill_bytes b i v n = elim b.buf [
  | none ↦ if n == 0 then ok b else err bounds
  | some bytes ↦
      if leb (i + n) (length bytes)
      then ok (record b { buf = some (overwrite i (replicate n v) bytes) })
      else err bounds
]

-- Bit position 0 is the highest bit of a byte.
abbrev pub bit_pos : ℕ → ℕ
bit_pos pos = 7 - pos % 8

unfoldable pub get_bit : Boolset → ℕ → Result Bool
get_bit b pos = do byte ← byte_at b (pos / 8); ok (not (get_single_bit byte (bit_pos pos) == 0))

-- `value` is not looked at.
unfoldable pub set_bit : Boolset → ℕ → Bool → Result Boolset
set_bit b pos value = do
  byte ← byte_at b (pos / 8)
  put_byte b (pos / 8) (u8 (bit_or byte (1 <<< bit_pos pos)))

-- The byte that `set_in_byte` leaves.
unfoldable pub set_in_byte : ℕ → ℕ → Bool → ℕ
set_in_byte byte bits_from_msb value =
    let mask = u8 (max_val_for_size (8 - bits_from_msb)) in
    if ltb 7 bits_from_msb
    then byte
    else if value
    then u8 (bit_or byte mask)
    else bit_and byte (complement 8 mask)

abbrev pub byte_value : Bool → ℕ
byte_value value = if value then 0xFF else 0x00

-- `set_in_byte(&buf[i], bits_from_msb, value)` under its condition.
unfoldable pub set_partial : Bool → Boolset → ℕ → ℕ → Bool → Result Boolset
set_partial test b i bits_from_msb value =
    if test
    then (byte_at b i >>= λ byte. put_byte b i (set_in_byte byte bits_from_msb value))
    else ok b

-- `end_pos` is a u8.
abbrev pub end_pos : ℕ → ℕ → ℕ
end_pos pos size = u8 (pos / 8 + size / 8 + round_up (size % 8))

unfoldable pub set_range : Boolset → ℕ → ℕ → Bool → Result Boolset
set_range b pos size value =
    if leb b.byte_size (pos / 8)
    then ok b
    else if leb b.byte_size (end_pos pos size)
    then ok b
    else do
      first ← set_partial (ltb 0 (pos % 8)) b (pos / 8) (pos % 8) value
      middle ← fill_bytes first (pos / 8 + 1) (byte_value value) (size / 8)
      set_partial (not (size % 8 == 0)) middle (size / 8) (size % 8) value

unfoldable pub set_all : Boolset → Bool → Result Boolset
set_all b value = fill_bytes b 0 (byte_value value) b.byte_size
