-- ===== src/Examples/Bits.antt =====
-- The macros of src/bitmanip.h, and src/boolset.cxx on small sets.
use koshka.Base.{◌≡◌, refl, arith, true, false, [], ◌∷◌, some}
use koshka.Base.{◌==◌, if◌then◌else◌}
use koshka.Base.Result.{ok, err, bounds}
use koshka.Boolset.{Boolset, boolset, get_bit, set_bit, set_range}
use koshka.Boolset.{byte_at, put_byte, set_partial, fill_bytes, set_in_byte}
use koshka.Pool.{calloc}
use koshka.Base.Slice.{overwrite}
use koshka.Bitmanip.{max_val_for_size, get_single_bit, get_bit_region, region_mask, static_asserts}
use koshka.Boolset.Laws.{IsValid, Holds, set_bit_lem}
use koshka.Boolset.History.{Run, Run-reads}
use koshka.Boolset.Ranges.{RangeResult, set_range-RangeResult}

-- Four bytes.
abbrev small : Boolset
small = record { buf = some (0x80 ∷ 0 ∷ 0 ∷ 0xFF ∷ []); byte_size = 4; initialized = true }

small-IsValid : IsValid small
small-IsValid = record { bytes = 0x80 ∷ 0 ∷ 0 ∷ 0xFF ∷ []; present = refl; sized = refl }

-- Position 0 is the highest bit of the first byte.
first_bits : (get_bit small 0 ≡ ok true) × (get_bit small 1 ≡ ok false)
unfolding get_bit byte_at get_single_bit
first_bits = (refl, refl)

set_bit_lem_example :
    Holds small 4 (λ q. if q == 9 then ok true else get_bit small q) (set_bit small 9 true)
set_bit_lem_example = set_bit_lem small 9 true small-IsValid (omega arith)

-- Bits 9 to 15 of the second byte, and the whole third byte.
set_range-RangeResult_example : RangeResult small 9 12 true (set_range small 9 12 true)
set_range-RangeResult_example = set_range-RangeResult small 9 12 true small-IsValid

-- The three outcomes. From 256 bytes on the last byte is 0 in a u8.
range_outcomes :
    (set_range small 9 12 true
      ≡ ok (record {
        buf = some (0x80 ∷ 0x7F ∷ 0xFF ∷ 0xFF ∷ []);
        byte_size = 4;
        initialized = true;
      }))
    × (set_range small 40 8 true ≡ ok small)
    × (set_range small 0 2048 true ≡ err bounds)
unfolding set_range set_partial fill_bytes byte_at put_byte set_in_byte overwrite max_val_for_size
range_outcomes = (refl, refl, refl)

-- A fresh set of two bytes, and the same with bit 11.
abbrev marked : Boolset
marked = record { buf = some (0 ∷ 0x10 ∷ []); byte_size = 2; initialized = true }

mark-marked : set_bit (boolset [] 13) 11 true ≡ ok marked
unfolding boolset set_bit byte_at put_byte calloc
mark-marked = refl

Run-reads_example : get_bit marked 11 ≡ ok true
unfolding boolset
Run-reads_example =
    Run-reads 11 (Run.bit 11 true (Run.made [] 13 refl) (omega arith) mark-marked) (omega arith)

static_asserts-hold : static_asserts ≡ true ∷ true ∷ true ∷ true ∷ []
unfolding static_asserts get_single_bit get_bit_region region_mask
static_asserts-hold = refl
