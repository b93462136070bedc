-- ===== src/ArmAsl.antt =====
-- The pseudocode functions of src/arm_asl.c.
pub mod Tiles
pub mod Length
pub mod Masks
pub mod Faults
use koshka.Base.{ℕ, zero, suc, ◌+◌, ◌-◌, ◌*◌, ◌<<<◌, ◌>>>◌, bit_and, bit_or, u8, u64}
use koshka.Base.{ltb, leb, ◌==◌, if◌then◌else◌, not, Bool, complement}
use koshka.Base.Result.{Result, ok, err, assertion, undefined, fuel, guard, ◌>>=◌, ◌>>◌}
use koshka.Bitmanip.{max_val_for_size, get_single_bit}

-- The loop of `HighestBitSet` from bit `i` down. `i` is a u8, so `i >= 0` never fails: below bit 0
-- the loop goes on at bit 255, where the shift is undefined. Its `return -1` is not reached.
unfoldable pub highest_from : ℕ → ℕ → Result ℕ
highest_from x zero = if get_single_bit x 0 == 0 then err undefined else ok 0
highest_from x (suc i) =
    let below = highest_from x i in if get_single_bit x (suc i) == 0 then below else ok (suc i)

unfoldable pub highest_bit_set : ℕ → Result ℕ
highest_bit_set x = highest_from x 63

-- One round of `ROR`.
unfoldable pub ror_step : ℕ → ℕ → ℕ
ror_step bit_size x = bit_or (u64 (x <<< (bit_size - 1))) (x >>> 1)

-- `ROR(x, bit_size, shift)`, by the rounds left.
unfoldable pub ror : ℕ → ℕ → ℕ → ℕ
ror x bit_size zero = x
ror x bit_size (suc shift) = ror (ror_step bit_size x) bit_size shift

-- The loop `while (size != 64)`, with fuel.
unfoldable pub widen : ℕ → ℕ → ℕ → Result ℕ
widen zero size pattern_ = err fuel
widen (suc n) size pattern_ =
    let rest = widen n (u8 (size * 2)) (bit_or pattern_ (u64 (pattern_ <<< size))) in
    if size == 64 then ok pattern_ else rest

-- `((u8)immN << 6) | ((u8)~imms & MAX_VAL_FOR_SIZE(6))`
abbrev pub length_code : Bool → ℕ → ℕ
length_code immN imms =
    bit_or ((if immN then 1 else 0) <<< 6) (bit_and (complement 8 imms) (max_val_for_size 6))

-- Seven rounds of fuel are enough: the size doubles up to 64.
unfoldable pub decode_bit_masks : Bool → ℕ → ℕ → Result ℕ
decode_bit_masks immN imms immr = do
  guard (leb imms (max_val_for_size 6)) assertion
  guard (leb immr (max_val_for_size 6)) assertion
  len ← highest_bit_set (length_code immN imms)
  guard (ltb 0 len) assertion
  guard (leb len 6) assertion
  let size = u8 (1 <<< len)
  let s = bit_and imms (size - 1)
  let r = bit_and immr (size - 1)
  guard (not (s == size - 1)) assertion
  widen 7 size (ror (1 <<< (s + 1) - 1) size r)
