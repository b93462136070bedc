-- ===== src/Boolset/Laws.antt =====
-- What the constructor, `get_bit`, `set_bit` and `set_all` of src/boolset.cxx do to the set.
use koshka.Base.{ℕ, ◌+◌, ◌*◌, ◌/◌, ◌^◌, ◌≤◌, ◌<◌, ltb, leb, ◌==◌, if◌then◌else◌, ◌≡◌, refl, ap}
use koshka.Base.{◌∙◌, ◌&&◌, arith, Bool, true, false, not, u8, bit_or, some, List}
use koshka.Base.{length, get_or, set, replicate, length-set, length-replicate, get_or-replicate}
use koshka.Base.{get_or-set_self, get_or-set_ne}
use koshka.Base.Result.{Result, ok}
use koshka.Base.Slice.{overwrite, length-overwrite}
use koshka.Base.Digit.{digit, digit-zero}
use koshka.Base.Digit.Shift.{digit-ones}
use koshka.Pool.Grow.{calloc_granted}
use koshka.Pool.{all_granted}
use koshka.Boolset.{Boolset, boolset, byte_at, put_byte, fill_bytes, bit_pos, get_bit, set_bit}
use koshka.Boolset.{byte_value, set_all}
use koshka.Boolset.Bytes.{get_single_bit-digit, digit-set_one, get_or-fill}

-- The buffer is there and of the size that the set says.
pub record IsValid (b : Boolset) : Type 0 where
  pub bytes : List ℕ
  pub present : b.buf ≡ some bytes
  pub sized : length bytes ≡ b.byte_size

-- The bit that the bytes hold at a position.
abbrev pub stored : List ℕ → ℕ → Bool
stored bytes pos = not (digit (get_or bytes (pos / 8) 0) (bit_pos pos) == 0)

pub get_bit_lem :
    (b : Boolset) (v : IsValid b) (pos : ℕ)
    → pos < b.byte_size * 8
    → get_bit b pos ≡ ok (stored v.bytes pos)
unfolding get_bit byte_at
get_bit_lem b v pos h =
    ground (arith, get_single_bit-digit (get_or v.bytes (pos / 8) 0) (bit_pos pos))

-- A set that holds the bits that a function tells.
pub record Holds (b : Boolset) (size : ℕ) (bits : ℕ → Result Bool) (r : Result Boolset)
    : Type 0 where
  pub after : Boolset
  pub returns : r ≡ ok after
  pub valid : IsValid after
  pub same_size : after.byte_size ≡ size
  pub reads : (q : ℕ) → q < size * 8 → get_bit after q ≡ bits q

-- The constructor gives room for `bit_count` bits, all of them false.
pub boolset_lem :
    (answers : List Bool) (bit_count : ℕ)
    → all_granted answers ≡ true
    → let b = boolset answers bit_count in
      IsValid b
      × (bit_count ≤ b.byte_size * 8)
      × (b.byte_size * 8 < bit_count + 8)
      × ((pos : ℕ) → pos < b.byte_size * 8 → get_bit b pos ≡ ok false)
unfolding boolset
boolset_lem answers bit_count granted = (valid, ground arith, ground arith, fresh)
  where
    b : Boolset
    b = boolset answers bit_count

    present : b.buf ≡ some (replicate b.byte_size 0)
    present = calloc_granted 0 answers b.byte_size granted

    valid : IsValid b
    valid = record {
      bytes = replicate b.byte_size 0;
      present = present;
      sized = length-replicate b.byte_size 0;
    }

    fresh : (pos : ℕ) → pos < b.byte_size * 8 → get_bit b pos ≡ ok false
    fresh pos h =
        get_bit_lem b valid pos h
        ∙ ap (λ t. ok (not (digit t (bit_pos pos) == 0)))
            (get_or-replicate b.byte_size (pos / 8) 0 0 (omega arith))
        ∙ ap (λ t. ok (not (t == 0))) (digit-zero (bit_pos pos))

abbrev with_bit : ℕ → ℕ → ℕ
with_bit byte pos = u8 (bit_or byte (1 * 2 ^ bit_pos pos))

stored-set :
    (bytes : List ℕ) (pos q : ℕ)
    → pos / 8 < length bytes
    → stored (set bytes (pos / 8) (with_bit (get_or bytes (pos / 8) 0) pos)) q
      ≡ (if q == pos then true else stored bytes q)
stored-set bytes pos q h = ground (
  arith,
  get_or-set_self bytes (pos / 8) (with_bit (get_or bytes (pos / 8) 0) pos) 0,
  get_or-set_ne bytes (pos / 8) (q / 8) (with_bit (get_or bytes (pos / 8) 0) pos) 0,
  digit-set_one (get_or bytes (pos / 8) 0) (bit_pos pos) (bit_pos q),
)

-- `set_bit` makes the bit at its position true and keeps every other. It does so for either value.
pub set_bit_lem :
    (b : Boolset) (pos : ℕ) (value : Bool)
    → IsValid b
    → pos < b.byte_size * 8
    → Holds b b.byte_size (λ q. if q == pos then ok true else get_bit b q) (set_bit b pos value)
unfolding set_bit byte_at put_byte
set_bit_lem b pos value v h = record {
  after = after;
  returns = ground arith;
  valid = valid;
  same_size = refl;
  reads = λ q hq.
      get_bit_lem after valid q hq
      ∙ ap ok (stored-set v.bytes pos q (omega arith))
      ∙ ground (arith, get_bit_lem b v q hq);
}
  where
    bytes : List ℕ
    bytes = set v.bytes (pos / 8) (with_bit (get_or v.bytes (pos / 8) 0) pos)

    after : Boolset
    after = record b { buf = some bytes }

    valid : IsValid after
    valid = record {
      bytes = bytes;
      present = refl;
      sized = length-set v.bytes (pos / 8) (with_bit (get_or v.bytes (pos / 8) 0) pos) ∙ v.sized;
    }

digit-byte_value : (value : Bool) (p : ℕ) → p < 8 → not (digit (byte_value value) p == 0) ≡ value
digit-byte_value true p h = ground (arith, digit-ones 8 p)
digit-byte_value false p h = ground (arith, digit-zero p)

-- A run of bytes filled with one value, read bit by bit.
pub stored-fill :
    (bytes : List ℕ) (i n q : ℕ) (value : Bool)
    → i + n ≤ length bytes
    → stored (overwrite i (replicate n (byte_value value)) bytes) q
      ≡ (if leb i (q / 8) && ltb (q / 8) (i + n) then value else stored bytes q)
stored-fill bytes i n q value h =
    ground (
      arith,
      get_or-fill i n (byte_value value) bytes (q / 8) 0,
      digit-byte_value value (bit_pos q),
    )

-- memset of a run of whole bytes.
pub fill_bytes_lem :
    (b : Boolset) (i n : ℕ) (value : Bool)
    → IsValid b
    → i + n ≤ b.byte_size
    → Holds b b.byte_size
        (λ q. if leb i (q / 8) && ltb (q / 8) (i + n) then ok value else get_bit b q)
        (fill_bytes b i (byte_value value) n)
unfolding fill_bytes
fill_bytes_lem b i n value v h = record {
  after = after;
  returns = ground (arith, length-replicate n (byte_value value));
  valid = valid;
  same_size = refl;
  reads = λ q hq.
      get_bit_lem after valid q hq
      ∙ ap ok (stored-fill v.bytes i n q value (omega arith))
      ∙ ground (arith, get_bit_lem b v q hq);
}
  where
    bytes : List ℕ
    bytes = overwrite i (replicate n (byte_value value)) v.bytes

    after : Boolset
    after = record b { buf = some bytes }

    valid : IsValid after
    valid = record {
      bytes = bytes;
      present = refl;
      sized =
          length-overwrite i (replicate n (byte_value value)) v.bytes
            (omega (arith, length-replicate n (byte_value value)))
          ∙ v.sized;
    }

-- `set_all` makes every bit the given value.
pub set_all_lem :
    (b : Boolset) (value : Bool) → IsValid b → Holds b b.byte_size (λ q. ok value) (set_all b value)
unfolding set_all
set_all_lem b value v =
    let h : Holds b b.byte_size
        (λ q. if leb 0 (q / 8) && ltb (q / 8) (0 + b.byte_size) then ok value else get_bit b q)
        (fill_bytes b 0 (byte_value value) b.byte_size) =
      fill_bytes_lem b 0 b.byte_size value v (omega arith) in
    record {
      after = h.after;
      returns = h.returns;
      valid = h.valid;
      same_size = h.same_size;
      reads = λ q hq. h.reads q hq ∙ ground arith;
    }
