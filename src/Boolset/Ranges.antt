-- ===== src/Boolset/Ranges.antt =====
-- What `set_range` of src/boolset.cxx does on every branch.
use koshka.Base.{ℕ, ◌+◌, ◌/◌, ◌%◌, ◌≤◌, ◌<◌, ltb, leb, ◌==◌, not, if◌then◌else◌, ◌≡◌, refl, ap}
use koshka.Base.{◌∙◌, ◌&&◌, ◌||◌, ◌⊎◌, arith, Bool, true, false, some, List, length, get_or, set}
use koshka.Base.{length-set, get_or-set_self, get_or-set_ne, leb-false}
use koshka.Base.{Bool-cases, inl, inr, ltb→lt, ltb_false→le}
use koshka.Base.Result.{Result, ok, err, bounds}
use koshka.Boolset.{Boolset, fill_bytes, get_bit, byte_value, end_pos, set_partial, set_range}
use koshka.Boolset.{byte_at, put_byte, set_in_byte, bit_pos}
use koshka.Boolset.Bytes.{digit-set_in_byte}
use koshka.Boolset.Laws.{IsValid, Holds, stored, fill_bytes_lem, get_bit_lem}

stored-set_in_byte :
    (bytes : List ℕ) (i n q : ℕ) (value : Bool)
    → i < length bytes
    → n < 8
    → stored (set bytes i (set_in_byte (get_or bytes i 0) n value)) q
      ≡ (if (q / 8 == i) && leb n (q % 8) then value else stored bytes q)
stored-set_in_byte bytes i n q value h k = ground (
  arith,
  get_or-set_self bytes i (set_in_byte (get_or bytes i 0) n value) 0,
  get_or-set_ne bytes i (q / 8) (set_in_byte (get_or bytes i 0) n value) 0,
  digit-set_in_byte (get_or bytes i 0) n (bit_pos q) value,
)

-- A part of a byte, from bit `n` on, counted from the highest, under the condition `test`.
set_partial_lem :
    (test : Bool) (b : Boolset) (i n : ℕ) (value : Bool)
    → IsValid b
    → i < b.byte_size
    → n < 8
    → Holds b b.byte_size
        (λ q. if test && ((q / 8 == i) && leb n (q % 8)) then ok value else get_bit b q)
        (set_partial test b i n value)
unfolding set_partial byte_at put_byte
set_partial_lem false b i n value v h k = record {
  after = b;
  returns = refl;
  valid = v;
  same_size = refl;
  reads = λ q hq. refl;
}
set_partial_lem true b i n value v h k = record {
  after = after;
  returns = ground arith;
  valid = valid;
  same_size = refl;
  reads = λ q hq.
      get_bit_lem after valid q hq
      ∙ ap ok (stored-set_in_byte v.bytes i n q value (omega arith) k)
      ∙ ground (arith, get_bit_lem b v q hq);
}
  where
    bytes : List ℕ
    bytes = set v.bytes i (set_in_byte (get_or v.bytes i 0) n value)

    after : Boolset
    after = record b { buf = some bytes }

    valid : IsValid after
    valid = record {
      bytes = bytes;
      present = refl;
      sized = length-set v.bytes i (set_in_byte (get_or v.bytes i 0) n value) ∙ v.sized;
    }

fill_bytes-past :
    (b : Boolset) (i n byte : ℕ)
    → IsValid b
    → b.byte_size < i + n
    → fill_bytes b i byte n ≡ err bounds
unfolding fill_bytes
fill_bytes-past b i n byte v past = ground arith

-- The bits that `set_range` writes: the rest of the first byte, unless the range starts on one;
-- `size / 8` whole bytes from the second on; and, where the size is not of whole bytes, the byte
-- number `size / 8` of the set from bit `size % 8` on.
abbrev pub covered : ℕ → ℕ → ℕ → Bool
covered pos size q =
    (ltb 0 (pos % 8) && ((q / 8 == pos / 8) && leb (pos % 8) (q % 8)))
    || ((leb (pos / 8 + 1) (q / 8) && ltb (q / 8) (pos / 8 + 1 + size / 8))
        || (not (size % 8 == 0) && ((q / 8 == size / 8) && leb (size % 8) (q % 8))))

-- A range that gets through both tests, and whose whole bytes lie in the buffer, becomes the value
-- in the bits of `covered`; every other bit is kept.
pub set_range_lem :
    (b : Boolset) (pos size : ℕ) (value : Bool)
    → IsValid b
    → end_pos pos size < b.byte_size
    → pos / 8 + size / 8 < b.byte_size
    → Holds b b.byte_size
        (λ q. if covered pos size q then ok value else get_bit b q)
        (set_range b pos size value)
unfolding set_range
set_range_lem b pos size value v last fits =
    rw
      (
        leb-false b.byte_size (pos / 8) (omega arith),
        leb-false b.byte_size (end_pos pos size) last,
        first.returns,
        middle.returns,
        tail.returns,
      )
      (record {
        after = tail.after;
        returns = refl;
        valid = tail.valid;
        same_size = tail.same_size ∙ middle.same_size ∙ first.same_size;
        reads = λ q hq.
            tail.reads q (omega (arith, middle.same_size, first.same_size))
            ∙ ground (arith, middle.reads q (omega (arith, first.same_size)), first.reads q hq);
      })
  where
    first :
        Holds b b.byte_size
          (λ q.
            if ltb 0 (pos % 8) && ((q / 8 == pos / 8) && leb (pos % 8) (q % 8))
            then ok value
            else get_bit b q)
          (set_partial (ltb 0 (pos % 8)) b (pos / 8) (pos % 8) value)
    first =
        set_partial_lem (ltb 0 (pos % 8)) b (pos / 8) (pos % 8) value v (omega arith) (omega arith)

    middle :
        Holds first.after first.after.byte_size
          (λ q.
            if leb (pos / 8 + 1) (q / 8) && ltb (q / 8) (pos / 8 + 1 + size / 8)
            then ok value
            else get_bit first.after q)
          (fill_bytes first.after (pos / 8 + 1) (byte_value value) (size / 8))
    middle =
        fill_bytes_lem first.after (pos / 8 + 1) (size / 8) value first.valid
          (omega (arith, first.same_size))

    tail :
        Holds middle.after middle.after.byte_size
          (λ q.
            if not (size % 8 == 0) && ((q / 8 == size / 8) && leb (size % 8) (q % 8))
            then ok value
            else get_bit middle.after q)
          (set_partial (not (size % 8 == 0)) middle.after (size / 8) (size % 8) value)
    tail =
        set_partial_lem (not (size % 8 == 0)) middle.after (size / 8) (size % 8) value middle.valid
          (omega (arith, middle.same_size, first.same_size)) (omega arith)

-- A range of whole bytes that starts on a byte lands one byte late: the bits from `pos + 8` to
-- `pos + size + 8` become the value, and the first eight bits of the range keep theirs.
set_range_aligned :
    (b : Boolset) (pos size : ℕ) (value : Bool)
    → IsValid b
    → pos % 8 ≡ 0
    → size % 8 ≡ 0
    → pos / 8 + size / 8 < b.byte_size
    → b.byte_size ≤ 256
    → Holds b b.byte_size
        (λ q. if leb (pos + 8) q && ltb q (pos + 8 + size) then ok value else get_bit b q)
        (set_range b pos size value)
set_range_aligned b pos size value v hp hs fits small =
    let all : Holds b b.byte_size (λ q. if covered pos size q then ok value else get_bit b q)
        (set_range b pos size value) =
      set_range_lem b pos size value v (ground arith) fits in
    record {
      after = all.after;
      returns = all.returns;
      valid = all.valid;
      same_size = all.same_size;
      reads = λ q hq. all.reads q hq ∙ ground arith;
    }

-- A range is refused, and the set left alone, where it starts past the buffer or where its last
-- byte, counted in 8 bits, is not below the size.
pub set_range_refused :
    (b : Boolset) (pos size : ℕ) (value : Bool)
    → (b.byte_size ≤ pos / 8) ⊎ (b.byte_size ≤ end_pos pos size)
    → set_range b pos size value ≡ ok b
unfolding set_range
set_range_refused b pos size value out = ground arith

-- The last byte is kept in a u8. A range that starts in the buffer and whose end in 8 bits is below
-- the size gets through the test, and where its whole bytes do not lie in the buffer it writes past
-- the buffer.
set_range_overrun :
    (b : Boolset) (pos size : ℕ) (value : Bool)
    → IsValid b
    → pos / 8 < b.byte_size
    → end_pos pos size < b.byte_size
    → b.byte_size ≤ pos / 8 + size / 8
    → set_range b pos size value ≡ err bounds
unfolding set_range
set_range_overrun b pos size value v inside wrapped past =
    let first : Holds b b.byte_size
        (λ q.
          if ltb 0 (pos % 8) && ((q / 8 == pos / 8) && leb (pos % 8) (q % 8))
          then ok value
          else get_bit b q)
        (set_partial (ltb 0 (pos % 8)) b (pos / 8) (pos % 8) value) =
      set_partial_lem (ltb 0 (pos % 8)) b (pos / 8) (pos % 8) value v inside (omega arith) in
    rw
      (
        leb-false b.byte_size (pos / 8) inside,
        leb-false b.byte_size (end_pos pos size) wrapped,
        first.returns,
        fill_bytes-past first.after (pos / 8 + 1) (size / 8) (byte_value value) first.valid
            (omega (arith, first.same_size)),
      )
      refl

-- What a range comes to: it is refused, it writes past the buffer, or it gives the value to the bits
-- of `covered`.
pub data RangeResult (b : Boolset) (pos size : ℕ) (value : Bool) (r : Result Boolset) : Type 0 where
  refused :
      (b.byte_size ≤ pos / 8) ⊎ (b.byte_size ≤ end_pos pos size)
      → r ≡ ok b
      → RangeResult b pos size value r
  overrun :
      pos / 8 < b.byte_size
      → end_pos pos size < b.byte_size
      → b.byte_size ≤ pos / 8 + size / 8
      → r ≡ err bounds
      → RangeResult b pos size value r
  written :
      end_pos pos size < b.byte_size
      → pos / 8 + size / 8 < b.byte_size
      → Holds b b.byte_size (λ q. if covered pos size q then ok value else get_bit b q) r
      → RangeResult b pos size value r

-- In a valid set, any range: it leaves the set alone if it starts past the buffer or its last byte,
-- cut to 8 bits, is not below the size; otherwise, if its whole bytes do not lie in the buffer, it
-- writes past the buffer; otherwise it gives the value to the rest of its first byte, unless it
-- starts on one, to `size / 8` bytes from the next on, and, if the size is not of whole bytes, to
-- the byte number `size / 8` of the set from bit `size % 8` on, and keeps every other bit.
pub set_range-RangeResult :
    (b : Boolset) (pos size : ℕ) (value : Bool)
    → IsValid b
    → RangeResult b pos size value (set_range b pos size value)
set_range-RangeResult b pos size value v = elim (Bool-cases (ltb (pos / 8) b.byte_size)) [
  | inl inside ↦ elim (Bool-cases (ltb (end_pos pos size) b.byte_size)) [
    | inl last ↦
        accepted (ltb→lt (pos / 8) b.byte_size inside) (ltb→lt (end_pos pos size) b.byte_size last)
    | inr out ↦ refuse (inr (ltb_false→le (end_pos pos size) b.byte_size out))
  ]
  | inr out ↦ refuse (inl (ltb_false→le (pos / 8) b.byte_size out))
]
  where
    refuse :
        (b.byte_size ≤ pos / 8) ⊎ (b.byte_size ≤ end_pos pos size)
        → RangeResult b pos size value (set_range b pos size value)
    refuse out = RangeResult.refused out (set_range_refused b pos size value out)

    accepted :
        pos / 8 < b.byte_size
        → end_pos pos size < b.byte_size
        → RangeResult b pos size value (set_range b pos size value)
    accepted inside last = elim (Bool-cases (ltb (pos / 8 + size / 8) b.byte_size)) [
      | inl fits ↦
          let whole : pos / 8 + size / 8 < b.byte_size =
            ltb→lt (pos / 8 + size / 8) b.byte_size fits in
          RangeResult.written last whole (set_range_lem b pos size value v last whole)
      | inr over ↦
          let past : b.byte_size ≤ pos / 8 + size / 8 =
            ltb_false→le (pos / 8 + size / 8) b.byte_size over in
          RangeResult.overrun inside last past
            (set_range_overrun b pos size value v inside last past)
    ]
