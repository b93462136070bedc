-- ===== src/Boolset/History.antt =====
-- A set over its whole life: made, and written to by any calls in any order.
use mathlib.Core.Path.{subst}
use koshka.Base.{ℕ, ◌+◌, ◌*◌, ◌/◌, ◌<◌, ◌≤◌, ◌==◌, if◌then◌else◌, ◌≡◌, refl, ◌⊎◌, sym, ◌∙◌}
use koshka.Base.{arith, Bool, true, false, List}
use koshka.Base.Result.{ok-inj, Result, ok}
use koshka.Pool.{all_granted}
use koshka.Boolset.{Boolset, boolset, get_bit, set_bit, set_range, set_all, end_pos}
use koshka.Boolset.Laws.{IsValid, Holds, boolset_lem, set_bit_lem, set_all_lem}
use koshka.Boolset.Ranges.{covered, set_range_lem, set_range_refused}

-- What the code makes of the calls so far, which is not always what they are meant to do: a function from positions to bits. calloc did not
-- refuse, `set_bit` was called with positions of the buffer, and a range that passed the tests had
-- its whole bytes in the buffer. The bit that `set_bit` leaves is true whatever was passed.
pub data Run : (ℕ → Bool) → Boolset → Type 0 where
  made :
      (answers : List Bool) (bit_count : ℕ)
      → all_granted answers ≡ true
      → Run (λ q. false) (boolset answers bit_count)
  bit :
      {bits : ℕ → Bool} {b b' : Boolset} (pos : ℕ) (value : Bool)
      → Run bits b
      → pos < b.byte_size * 8
      → set_bit b pos value ≡ ok b'
      → Run (λ q. if q == pos then true else bits q) b'
  range :
      {bits : ℕ → Bool} {b b' : Boolset} (pos size : ℕ) (value : Bool)
      → Run bits b
      → end_pos pos size < b.byte_size
      → pos / 8 + size / 8 < b.byte_size
      → set_range b pos size value ≡ ok b'
      → Run (λ q. if covered pos size q then value else bits q) b'
  refused :
      {bits : ℕ → Bool} {b b' : Boolset} (pos size : ℕ) (value : Bool)
      → Run bits b
      → (b.byte_size ≤ pos / 8) ⊎ (b.byte_size ≤ end_pos pos size)
      → set_range b pos size value ≡ ok b'
      → Run bits b'
  all :
      {bits : ℕ → Bool} {b b' : Boolset} (value : Bool)
      → Run bits b
      → set_all b value ≡ ok b'
      → Run (λ q. value) b'

record Refines (bits : ℕ → Bool) (b : Boolset) : Type 0 where
  valid : IsValid b
  reads : (q : ℕ) → q < b.byte_size * 8 → get_bit b q ≡ ok (bits q)

Holds-Refines :
    {b b' : Boolset} {size : ℕ} {read : ℕ → Result Bool} {r : Result Boolset} (bits : ℕ → Bool)
    → ((q : ℕ) → q < size * 8 → read q ≡ ok (bits q))
    → Holds b size read r
    → r ≡ ok b'
    → Refines bits b'
Holds-Refines bits agree h e = subst (Refines bits) (ok-inj (sym h.returns ∙ e)) (record {
  valid = h.valid;
  reads = λ q hq. h.reads q (omega (arith, h.same_size)) ∙ agree q (omega (arith, h.same_size));
})

chosen :
    (test value old : Bool) {r : Result Bool}
    → r ≡ ok old
    → (if test then ok value else r) ≡ ok (if test then value else old)
chosen true value old e = refl
chosen false value old e = e

Run-Refines : {bits : ℕ → Bool} {b : Boolset} → Run bits b → Refines bits b
Run-Refines (made answers bit_count granted) =
    let fresh = boolset_lem answers bit_count granted in record { valid = fresh.0; reads = fresh.3 }
Run-Refines (bit {bits = bits} {b = b} pos value run h e) =
    let past : Refines bits b = Run-Refines run in
    Holds-Refines (λ q. if q == pos then true else bits q) (λ q hq. ground (arith, past.reads q hq))
      (set_bit_lem b pos value past.valid h) e
Run-Refines (range {bits = bits} {b = b} pos size value run last fits e) =
    let past : Refines bits b = Run-Refines run in
    Holds-Refines (λ q. if covered pos size q then value else bits q)
      (λ q hq. chosen (covered pos size q) value (bits q) (past.reads q hq))
      (set_range_lem b pos size value past.valid last fits) e
Run-Refines (refused {bits = bits} {b = b} pos size value run out e) =
    subst (Refines bits) (ok-inj (sym (set_range_refused b pos size value out) ∙ e))
      (Run-Refines run)
Run-Refines (all {bits = bits} {b = b} value run e) =
    let past : Refines bits b = Run-Refines run in
    Holds-Refines (λ q. value) (λ q hq. refl) (set_all_lem b value past.valid) e

-- After any calls of set_bit, set_range and set_all in any order since the set was made by a
-- calloc that did not refuse, get_bit reads at every position of the buffer what the code writes
-- there by these calls, and not always what they are meant to write: set_bit makes its bit true
-- whichever value is passed, set_range, if it is not refused, gives the value to the rest of its
-- first byte if it does not start on one, to size / 8 bytes from the next on, and, if the size is
-- not of whole bytes, to the byte number size / 8 of the set from bit size % 8 on, and set_all
-- gives the value to every bit. A position of set_bit is in the buffer, and a range that gets
-- through the tests has its whole bytes in the buffer.
pub Run-reads :
    {bits : ℕ → Bool} {b : Boolset} (q : ℕ)
    → Run bits b
    → q < b.byte_size * 8
    → get_bit b q ≡ ok (bits q)
Run-reads q run h = (Run-Refines run).reads q h
