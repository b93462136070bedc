-- ===== src/Imlgen/Generated.antt =====
-- `imlgen` over whole ARM code.
use koshka.Base.{ℕ, suc, ◌+◌, ◌*◌, ◌/◌, ◌^◌, ◌≤◌, ◌<◌, ◌≡◌, refl, ◌∙◌, arith, ◌==◌, not}
use koshka.Base.{ltb, Bool, true, false, ap, List, ◌∷◌, length, u32, some}
use koshka.Base.Result.{Result, ok}
use koshka.Pool.{Pool, all_granted, pool_open}
use koshka.Pool.Open.{pool_open-IsValid, pool_open-all_granted}
use koshka.Boolset.{get_bit}
use koshka.Boolset.Laws.{boolset_lem}
use koshka.Iml.Objects.{sizeof_instruction, blank}
use koshka.Iml.Yields.{Ready}
use koshka.Imlgen.{Program, start, imlgen, imlgen_recurse}
use koshka.Imlgen.Chain.{Chain}
use koshka.Imlgen.Linked.{Listing, Runnable, Linked, imlgen_recurse-Linked}

-- The pool that `imlgen` makes of its argument.
abbrev pub code_pool : List ℕ → Pool ℕ
code_pool arm_code = record { buf = some arm_code; alloc_size = length arm_code; pos = 0 }

-- The result of `imlgen`: all words linked from the handle on, in at most 192 bytes for each, and all
-- but the last marked.
-- `entry_point` stays 0, whatever the handle of the first instruction is.
pub record Generated (words : List ℕ) (r : Result Program) : Type 0 where
  pub handle : ℕ
  pub program : Program
  pub returns : r ≡ ok program
  pub chain : Chain program.iml.pool 0 words handle
  pub used : program.iml.pool.pos ≤ 192 * length words
  pub entry : program.entry_point ≡ 0
  pub marks :
      (q : ℕ)
      → q < length words
      → get_bit program.decoded_instrs q ≡ ok (ltb (q + 1) (length words))

-- The pool that `imlgen` starts with is ready for every instruction of the code.
pub start-Ready :
    (answers set_answers : List Bool) (arm_code : List ℕ) (n : ℕ)
    → all_granted answers ≡ true
    → length arm_code < 4 * suc n
    → 192 * n ≤ 2 ^ 30
    → Ready (start answers set_answers arm_code (length arm_code)).iml (192 * n)
unfolding start pool_open
start-Ready answers set_answers arm_code n granted size room = record {
  valid = pool_open-IsValid blank answers bytes granted (omega arith);
  granted = pool_open-all_granted blank answers bytes granted;
  small = omega arith;
  space = omega arith;
}
  where
    bytes : ℕ
    bytes = u32 (length arm_code / 4 * sizeof_instruction)

pub start-Runnable :
    (answers set_answers : List Bool) (arm_code words : List ℕ)
    → all_granted answers ≡ true
    → all_granted set_answers ≡ true
    → length arm_code ≡ 4 * length words
    → 192 * length words ≤ 2 ^ 30
    → Listing (code_pool arm_code) 0 words
    → Runnable (start answers set_answers arm_code (length arm_code)) 0 words
unfolding start
start-Runnable answers set_answers arm_code words granted set_granted size room listing = record {
  listing = listing;
  ends = omega arith;
  fits = omega arith;
  ready = start-Ready answers set_answers arm_code (length words) granted (omega arith) room;
  set_valid = (boolset_lem set_answers (length arm_code / 4) set_granted).0;
  set_room = omega (arith, size, (boolset_lem set_answers (length arm_code / 4) set_granted).1);
}

pub ==_no : (a b : ℕ) → b < a → (a == b) ≡ false
==_no a b h = ground arith

-- The linked instructions of the whole code are the result.
start-Generated :
    (answers set_answers : List Bool) (arm_code words : List ℕ)
    → all_granted set_answers ≡ true
    → length arm_code ≡ 4 * length words
    → {r : Result (ℕ × Program)}
    → (all : Linked (start answers set_answers arm_code (length arm_code)) 0 words r)
    → Generated words (ok (all.after))
unfolding start pool_open
start-Generated answers set_answers arm_code words set_granted size all = record {
  handle = all.handle;
  program = all.after;
  returns = refl;
  chain = all.chain;
  used = omega (arith, all.used);
  entry = all.same_entry;
  marks = λ q h.
      let fresh = boolset_lem set_answers (length arm_code / 4) set_granted in
      all.marks q (omega (arith, fresh.1)) ∙ ground (arith, fresh.3 q (omega arith));
}

-- On ARM code of whole words, at most 2^30 / 192 of them, each of them one that decode accepts,
-- that is other than 0, with fields that encode a bitmask if it is a bitwise operation with an
-- immediate, and with a shift of at most 31 if it is an operation on shifted 32-bit registers,
-- with every calloc granted, imlgen returns a program whose IML pool holds an instruction for
-- each word, linked by their next fields in the order of the code. Each has in that pool the
-- fields and the expression tree that the decoder takes the word for, which are those of the code
-- where it differs from the manual: bit 30 set is an addition; the reserved shift type is ROR and
-- the reserved shifts of an immediate are none; an addition or subtraction of an immediate reads
-- the stack pointer as zero and marks no flag as touched; a bitmask is cut to 32 bits; the offset
-- of a direct branch is neither scaled nor sign-extended; and a return from an exception or a
-- debug state, like a value that the manual leaves out, keeps the hint that a branch starts with.
-- The tag of an operation is unwritten, so its tree is read by the member of the union that was
-- written. The pool holds at most 192 bytes for each word, the set marks every word but the last,
-- and the entry point is 0.
pub imlgen-Generated :
    (answers set_answers : List Bool) (arm_code : List ℕ) (w : ℕ) (words : List ℕ)
    → all_granted answers ≡ true
    → all_granted set_answers ≡ true
    → length arm_code ≡ 4 * length (w ∷ words)
    → 192 * length (w ∷ words) ≤ 2 ^ 30
    → Listing (code_pool arm_code) 0 (w ∷ words)
    → Generated (w ∷ words) (imlgen answers set_answers arm_code (length arm_code))
unfolding imlgen
imlgen-Generated answers set_answers arm_code w words granted set_granted size room listing =
    let run : Runnable (start answers set_answers arm_code (length arm_code)) 0 (w ∷ words) =
      start-Runnable answers set_answers arm_code (w ∷ words) granted set_granted size room
        listing in
    let all : Linked (start answers set_answers arm_code (length arm_code)) 0 (w ∷ words) (
        imlgen_recurse (length arm_code) (start answers set_answers arm_code (length arm_code)) 0) =
      imlgen_recurse-Linked (length arm_code) 0
        (start answers set_answers arm_code (length arm_code)) w words (omega arith) run in
    rw (ap not (==_no (length arm_code) 0 (omega arith)), all.returns)
      (start-Generated answers set_answers arm_code (w ∷ words) set_granted size all)
