-- ===== src/Imlgen/Torn.antt =====
-- `imlgen` on code whose size is not a multiple of four.
use koshka.Base.{ℕ, zero, suc, ◌+◌, ◌*◌, ◌^◌, ◌≤◌, ◌<◌, ◌≡◌, arith, refl, ◌∙◌, ap, not}
use koshka.Base.{Bool, true, List, [], ◌∷◌, length, u32, lt→ltb, leb-false}
use koshka.Base.Result.{Fault, err, bounds}
use koshka.Pool.{all_granted, pool_read}
use koshka.Iml.Yields.{Ready, Ready-le}
use koshka.Imlgen.{Program, arm_instr, imlgen_recurse, imlgen, start}
use koshka.Imlgen.Stored.{Stored, store}
use koshka.Imlgen.Linked.{Listing, head-Listing}
use koshka.Imlgen.Generated.{code_pool, start-Ready, ==_no}

pub next_at : (k : ℕ) → 4 * k + 4 < 2 ^ 32 → u32 (4 * k + 4) ≡ 4 * suc k
next_at k h = omega arith

-- A call faults where the position behind its words is in the code and cannot be read.
imlgen_recurse_torn :
    (depth k : ℕ) (prog : Program) (words : List ℕ) (e : Fault)
    → length words < depth
    → Listing prog.arm_pool k words
    → 4 * (k + length words) < prog.arm_pool.alloc_size
    → prog.arm_pool.alloc_size < 2 ^ 32
    → arm_instr prog.arm_pool (4 * (k + length words)) ≡ err e
    → Ready prog.iml (192 * length words)
    → imlgen_recurse depth prog (4 * k) ≡ err e
unfolding imlgen_recurse
imlgen_recurse_torn zero k prog words e h l more small torn ready = absurd (omega arith)
imlgen_recurse_torn (suc depth) k prog [] e h l more small torn ready =
    rw (ap (arm_instr prog.arm_pool) {x = 4 * k} {y = 4 * (k + 0)} (omega arith), torn) refl
imlgen_recurse_torn (suc depth) k prog (w ∷ words) e h l more small torn ready =
    let s : Stored prog w (192 * length words) =
      store prog w (192 * length words) (head-Listing l).1 (Ready-le _ (omega arith) ready) in
    rw
      (
        (head-Listing l).0,
        s.decodes,
        s.pushes,
        lt→ltb (u32 (4 * k + 4)) prog.arm_pool.alloc_size (omega arith),
        next_at k (omega arith),
        imlgen_recurse_torn depth (suc k) (record prog { iml = s.after }) words e (omega arith)
            (head-Listing l).2 (omega arith) small
            (ap (arm_instr prog.arm_pool) {x = 4 * (suc k + length words)}
                {y = 4 * (k + suc (length words))} (omega arith)
              ∙ torn)
            s.ready,
      )
      refl

read_past :
    (arm_code : List ℕ) (pos : ℕ)
    → length arm_code < pos + 4
    → arm_instr (code_pool arm_code) pos ≡ err bounds
unfolding arm_instr pool_read
read_past arm_code pos h = rw (leb-false (pos + 4) (length arm_code) h) refl

-- Where words, at most 2^30 / 192 of them, each of them one that decode accepts, that is other
-- than 0, with fields that encode a bitmask if it is a bitwise operation with an immediate, and
-- with a shift of at most 31 if it is an operation on shifted 32-bit registers, fill all of the
-- ARM code but one to three bytes, and every calloc for the pool is granted, imlgen faults with a
-- read past the end of the code.
pub imlgen_torn :
    (answers set_answers : List Bool) (arm_code words : List ℕ)
    → all_granted answers ≡ true
    → 4 * length words < length arm_code
    → length arm_code < 4 * suc (length words)
    → 192 * length words ≤ 2 ^ 30
    → Listing (code_pool arm_code) 0 words
    → imlgen answers set_answers arm_code (length arm_code) ≡ err bounds
unfolding imlgen start
imlgen_torn answers set_answers arm_code words granted more less room listing =
    rw
      (
        ap not (==_no (length arm_code) 0 (omega arith)),
        imlgen_recurse_torn (length arm_code) 0
            (start answers set_answers arm_code (length arm_code)) words bounds (omega arith)
            listing (omega arith) (omega arith)
            (read_past arm_code (4 * (0 + length words)) (omega arith))
            (start-Ready answers set_answers arm_code (length words) granted less room),
      )
      refl
