-- ===== src/Imlgen/Depth.antt =====
-- How deep the calls of `imlgen_recurse` nest.
use koshka.Base.{ℕ, zero, suc, ◌+◌, ◌*◌, ◌^◌, ◌≤◌, ◌≡◌, refl, sym, ◌∙◌, arith, Bool-cases, inl, inr}
use koshka.Base.{Bool, true, List, [], ◌∷◌, length, u32, lt→ltb, ltb, ltb→lt, ltb_false→le, ◌↔◌}
use koshka.Base.Result.{ok, err, ok≢err, fuel}
use koshka.Pool.{all_granted}
use koshka.Imlgen.{Program, imlgen_recurse, start}
use koshka.Imlgen.Stored.{Stored}
use koshka.Imlgen.Linked.{
  Listing, head-Listing, Runnable, Linked, tail-Runnable, store_head, imlgen_recurse-Linked,
}
use koshka.Imlgen.Generated.{code_pool, start-Runnable}
use koshka.Imlgen.Torn.{next_at}

-- With a round of fuel for fewer calls than there are words the last one finds none.
imlgen_recurse_shallow :
    (depth k : ℕ) (prog : Program) (w : ℕ) (words : List ℕ)
    → depth ≤ length words
    → Runnable prog k (w ∷ words)
    → imlgen_recurse depth prog (4 * k) ≡ err fuel
unfolding imlgen_recurse
imlgen_recurse_shallow zero k prog w words h run = refl
imlgen_recurse_shallow (suc depth) k prog w [] h run = absurd (omega arith)
imlgen_recurse_shallow (suc depth) k prog w (v ∷ words) h run =
    let s : Stored prog w (192 * suc (length words)) = store_head run in
    rw
      (
        (head-Listing run.listing).0,
        s.decodes,
        s.pushes,
        lt→ltb (u32 (4 * k + 4)) prog.arm_pool.alloc_size (omega (arith, run.ends, run.fits)),
        next_at k (omega (arith, run.fits)),
        imlgen_recurse_shallow depth (suc k) (record prog { iml = s.after }) v words (omega arith)
            (tail-Runnable run s),
      )
      refl

-- On ARM code of whole words, at most 2^30 / 192 of them, each of them one that decode accepts,
-- that is other than 0, with fields that encode a bitmask if it is a bitwise operation with an
-- immediate, and with a shift of at most 31 if it is an operation on shifted 32-bit registers,
-- with every calloc granted, imlgen_recurse returns if and only if its calls may nest as deep as
-- there are words, since each word is decoded in a call inside the call for the word before it.
pub imlgen_recurse-depth :
    (depth : ℕ) (answers set_answers : List Bool) (arm_code : List ℕ) (w : ℕ) (words : List ℕ)
    → all_granted answers ≡ true
    → all_granted set_answers ≡ true
    → length arm_code ≡ 4 * length (w ∷ words)
    → 192 * length (w ∷ words) ≤ 2 ^ 30
    → Listing (code_pool arm_code) 0 (w ∷ words)
    → ((r : ℕ × Program) × (imlgen_recurse depth
            (start answers set_answers arm_code (length arm_code))
            0
          ≡ ok r))
      ↔ (length (w ∷ words) ≤ depth)
imlgen_recurse-depth depth answers set_answers arm_code w words granted set_granted size room
      listing =
    (
      λ r. elim (Bool-cases (ltb (length words) depth)) [
        | inl deep ↦ ltb→lt (length words) depth deep
        | inr shallow ↦ absurd (
            ok≢err (
              sym r.1
              ∙ imlgen_recurse_shallow depth 0 begin w words
                  (ltb_false→le (length words) depth shallow) run))
      ],
      λ deep.
          let all : Linked begin 0 (w ∷ words) (imlgen_recurse depth begin 0) =
            imlgen_recurse-Linked depth 0 begin w words deep run in
          ((all.handle, all.after), all.returns),
    )
  where
    begin : Program
    begin = start answers set_answers arm_code (length arm_code)

    run : Runnable begin 0 (w ∷ words)
    run =
        start-Runnable answers set_answers arm_code (w ∷ words) granted set_granted size room
          listing
