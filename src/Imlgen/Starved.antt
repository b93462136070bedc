-- ===== src/Imlgen/Starved.antt =====
-- `imlgen` where calloc refuses the IML pool its buffer.
use koshka.Base.{ℕ, zero, suc, ◌+◌, ◌*◌, ◌^◌, ◌≤◌, ◌<◌, ◌==◌, ltb, ◌≡◌, inl, inr, refl}
use koshka.Base.{arith, Bool, false, Bool-cases, List, ◌∷◌, u32}
use koshka.Base.Result.{err, Faults, Result-cases, fuel, bounds}
use koshka.Pool.{Pool, pool_read, pool_open, calloc}
use koshka.Pool.Missing.{NoBuffer}
use koshka.Iml.Objects.{Object, Cell, load}
use koshka.Iml.Starved.{push_object-Starves}
use koshka.Decode.Starved.{decode-Starves}
use koshka.Imlgen.{Program, arm_instr, set_next, link_decoded, imlgen_recurse, start, imlgen}

set_next-NoBuffer :
    (p : Pool Cell) (handle next : ℕ) → NoBuffer p → set_next p handle next ≡ err bounds
unfolding set_next load pool_read
set_next-NoBuffer p handle next n = rw n.missing refl

-- Without a word behind it, the instruction is to be linked in a pool that has no buffer.
last-Faults :
    (pos handle next : ℕ) (prog : Program)
    → NoBuffer prog.iml.pool
    → Faults (link_decoded pos handle false (next, prog))
unfolding link_decoded
last-Faults pos handle next prog n =
    (bounds, rw (set_next-NoBuffer prog.iml.pool handle next n) refl)

-- A call faults, whatever it finds.
imlgen_recurse-NoBuffer :
    (depth : ℕ) (prog : Program) (pos : ℕ)
    → NoBuffer prog.iml.pool
    → Faults (imlgen_recurse depth prog pos)
unfolding imlgen_recurse
imlgen_recurse-NoBuffer zero prog pos n = (fuel, refl)
imlgen_recurse-NoBuffer (suc depth) prog pos n = elim (Result-cases (arm_instr prog.arm_pool pos)) [
  | inl (e, torn) ↦ (e, rw torn refl)
  | inr (w, fetched) ↦ elim (decode-Starves w prog.iml n) [
    | inl (e, refused) ↦ (e, rw (fetched, refused) refl)
    | inr (i, st, decoded, n1) ↦ elim (push_object-Starves (Object.instruction i) st n1) [
      | inl (e, failed) ↦ (e, rw (fetched, decoded, failed) refl)
      | inr (h, st2, pushed, n2) ↦
          elim (Bool-cases (ltb (u32 (pos + 4)) prog.arm_pool.alloc_size)) [
            | inl more ↦
                let rest : Faults
                    (imlgen_recurse depth (record prog { iml = st2 }) (u32 (pos + 4))) =
                  imlgen_recurse-NoBuffer depth (record prog { iml = st2 }) (u32 (pos + 4)) n2 in
                (rest.0, rw (fetched, decoded, pushed, more, rest.1) refl)
            | inr done ↦
                let end_ : Faults (link_decoded pos h false (i.next, record prog { iml = st2 })) =
                  last-Faults pos h i.next (record prog { iml = st2 }) n2 in
                (end_.0, rw (fetched, decoded, pushed, done, end_.1) refl)
          ]
    ]
  ]
]

start-NoBuffer :
    (answers set_answers : List Bool) (arm_code : List ℕ) (size : ℕ)
    → 4 ≤ size
    → 12 * size < 2 ^ 32
    → NoBuffer (start (false ∷ answers) set_answers arm_code size).iml.pool
unfolding start pool_open calloc
start-NoBuffer answers set_answers arm_code size some_ small = record {
  missing = refl;
  sized = omega arith;
}

-- Where calloc refuses the buffer of the IML pool, `imlgen` faults on any ARM code of at least a word
-- and below 341 MB, since nothing looks at the answer.
pub imlgen_no_memory :
    (answers set_answers : List Bool) (arm_code : List ℕ) (size : ℕ)
    → 4 ≤ size
    → 12 * size < 2 ^ 32
    → Faults (imlgen (false ∷ answers) set_answers arm_code size)
unfolding imlgen
imlgen_no_memory answers set_answers arm_code size some_ small =
    let run : Faults (imlgen_recurse size (start (false ∷ answers) set_answers arm_code size) 0) =
      imlgen_recurse-NoBuffer size (start (false ∷ answers) set_answers arm_code size) 0
        (start-NoBuffer answers set_answers arm_code size some_ small) in
    (run.0, rw (not_empty size (omega arith), run.1) refl)
  where
    not_empty : (n : ℕ) → 0 < n → (n == 0) ≡ false
    not_empty n h = ground arith
