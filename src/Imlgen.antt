-- ===== src/Imlgen.antt =====
-- The loop of src/imlgen/iml.cxx over the ARM code: `program`, `imlgen_recurse` and `imlgen`.
pub mod Next
pub mod Chain
pub mod Stored
pub mod Linked
pub mod Generated
pub mod Depth
pub mod Computed
pub mod Torn
pub mod Refused
pub mod Typing
pub mod Starved
use koshka.Base.{ℕ, zero, suc, ◌+◌, ◌*◌, ◌/◌, ltb, ◌==◌, not, u32, if◌then◌else◌}
use koshka.Base.{Bool, true, some, List}
use koshka.Base.{little_endian}
use koshka.Base.Result.{Result, ok, err, assertion, undefined, fuel, guard, ◌>>=◌, ◌>>◌}
use koshka.Pool.{Pool, PoolHandle, Store, pool_open, pool_read, pool_write}
use koshka.Boolset.{Boolset, boolset, get_bit, set_bit}
use koshka.Iml.Objects.{Object, Cell, blank, bytes, load, sizeof_instruction, push_object}
use koshka.Decode.{decode}

-- `program`. The answers of calloc that the IML pool will get stand beside it.
pub record Program : Type 0 where
  pub iml : Store Cell
  pub arm_pool : Pool ℕ
  pub entry_point : PoolHandle
  pub decoded_instrs : Boolset

-- `*(u32*)pool_getdata(prog->arm_pool, pos)`
unfoldable pub arm_instr : Pool ℕ → ℕ → Result ℕ
arm_instr arm_pool pos = do word ← pool_read arm_pool pos 4; ok (little_endian word)

abbrev pub with_next : Object → ℕ → Result Object
with_next (Object.expression e) next = err undefined
with_next (Object.instruction i) next = ok (Object.instruction (record i { next = next }))

-- `((instruction*)pool_getdata(pool, handle))->next = next`
unfoldable pub set_next : Pool Cell → ℕ → ℕ → Result (Pool Cell)
set_next pool handle next = do
  found ← load pool handle sizeof_instruction
  changed ← with_next found next
  pool_write pool handle (bytes changed)

abbrev pub with_pool : Program → Pool Cell → Program
with_pool prog pool = record prog { iml = record { pool = pool; answers = prog.iml.answers } }

-- The part of the body after the recursive call: the mark, where there was one, the `next` field,
-- and the test of the mark, which nothing uses.
unfoldable pub link_decoded : ℕ → ℕ → Bool → ℕ × Program → Result (ℕ × Program)
link_decoded pos handle recursed (next, prog) = do
  marked ← if recursed then set_bit prog.decoded_instrs (pos / 4) true else ok prog.decoded_instrs
  pool ← set_next prog.iml.pool handle next
  dest_already_decoded ← get_bit marked (pos / 4)
  ok (handle, with_pool (record prog { decoded_instrs = marked }) pool)

-- `imlgen_recurse(prog, pos)`, with fuel for the depth of the recursion.
unfoldable pub imlgen_recurse : ℕ → Program → ℕ → Result (ℕ × Program)
imlgen_recurse zero prog pos = err fuel
imlgen_recurse (suc depth) prog pos = do
  instr ← arm_instr prog.arm_pool pos
  decoded ← decode instr prog.iml
  let first = decoded.0
  pushed ← push_object (Object.instruction first) decoded.1
  let prog' = record prog { iml = pushed.1 }
  let more = ltb (u32 (pos + 4)) prog.arm_pool.alloc_size
  let rest = imlgen_recurse depth prog' (u32 (pos + 4))
  continued ← if more then rest else ok (first.next, prog')
  link_decoded pos pushed.0 more continued

-- The program that `imlgen` starts from. The first list is what calloc answers to the pool, the
-- second what it answers to the set.
unfoldable pub start : List Bool → List Bool → List ℕ → ℕ → Program
start answers set_answers arm_code size =
    let num_instrs = size / 4 in
    record {
      iml = pool_open blank answers (u32 (num_instrs * sizeof_instruction));
      arm_pool = record { buf = some arm_code; alloc_size = size; pos = 0 };
      entry_point = 0;
      decoded_instrs = boolset set_answers num_instrs;
    }

-- `imlgen(arm_code, size)`, with `arm_code` the memory at the pointer. The handle that the recursion
-- returns is dropped. One round of fuel for each byte is more than the positions there are.
unfoldable pub imlgen : List Bool → List Bool → List ℕ → ℕ → Result Program
imlgen answers set_answers arm_code size = do
  guard (not (size == 0)) assertion
  done ← imlgen_recurse size (start answers set_answers arm_code size) 0
  ok (done.1)
