-- ===== src/Imlgen/Typing.antt =====
-- What `imlgen` returns is well-typed, but for the unwritten tags of operations.
use koshka.Base.{ℕ, suc, ◌+◌, ◌≤◌}
use koshka.Pool.{Pool}
use koshka.Iml.Types.{Instruction}
use koshka.Iml.Objects.{Object, Cell, IsAt, sizeof_instruction}
use koshka.Iml.Typing.{BodyIsTyped}
use koshka.Imlgen.Chain.{Chain}
use koshka.Imlgen.Generated.{Generated}

-- At the handle a well-typed instruction stands inside the pool.
pub record InstructionAt (p : Pool Cell) (h : ℕ) (i : Instruction) : Type 0 where
  pub below : h + sizeof_instruction ≤ p.pos
  pub at : IsAt p h (Object.instruction i)
  pub typed : BodyIsTyped p i.body

-- A list of so many well-typed instructions, whose `next` fields lead on to later ones.
pub data IsTypedList (p : Pool Cell) : ℕ → ℕ → Type 0 where
  last : {h : ℕ} (i : Instruction) → InstructionAt p h i → IsTypedList p 1 h
  link :
      {n h : ℕ} (i : Instruction)
      → InstructionAt p h i
      → h + sizeof_instruction ≤ i.next
      → IsTypedList p n i.next
      → IsTypedList p (suc n) h
