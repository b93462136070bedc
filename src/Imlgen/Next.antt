-- ===== src/Imlgen/Next.antt =====
-- What writing the `next` field of a stored instruction does to the pool.
use koshka.Base.{ℕ, ◌+◌, ◌≤◌, ◌≡◌, refl, ap, sym, ◌∙◌, arith, some, length}
use koshka.Base.Result.{ok}
use koshka.Base.Slice.{overwrite, length-overwrite, slice-overwrite_self}
use koshka.Base.Slice.{slice-overwrite_below, slice-overwrite_above}
use koshka.Pool.{Pool, pool_read}
use koshka.Pool.Laws.{IsValid, Keeps, pool_read-valid, pool_write-valid}
use koshka.Iml.Types.{Instruction}
use koshka.Iml.Objects.{Object, Cell, bytes, length-bytes, assemble-bytes, load, IsAt}
use koshka.Iml.Objects.{sizeof_instruction}
use koshka.Imlgen.{set_next}

-- The instruction at `h` has its new `next`, and all else in the pool is as before.
pub record Patched (p : Pool Cell) (h : ℕ) (i : Instruction) (next : ℕ) (q : Pool Cell)
    : Type 0 where
  pub valid : IsValid q
  pub same_pos : q.pos ≡ p.pos
  pub same_size : q.alloc_size ≡ p.alloc_size
  pub patched : IsAt q h (Object.instruction (record i { next = next }))
  pub below : Keeps h p q
  pub above :
      (a n : ℕ)
      → h + sizeof_instruction ≤ a
      → a + n ≤ p.alloc_size
      → pool_read q a n ≡ pool_read p a n

pub set_next-Patched :
    (p : Pool Cell) (h : ℕ) (i : Instruction) (next : ℕ)
    → IsValid p
    → h + sizeof_instruction ≤ p.pos
    → IsAt p h (Object.instruction i)
    → (q : Pool Cell) × (set_next p h next ≡ ok q) × Patched p h i next q
unfolding set_next load
set_next-Patched p h i next v room at = (q, returns, changes)
  where
    x : Object
    x = Object.instruction (record i { next = next })

    q : Pool Cell
    q = record p { buf = some (overwrite h (bytes x) v.cells) }

    fits : h + length (bytes x) ≤ length v.cells
    fits = omega (arith, length-bytes x, v.sized, v.in_range)

    returns : set_next p h next ≡ ok q
    returns = rw at (pool_write-valid p v h (bytes x) (omega (arith, fits, v.sized)))

    valid : IsValid q
    valid = record {
      cells = overwrite h (bytes x) v.cells;
      present = refl;
      sized = length-overwrite h (bytes x) v.cells fits ∙ v.sized;
      in_range = v.in_range;
      small = v.small;
    }

    changes : Patched p h i next q
    changes = record {
      valid = valid;
      same_pos = refl;
      same_size = refl;
      patched =
          rw
            (
              ap (pool_read q h) (sym (length-bytes x))
                  ∙ pool_read-valid q valid h (length (bytes x)) (omega (arith, fits, v.sized))
                  ∙ ap ok (slice-overwrite_self h (bytes x) v.cells fits),
              assemble-bytes x,
            )
            refl;
      below = λ a n k.
          pool_read-valid q valid a n (omega (arith, v.in_range))
          ∙ ap ok (slice-overwrite_below a n h (bytes x) v.cells fits k)
          ∙ sym (pool_read-valid p v a n (omega (arith, v.in_range)));
      above = λ a n k l.
          pool_read-valid q valid a n l
          ∙ ap ok
              (slice-overwrite_above a n h (bytes x) v.cells (omega (arith, length-bytes x)) fits)
          ∙ sym (pool_read-valid p v a n l);
    }
