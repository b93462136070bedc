-- ===== src/Pool/Misplaced.antt =====
-- What is put into a buffer that is too small for what was asked for.
use koshka.Base.{ℕ, ◌+◌, ◌^◌, ◌≤◌, ◌<◌, ltb, u32, ◌≡◌, refl, arith}
use koshka.Base.{inl, inr, Bool-cases, Bool, List, length}
use koshka.Base.{ltb→lt, ltb_false→le}
use koshka.Base.Result.{Result, ok, err, bounds}
use koshka.Base.{◌⊎◌}
use koshka.Pool.{Pool, Store, pool_read, pool_write}
use koshka.Pool.{append_data}
use koshka.Pool.Laws.{IsValid, Keeps, pool_write-valid, pool_read-valid}
use koshka.Base.{ap, sym, ◌∙◌, some}
use koshka.Base.Slice.{overwrite, length-overwrite, slice-overwrite_self, slice-overwrite_below}
use koshka.Pool.Grow.{}

-- A push whose bytes are stored at the old position, but whose new position is cut to 32 bits, or
-- past the buffer.
pub record Misplaced {A : Type 0} (p : Pool A) (bs : List A) (request : ℕ)
    (r : Result (ℕ × Store A)) : Type 0 where
  pub after : Store A
  pub returns : r ≡ ok (p.pos, after)
  pub stored : pool_read after.pool p.pos (length bs) ≡ ok bs
  pub kept : Keeps p.pos p after.pool
  pub moved : after.pool.pos ≡ u32 (p.pos + request)
  pub wrong : (after.pool.pos < p.pos + request) ⊎ (after.pool.alloc_size < after.pool.pos)

module _ {A : Type 0} where
  pub append_data-past :
      (p : Pool A) (v : IsValid p) (answers : List Bool) (bs : List A) (request : ℕ)
      → p.alloc_size < p.pos + length bs
      → append_data p answers bs request ≡ err bounds
  unfolding append_data pool_write
  append_data-past p v answers bs request past = ground arith

  -- The bytes are stored as those of a push of no more than them; the position is not.
  pub append_data-Misplaced :
      (p : Pool A) (v : IsValid p) (answers : List Bool) (bs : List A) (request : ℕ)
      → p.pos + length bs ≤ p.alloc_size
      → p.alloc_size < p.pos + request
      → Misplaced p bs request (append_data p answers bs request)
  unfolding append_data pool_read
  append_data-Misplaced p v answers bs request fits past = record {
    after = record {
      pool = record p { buf = some cells; pos = u32 (p.pos + request) };
      answers = answers;
    };
    returns = rw (pool_write-valid p v p.pos bs fits) refl;
    stored =
        pool_read-valid written valid p.pos (length bs) fits
        ∙ ap ok (slice-overwrite_self p.pos bs v.cells (omega (arith, v.sized)));
    kept = λ h n k.
        pool_read-valid written valid h n (omega (arith, v.in_range))
        ∙ ap ok (slice-overwrite_below h n p.pos bs v.cells (omega (arith, v.sized)) k)
        ∙ sym (pool_read-valid p v h n (omega (arith, v.in_range)));
    moved = refl;
    wrong = elim (Bool-cases (ltb (p.pos + request) (2 ^ 32))) [
      | inl below ↦
          let small : p.pos + request < 2 ^ 32 = ltb→lt (p.pos + request) (2 ^ 32) below in
          inr (omega (arith, small))
      | inr wraps ↦
          let large : 2 ^ 32 ≤ p.pos + request = ltb_false→le (p.pos + request) (2 ^ 32) wraps in
          inl (omega (arith, large))
    ];
  }
    where
      cells : List A
      cells = overwrite p.pos bs v.cells

      written : Pool A
      written = record p { buf = some cells }

      valid : IsValid written
      valid = record {
        cells = cells;
        present = refl;
        sized = length-overwrite p.pos bs v.cells (omega (arith, v.sized)) ∙ v.sized;
        in_range = v.in_range;
        small = v.small;
      }
