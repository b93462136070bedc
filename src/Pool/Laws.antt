-- ===== src/Pool/Laws.antt =====
-- The invariant of a pool, and what a push into a buffer with room promises.
use koshka.Base.{ℕ, ◌+◌, ◌*◌, ◌^◌, ◌≤◌, ◌<◌, u32, ◌≡◌, refl, arith}
use native.Mathlib.Nat.{le_refl}
use koshka.Base.{◌⊎◌, inl, ap, sym, ◌∙◌, Bool, true, some, List, length}
use koshka.Base.Result.{Result, ok}
use koshka.Base.Slice.{slice, overwrite, length-overwrite, slice-overwrite_self}
use koshka.Base.Slice.{slice-overwrite_below}
use koshka.Pool.{Pool, Store, all_granted, pool_read, pool_write}
use koshka.Pool.{append_data, grown_size}

module _ {A : Type 0} where
  -- The buffer is there and of the size that the pool says, and the position is inside it.
  pub record IsValid (p : Pool A) : Type 0 where
    pub cells : List A
    pub present : p.buf ≡ some cells
    pub sized : length cells ≡ p.alloc_size
    pub in_range : p.pos ≤ p.alloc_size
    pub small : p.alloc_size < 2 ^ 32

  -- Every byte below `limit` reads the same from `q` as from `p`.
  abbrev pub Keeps : ℕ → Pool A → Pool A → Type 0
  Keeps limit p q = (h n : ℕ) → h + n ≤ limit → pool_read q h n ≡ pool_read p h n

  pub pool_read-valid :
      (p : Pool A) (v : IsValid p) (h n : ℕ)
      → h + n ≤ p.alloc_size
      → pool_read p h n ≡ ok (slice h n v.cells)
  unfolding pool_read
  pool_read-valid p v h n k = ground arith

  pub pool_write-valid :
      (p : Pool A) (v : IsValid p) (h : ℕ) (bs : List A)
      → h + length bs ≤ p.alloc_size
      → pool_write p h bs ≡ ok (record p { buf = some (overwrite h bs v.cells) })
  unfolding pool_write
  pool_write-valid p v h bs k = ground arith

  -- A push onto `p` that succeeded: its handle is the old position, the bytes are readable through
  -- it, and everything that was stored before is still readable through its own handle.
  pub record Pushed (p : Pool A) (answers : List Bool) (bs : List A) (request : ℕ)
      (r : Result (ℕ × Store A)) : Type 0 where
    pub after : Store A
    pub returns : r ≡ ok (p.pos, after)
    pub valid : IsValid after.pool
    pub advanced : after.pool.pos ≡ p.pos + request
    pub stored : pool_read after.pool p.pos (length bs) ≡ ok bs
    pub kept : Keeps p.pos p after.pool
    pub grants : all_granted answers ≡ true → all_granted after.answers ≡ true
    pub bounded :
        (after.pool.alloc_size ≤ p.alloc_size)
        ⊎ (after.pool.alloc_size * 2 ≤ (p.pos + request + request) * 3)

  pub append_data-Pushed :
      (p : Pool A) (v : IsValid p) (answers : List Bool) (bs : List A) (request : ℕ)
      → length bs ≤ request
      → p.pos + request ≤ p.alloc_size
      → Pushed p answers bs request (append_data p answers bs request)
  unfolding append_data
  append_data-Pushed p v answers bs request short fits = record {
    after = record { pool = pool'; answers = answers };
    returns = rw (pool_write-valid p v p.pos bs (omega arith));
    valid = valid';
    advanced = omega arith;
    stored =
        pool_read-valid pool' valid' p.pos (length bs) (omega arith)
        ∙ ap ok (slice-overwrite_self p.pos bs v.cells (omega arith));
    grants = λ h. h;
    bounded = inl (le_refl p.alloc_size);
    kept = λ h n k.
        pool_read-valid pool' valid' h n (omega arith)
        ∙ ap ok (slice-overwrite_below h n p.pos bs v.cells (omega arith) k)
        ∙ sym (pool_read-valid p v h n (omega arith));
  }
    where
      pool' : Pool A
      pool' = record p { buf = some (overwrite p.pos bs v.cells); pos = u32 (p.pos + request) }

      valid' : IsValid pool'
      valid' = record {
        cells = overwrite p.pos bs v.cells;
        present = refl;
        sized = length-overwrite p.pos bs v.cells (omega arith) ∙ v.sized;
        in_range = omega arith;
        small = v.small;
      }

  -- The room that a request needs, and the sizes up to which nothing overflows.
  pub record Fits (p : Pool A) (request : ℕ) : Type 0 where
    pub wanted : 0 < request
    pub no_overflow : (p.alloc_size + request) * 3 < 2 ^ 33

  -- The larger size is of 32 bits, and larger.
  pub record Grows (p : Pool A) (request : ℕ) : Type 0 where
    pub below : grown_size p request < 2 ^ 32
    pub more : p.alloc_size < grown_size p request

  pub Fits-Grows : (p : Pool A) (request : ℕ) → Fits p request → Grows p request
  Fits-Grows p request fits = record { below = omega (arith); more = omega (arith) }
