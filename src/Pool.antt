-- ===== src/Pool.antt =====
-- The growing pool of src/pool.{h,c}. The buffer is a list of cells, one for each byte; what a
-- byte is stays open, so that one model serves raw bytes and stored objects alike.
pub mod Laws
pub mod Grow
pub mod Push
pub mod Open
pub mod History
pub mod Missing
pub mod Misplaced
pub mod Total
use koshka.Base.{ℕ, ◌+◌, ◌-◌, ◌*◌, ◌/◌, ◌^◌, ltb, leb, ◌==◌, u32, if◌then◌else◌}
use koshka.Base.{Bool, true, false, ◌&&◌, ◌||◌, Option, none, some, List, [], ◌∷◌}
use koshka.Base.{length, replicate}
use koshka.Base.Result.{Result, ok, err, bounds, undefined, assertion, guard, ◌>>=◌, ◌>>◌}
use koshka.Base.Slice.{slice, overwrite}

-- `pool_t`; `none` is a null `data`. The pool owns its buffer, and nothing else points into it.
pub record Pool (A : Type 0) : Type 0 where
  pub buf : Option (List A)
  pub alloc_size : ℕ
  pub pos : ℕ

-- A pool, and what the next calls of calloc will answer. Past the end of the list they succeed.
pub record Store (A : Type 0) : Type 0 where
  pub pool : Pool A
  pub answers : List Bool

-- No call of calloc is refused.
abbrev pub all_granted : List Bool → Bool
all_granted [] = true
all_granted (a ∷ answers) = a && all_granted answers

-- `pool_handle`: a u32, like the sizes.
abbrev pub PoolHandle : Type 0
PoolHandle = ℕ

-- POOL_INVALID_HANDLE
abbrev pub pool_invalid_handle : PoolHandle
pool_invalid_handle = 2 ^ 32 - 1

unfoldable pub pool_can_hold : {A : Type 0} → Pool A → ℕ → Bool
pool_can_hold pool size = ltb (u32 (pool.pos + size)) pool.alloc_size

abbrev is_null : {A : Type 0} → Option A → Bool
is_null none = true
is_null (some a) = false

unfoldable pub pool_empty : {A : Type 0} → Pool A → Bool
pool_empty pool = (pool.pos == 0) || ((pool.alloc_size == 0) || is_null pool.buf)

-- `n` bytes read through the pointer that `pool_getdata(pool, handle)` returns. An access
-- through a null pointer, or past the buffer, is a fault; one of no bytes touches nothing.
unfoldable pub pool_read : {A : Type 0} → Pool A → ℕ → ℕ → Result (List A)
pool_read pool handle n = elim pool.buf [
  | none ↦ if n == 0 then ok [] else err bounds
  | some buf ↦ if leb (handle + n) (length buf) then ok (slice handle n buf) else err bounds
]

-- memcpy of `bs` to that pointer.
unfoldable pub pool_write : {A : Type 0} → Pool A → ℕ → List A → Result (Pool A)
pool_write pool handle bs = elim pool.buf [
  | none ↦ if length bs == 0 then ok pool else err bounds
  | some buf ↦
      if leb (handle + length bs) (length buf)
      then ok (record pool { buf = some (overwrite handle bs buf) })
      else err bounds
]

-- `pool_close`
unfoldable pub pool_close : {A : Type 0} → Pool A → Pool A
pool_close pool = record { buf = none; alloc_size = 0; pos = 0 }

-- The size that a full pool grows to: `(alloc_size + request) * 1.5`. The sum is of 32 bits, the
-- product a double, which holds it exactly; past 32 bits the conversion back is undefined.
abbrev pub grown_size : {A : Type 0} → Pool A → ℕ → ℕ
grown_size pool request = u32 (pool.alloc_size + request) * 3 / 2

-- What follows a calloc in `pool_push`: a null pointer gives up; a buffer gets the old contents.
unfoldable pub move_to : {A : Type 0} → Pool A → ℕ → Option (List A) → Result (Option (Pool A))
move_to pool newsize none = ok none
move_to pool newsize (some newbuf) = do
  old ← pool_read pool 0 pool.alloc_size
  let moved = overwrite 0 old newbuf
  ok (some (record pool { buf = some moved; alloc_size = newsize }))

-- Copying the new data in, and moving the position past the bytes that were asked for.
unfoldable pub append_data : {A : Type 0} → Pool A → List Bool → List A → ℕ → Result (ℕ × Store A)
append_data pool answers bs request = do
  written ← pool_write pool pool.pos bs
  let pool' = record written { pos = u32 (pool.pos + request) }
  ok (pool.pos, record { pool = pool'; answers = answers })

-- What `pool_push` does after the reallocation.
unfoldable pub append_grown :
    {A : Type 0} → Store A → Option (Pool A) × List Bool → List A → ℕ → Result (ℕ × Store A)
append_grown st (none, answers) bs request =
    ok (pool_invalid_handle, record st { answers = answers })
append_grown st (some pool, answers) bs request = append_data pool answers bs request

module _ {A : Type 0} (zero_byte : A) where
  -- calloc(1, n)
  unfoldable pub calloc : List Bool → ℕ → Option (List A) × List Bool
  calloc [] n = (some (replicate n zero_byte), [])
  calloc (true ∷ answers) n = (some (replicate n zero_byte), answers)
  calloc (false ∷ answers) n = (none, answers)

  unfoldable pub pool_open : List Bool → ℕ → Store A
  pool_open answers init_size =
      let (data_, answers') = calloc answers init_size in
      record { pool = record { buf = data_; alloc_size = init_size; pos = 0 }; answers = answers' }

  -- memset(data, 0, alloc_size), and the position back to the start.
  unfoldable pub pool_drain : Pool A → Result (Pool A)
  pool_drain pool = do
    cleared ← pool_write pool 0 (replicate pool.alloc_size zero_byte)
    ok (record cleared { pos = 0 })

  -- The reallocation in `pool_push`; `none` in place of the pool if calloc failed.
  unfoldable pub grow : Store A → ℕ → Result (Option (Pool A) × List Bool)
  grow st request = do
    let newsize = grown_size st.pool request
    guard (ltb newsize (2 ^ 32)) undefined
    guard (ltb st.pool.alloc_size newsize) assertion
    let answered = calloc st.answers newsize
    moved ← move_to st.pool newsize answered.0
    ok (moved, answered.1)

  -- `pool_push(pool, bs, data_size, alloc_size)`, with `data_size` the length of `bs`.
  unfoldable pub pool_push : Store A → List A → ℕ → Result (ℕ × Store A)
  pool_push st bs alloc_size =
      let request = if alloc_size == 0 then length bs else alloc_size in
      if pool_can_hold st.pool request
      then append_data st.pool st.answers bs request
      else (grow st request >>= λ grown. append_grown st grown bs request)
