-- ===== src/Pool/History.antt =====
-- A pool over its whole life: opened, pushed into and drained in any order.
use mathlib.Core.Path.{subst}
use mathlib.Core.List.{Memᴰ}
use mathlib.Core.List.Memᴰ
use koshka.Base.{ℕ, ◌+◌, ◌^◌, ◌≤◌, ◌<◌, ◌≡◌, inl, inr, refl, sym, ◌∙◌, arith}
use koshka.Base.{Bool, List, [], ◌∷◌, length, some, replicate, length-replicate}
use koshka.Base.Result.{ok-inj, Result, ok}
use koshka.Base.Slice.{overwrite, length-overwrite}
use koshka.Base.{◌≢◌, none, ap}
use koshka.Pool.{pool_invalid_handle}
use koshka.Pool.{Pool, Store, pool_open, pool_push, pool_drain, pool_read}
use koshka.Pool.Laws.{IsValid, Fits, Pushed, pool_write-valid}
use koshka.Pool.Push.{requested, pool_push-cases}
use koshka.Pool.Open.{pool_open-IsValid_of_buffer}

module _ {A : Type 0} (zero_byte : A) where
  -- What was pushed since the pool was opened or drained, the latest first, each with the handle
  -- that came back. calloc gave the first buffer and may refuse any later one, no request was 0 or
  -- smaller than its bytes, and no size overflows.
  pub data History : List (ℕ × List A) → Store A → Type 0 where
    opened :
        (answers : List Bool) (init_size : ℕ)
        → (pool_open zero_byte answers init_size).pool.buf ≢ none
        → init_size < 2 ^ 32
        → History [] (pool_open zero_byte answers init_size)
    pushed :
        {log : List (ℕ × List A)} {st st' : Store A} (bs : List A) (alloc_size handle : ℕ)
        → History log st
        → length bs ≤ requested zero_byte bs alloc_size
        → Fits st.pool (requested zero_byte bs alloc_size)
        → pool_push zero_byte st bs alloc_size ≡ ok (handle, st')
        → handle ≢ pool_invalid_handle
        → History ((handle, bs) ∷ log) st'
    refused :
        {log : List (ℕ × List A)} {st st' : Store A} (bs : List A) (alloc_size : ℕ)
        → History log st
        → length bs ≤ requested zero_byte bs alloc_size
        → Fits st.pool (requested zero_byte bs alloc_size)
        → pool_push zero_byte st bs alloc_size ≡ ok (pool_invalid_handle, st')
        → History log st'
    drained :
        {log : List (ℕ × List A)} {st : Store A} (pool : Pool A)
        → History log st
        → pool_drain zero_byte st.pool ≡ ok pool
        → History [] (record st { pool = pool })

  -- The handle still leads to the bytes.
  abbrev Reads : Pool A → ℕ × List A → Type 0
  Reads p g = (g.0 + length g.1 ≤ p.pos) × (pool_read p g.0 (length g.1) ≡ ok g.1)

  record Keeping (log : List (ℕ × List A)) (st : Store A) : Type 0 where
    valid : IsValid st.pool
    reads : (g : ℕ × List A) → Memᴰ g log → Reads st.pool g

  pool_drain-IsValid :
      (p : Pool A) → IsValid p → (q : Pool A) × (pool_drain zero_byte p ≡ ok q) × IsValid q
  unfolding pool_drain
  pool_drain-IsValid p v = (
    record p { buf = some (overwrite 0 zeroes v.cells); pos = 0 },
    rw (pool_write-valid p v 0 zeroes (omega (arith, size))) refl,
    record {
      cells = overwrite 0 zeroes v.cells;
      present = refl;
      sized = length-overwrite 0 zeroes v.cells (omega (arith, size, v.sized)) ∙ v.sized;
      in_range = omega arith;
      small = v.small;
    },
  )
    where
      zeroes : List A
      zeroes = replicate p.alloc_size zero_byte

      size : length zeroes ≡ p.alloc_size
      size = length-replicate p.alloc_size zero_byte

  Pushed-Keeping :
      {log : List (ℕ × List A)} {st : Store A} {r : Result (ℕ × Store A)} (bs : List A)
      (request : ℕ)
      → length bs ≤ request
      → Keeping log st
      → (p : Pushed st.pool st.answers bs request r) → Keeping ((st.pool.pos, bs) ∷ log) p.after
  Pushed-Keeping {log} {st} bs request short k p = record {
    valid = p.valid;
    reads = λ g i. elim (Memᴰ.cases_cons i) [
      | inl e ↦ subst (Reads p.after.pool) (sym e) (omega (arith, p.advanced), p.stored)
      | inr j ↦ older g (k.reads g j)
    ];
  }
    where
      older : (g : ℕ × List A) → Reads st.pool g → Reads p.after.pool g
      older g read = (omega (arith, p.advanced, read.0), p.kept g.0 (length g.1) read.0 ∙ read.1)

  drained-Keeping :
      {log : List (ℕ × List A)} {st : Store A} (pool : Pool A)
      → pool_drain zero_byte st.pool ≡ ok pool
      → Keeping log st
      → Keeping [] (record st { pool = pool })
  drained-Keeping {st = st} pool e k = record {
    valid =
        subst IsValid (ok-inj (sym (pool_drain-IsValid st.pool k.valid).1 ∙ e))
          (pool_drain-IsValid st.pool k.valid).2;
    reads = λ g m. absurd (Memᴰ.not-nil m);
  }

  -- A handle that a push returned is not the invalid one.
  Pushed-handle :
      {st : Store A} {bs : List A} {request : ℕ} {r : Result (ℕ × Store A)}
      → Fits st.pool request
      → Pushed st.pool st.answers bs request r
      → st.pool.pos ≢ pool_invalid_handle
  Pushed-handle fits p e =
      absurd (omega (arith, p.advanced, p.valid.in_range, p.valid.small, fits.wanted, e))

  pushed-Keeping :
      {log : List (ℕ × List A)} {st st' : Store A} (bs : List A) (alloc_size handle : ℕ)
      → length bs ≤ requested zero_byte bs alloc_size
      → Fits st.pool (requested zero_byte bs alloc_size)
      → pool_push zero_byte st bs alloc_size ≡ ok (handle, st')
      → handle ≢ pool_invalid_handle
      → Keeping log st
      → Keeping ((handle, bs) ∷ log) st'
  pushed-Keeping {log} {st} bs alloc_size handle short fits e valid k =
      elim (pool_push-cases zero_byte st k.valid bs alloc_size short fits) [
        | inl p ↦
            subst (λ r. Keeping ((r.0, bs) ∷ log) r.1) (ok-inj (sym p.returns ∙ e))
              (Pushed-Keeping bs (requested zero_byte bs alloc_size) short k p)
        | inr n ↦ absurd (valid (ap (λ r. r.0) (ok-inj (sym e ∙ n.returns))))
      ]

  refused-Keeping :
      {log : List (ℕ × List A)} {st st' : Store A} (bs : List A) (alloc_size : ℕ)
      → length bs ≤ requested zero_byte bs alloc_size
      → Fits st.pool (requested zero_byte bs alloc_size)
      → pool_push zero_byte st bs alloc_size ≡ ok (pool_invalid_handle, st')
      → Keeping log st
      → Keeping log st'
  refused-Keeping {log} {st} bs alloc_size short fits e k =
      elim (pool_push-cases zero_byte st k.valid bs alloc_size short fits) [
        | inl p ↦ absurd (Pushed-handle fits p (ap (λ r. r.0) (ok-inj (sym p.returns ∙ e))))
        | inr n ↦
            subst (Keeping log) (ap (λ r. r.1) (ok-inj (sym n.returns ∙ e)))
              (record { valid = k.valid; reads = k.reads })
      ]

  History-Keeping : {log : List (ℕ × List A)} {st : Store A} → History log st → Keeping log st
  History-Keeping (opened answers init_size got small) = record {
    valid = pool_open-IsValid_of_buffer zero_byte answers init_size got small;
    reads = λ g m. absurd (Memᴰ.not-nil m);
  }
  History-Keeping (pushed bs alloc_size handle past short fits e valid) =
      pushed-Keeping bs alloc_size handle short fits e valid (History-Keeping past)
  History-Keeping (refused bs alloc_size past short fits e) =
      refused-Keeping bs alloc_size short fits e (History-Keeping past)
  History-Keeping (drained pool past e) = drained-Keeping pool e (History-Keeping past)

  -- However often a pool has been pushed into, grown and drained since it was opened, every handle
  -- other than the invalid one that came back since the last drain reads the bytes that were pushed,
  -- also where calloc refused later pushes a larger buffer. calloc gave the pool its first buffer, no
  -- request was 0 or smaller than its bytes, and no size has overflown.
  pub History-reads :
      {log : List (ℕ × List A)} {st : Store A} (handle : ℕ) (bs : List A)
      → History log st
      → Memᴰ (handle, bs) log
      → pool_read st.pool handle (length bs) ≡ ok bs
  History-reads handle bs past m = ((History-Keeping past).reads (handle, bs) m).1
