-- ===== src/Pool/Missing.antt =====
-- A pool that has no buffer, which is what is left where calloc refused it: `pool_open` does not
-- look at the answer.
use koshka.Base.{ℕ, ◌^◌, ◌<◌, ltb, ◌≡◌, ◌⊎◌, inl, inr, refl, arith, length}
use koshka.Base.{Bool, true, false, Bool-cases, List, [], ◌∷◌, none, some, replicate}
use koshka.Base.Result.{Result, ok, err, Faults, bounds, undefined, assertion, ◌>>=◌}
use koshka.Pool.{Pool, Store, pool_push, pool_can_hold, pool_read, pool_write, append_data, grow}
use koshka.Pool.{calloc, move_to, append_grown, pool_invalid_handle, grown_size}

pub record NoBuffer {A : Type 0} (p : Pool A) : Type 0 where
  pub missing : p.buf ≡ none
  pub sized : 0 < p.alloc_size

module _ {A : Type 0} (zero_byte : A) where
  -- A push faults, or finds no memory a second time and gives up, with the invalid handle.
  abbrev pub GivesUp : Store A → Result (ℕ × Store A) → Type 0
  GivesUp st r =
      Faults r
      ⊎ ((answers : List Bool) × (r
            ≡ ok (pool_invalid_handle, record { pool = st.pool; answers = answers })))

  append_data-missing :
      (p : Pool A) (answers : List Bool) (bs : List A) (request : ℕ)
      → NoBuffer p
      → 0 < length bs
      → append_data p answers bs request ≡ err bounds
  unfolding append_data pool_write
  append_data-missing p answers bs request n some_ = ground arith

  -- The old contents are to be copied from a null pointer.
  move_to-missing :
      (p : Pool A) (newsize : ℕ) (newbuf : List A)
      → NoBuffer p
      → move_to p newsize (some newbuf) ≡ err bounds
  unfolding move_to pool_read
  move_to-missing p newsize newbuf n = ground arith

  answered-GivesUp :
      (st : Store A) (answers : List Bool) (newsize : ℕ) (bs : List A) (request : ℕ)
      → NoBuffer st.pool
      → GivesUp st (
          (move_to st.pool newsize (calloc zero_byte answers newsize).0 >>= λ moved.
          ok (moved, (calloc zero_byte answers newsize).1))
          >>= λ grown. append_grown st grown bs request)
  unfolding calloc append_grown
  answered-GivesUp st [] newsize bs request n =
      inl (bounds, rw (move_to-missing st.pool newsize (replicate newsize zero_byte) n) refl)
  answered-GivesUp st (true ∷ answers) newsize bs request n =
      inl (bounds, rw (move_to-missing st.pool newsize (replicate newsize zero_byte) n) refl)
  answered-GivesUp st (false ∷ answers) newsize bs request n = unfold move_to in inr (answers, refl)

  grow-GivesUp :
      (st : Store A) (bs : List A) (request : ℕ)
      → NoBuffer st.pool
      → GivesUp st (grow zero_byte st request >>= λ grown. append_grown st grown bs request)
  unfolding grow
  grow-GivesUp st bs request n = elim (Bool-cases (ltb (grown_size st.pool request) (2 ^ 32))) [
    | inr large ↦ inl (undefined, rw large refl)
    | inl small ↦ elim (Bool-cases (ltb st.pool.alloc_size (grown_size st.pool request))) [
      | inr shrinks ↦ inl (assertion, rw (small, shrinks) refl)
      | inl grows ↦
          rw (small, grows)
            (answered-GivesUp st st.answers (grown_size st.pool request) bs request n)
    ]
  ]

  -- Nothing can be pushed into a pool without a buffer.
  pub pool_push-GivesUp :
      (st : Store A) (bs : List A)
      → NoBuffer st.pool
      → 0 < length bs
      → GivesUp st (pool_push zero_byte st bs 0)
  unfolding pool_push
  pool_push-GivesUp st bs n some_ = elim (Bool-cases (pool_can_hold st.pool (length bs))) [
    | inl room ↦
        inl (bounds, rw room (append_data-missing st.pool st.answers bs (length bs) n some_))
    | inr full ↦ rw full (grow-GivesUp st bs (length bs) n)
  ]
