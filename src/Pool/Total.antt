-- ===== src/Pool/Total.antt =====
-- Every push of some data into a valid pool, the sizes that overflow included.
use koshka.Base.{ℕ, ◌+◌, ◌^◌, ◌≤◌, ◌<◌, ltb, u32, ◌≡◌, refl, arith}
use koshka.Base.{inl, inr, Bool-cases, Bool, true, false, List, length}
use koshka.Base.{ltb→lt, ltb_false→le}
use koshka.Base.Result.{Result, err, bounds, undefined, assertion, ◌>>=◌}
use koshka.Pool.{Pool, Store, pool_can_hold, calloc, grow}
use koshka.Pool.{append_data, append_grown, pool_push, grown_size}
use koshka.Pool.Laws.{IsValid, Pushed, Grows, append_data-Pushed}
use koshka.Base.{◌∙◌}
use koshka.Pool.Grow.{
  grown_pool, grown_pool-IsValid, grown_pool-Keeps, grow_lem, Pushed-of_grown, calloc-cases,
}
use koshka.Pool.Push.{requested, Refused, grow-refused, calloc-denied}
use koshka.Pool.Misplaced.{Misplaced, append_data-past, append_data-Misplaced}

module _ {A : Type 0} (zero_byte : A) where
  -- What becomes of a push of a request, and why.
  pub data PushResult (st : Store A) (bs : List A) (request : ℕ) (r : Result (ℕ × Store A))
      : Type 0 where
    pushed : Pushed st.pool st.answers bs request r → PushResult st bs request r
    refused :
        st.pool.alloc_size ≤ st.pool.pos + request
        → Refused zero_byte st r
        → PushResult st bs request r
    misplaced :
        2 ^ 32 ≤ st.pool.alloc_size + request
        → length bs < request
        → Misplaced st.pool bs request r
        → PushResult st bs request r
    overrun : 2 ^ 32 ≤ st.pool.alloc_size + request → r ≡ err bounds → PushResult st bs request r
    too_large : 2 ^ 32 ≤ grown_size st.pool request → r ≡ err undefined → PushResult st bs request r
    not_larger :
        2 ^ 32 ≤ st.pool.alloc_size + request → r ≡ err assertion → PushResult st bs request r

  -- The bytes are put into a buffer that the request does not fit: past it, or with the position
  -- misplaced.
  append_data-short :
      (st : Store A) (bs : List A) (request : ℕ) (p : Pool A) (v : IsValid p) (answers : List Bool)
      → 2 ^ 32 ≤ st.pool.alloc_size + request
      → length bs ≤ request
      → p.alloc_size < p.pos + request
      → (Misplaced p bs request (append_data p answers bs request)
          → Misplaced st.pool bs request (append_data p answers bs request))
      → PushResult st bs request (append_data p answers bs request)
  append_data-short st bs request p v answers wraps short past carry =
      elim (Bool-cases (ltb p.alloc_size (p.pos + length bs))) [
        | inl beyond ↦ PushResult.overrun wraps (
            append_data-past p v answers bs request
              (ltb→lt p.alloc_size (p.pos + length bs) beyond))
        | inr within ↦
            let fits : p.pos + length bs ≤ p.alloc_size =
              ltb_false→le p.alloc_size (p.pos + length bs) within in
            PushResult.misplaced wraps (omega (arith, fits, past))
              (carry (append_data-Misplaced p v answers bs request fits past))
      ]

  -- The push after the pool has a larger buffer. That buffer is too small only if the sum of the
  -- sizes has wrapped.
  append_grown-PushResult :
      (st : Store A) (v : IsValid st.pool) (bs : List A) (request : ℕ)
      → (g : Grows st.pool request) → length bs ≤ request
      → st.pool.alloc_size ≤ st.pool.pos + request
      → PushResult st bs request (
          append_data
            (grown_pool zero_byte st.pool v (grown_size st.pool request))
            (calloc zero_byte st.answers (grown_size st.pool request)).1
            bs
            request)
  append_grown-PushResult st v bs request g short full =
      elim (Bool-cases (ltb (grown_size st.pool request) (st.pool.pos + request))) [
        | inl past ↦
            let beyond : _ = ltb→lt (grown_size st.pool request) (st.pool.pos + request) past in
            append_data-short st bs request larger valid answers (omega (arith, beyond, v.in_range))
              short beyond
              (λ m. record {
                after = m.after;
                returns = m.returns;
                stored = m.stored;
                kept = λ h n k.
                    m.kept h n k
                    ∙ grown_pool-Keeps zero_byte st.pool v (grown_size st.pool request)
                        (omega (arith, g.more)) g.below h n (omega (arith, k, v.in_range));
                moved = m.moved;
                wrong = m.wrong;
              })
        | inr room ↦ PushResult.pushed (
            Pushed-of_grown zero_byte st.pool v st.answers bs request g full (
              append_data-Pushed larger valid answers bs request short
                (ltb_false→le (grown_size st.pool request) (st.pool.pos + request) room)))
      ]
    where
      larger : Pool A
      larger = grown_pool zero_byte st.pool v (grown_size st.pool request)

      valid : IsValid larger
      valid =
          grown_pool-IsValid zero_byte st.pool v (grown_size st.pool request)
            (omega (arith, g.more)) g.below

      answers : List Bool
      answers = (calloc zero_byte st.answers (grown_size st.pool request)).1

  grow-too_large :
      (st : Store A) (request : ℕ)
      → ltb (grown_size st.pool request) (2 ^ 32) ≡ false
      → grow zero_byte st request ≡ err undefined
  unfolding grow
  grow-too_large st request large = rw large refl

  grow-not_larger :
      (st : Store A) (request : ℕ)
      → ltb (grown_size st.pool request) (2 ^ 32) ≡ true
      → ltb st.pool.alloc_size (grown_size st.pool request) ≡ false
      → grow zero_byte st request ≡ err assertion
  unfolding grow
  grow-not_larger st request below shrinks = rw (below, shrinks) refl

  answered-PushResult :
      (st : Store A) (v : IsValid st.pool) (bs : List A) (request : ℕ)
      → Grows st.pool request
      → length bs ≤ request
      → st.pool.alloc_size ≤ st.pool.pos + request
      → PushResult st bs request
          (grow zero_byte st request >>= λ grown. append_grown st grown bs request)
  unfolding append_grown
  answered-PushResult st v bs request g short full =
      elim (calloc-cases zero_byte st.answers (grown_size st.pool request)) [
        | inl granted ↦
            rw (grow_lem zero_byte st.pool v st.answers request g granted)
              (append_grown-PushResult st v bs request g short full)
        | inr none_ ↦ rw (grow-refused zero_byte st request g none_) (
            PushResult.refused full (record {
              answers = (calloc zero_byte st.answers (grown_size st.pool request)).1;
              returns = refl;
              denied = calloc-denied zero_byte st.answers (grown_size st.pool request) none_;
            }))
      ]

  grow-PushResult :
      (st : Store A) (v : IsValid st.pool) (bs : List A) (request : ℕ)
      → 0 < request
      → length bs ≤ request
      → st.pool.alloc_size ≤ st.pool.pos + request
      → PushResult st bs request
          (grow zero_byte st request >>= λ grown. append_grown st grown bs request)
  grow-PushResult st v bs request some_ short full =
      elim (Bool-cases (ltb (grown_size st.pool request) (2 ^ 32))) [
        | inr large ↦
            rw (grow-too_large st request large)
              (PushResult.too_large (ltb_false→le (grown_size st.pool request) (2 ^ 32) large) refl)
        | inl below ↦ elim (Bool-cases (ltb st.pool.alloc_size (grown_size st.pool request))) [
          | inr shrinks ↦ rw (grow-not_larger st request below shrinks) (
              PushResult.not_larger
                (omega
                  (arith, ltb_false→le st.pool.alloc_size (grown_size st.pool request) shrinks))
                refl)
          | inl more ↦
              answered-PushResult st v bs request
                (record {
                  below = ltb→lt (grown_size st.pool request) (2 ^ 32) below;
                  more = ltb→lt st.pool.alloc_size (grown_size st.pool request) more;
                })
                short full
        ]
      ]

  append_data-PushResult :
      (st : Store A) (v : IsValid st.pool) (bs : List A) (request : ℕ)
      → u32 (st.pool.pos + request) < st.pool.alloc_size
      → length bs ≤ request
      → PushResult st bs request (append_data st.pool st.answers bs request)
  append_data-PushResult st v bs request room short =
      elim (Bool-cases (ltb st.pool.alloc_size (st.pool.pos + request))) [
        | inl past ↦
            let beyond : _ = ltb→lt st.pool.alloc_size (st.pool.pos + request) past in
            append_data-short st bs request st.pool v st.answers
              (omega (arith, beyond, room, v.in_range)) short beyond (λ m. m)
        | inr within ↦ PushResult.pushed (
            append_data-Pushed st.pool v st.answers bs request short
              (ltb_false→le st.pool.alloc_size (st.pool.pos + request) within))
      ]

  -- Every push into a valid pool that asks for at least one byte and for no less than the data,
  -- where an alloc_size of 0 asks for the size of the data: it returns the old position, stores
  -- the bytes there, moves the position by what was asked for, keeps the pool valid and all that
  -- was stored readable through its handle, also when the buffer moves; or calloc has refused,
  -- and it returns the invalid handle and leaves the pool as it was; or it faults, because the
  -- larger size does not fit 32 bits, or, only where the sum of the old size and what was asked
  -- for is past 32 bits, because the larger size is none or the data do not lie in the buffer.
  -- Only there too, and only if more was asked for than the data, it may return the old position
  -- with the bytes stored there and all that was stored kept, but with the new position cut to 32
  -- bits or past the buffer.
  pub pool_push-PushResult :
      (st : Store A) (v : IsValid st.pool) (bs : List A) (alloc_size : ℕ)
      → 0 < requested zero_byte bs alloc_size
      → length bs ≤ requested zero_byte bs alloc_size
      → PushResult st bs (requested zero_byte bs alloc_size) (pool_push zero_byte st bs alloc_size)
  unfolding pool_push pool_can_hold
  pool_push-PushResult st v bs alloc_size some_ short =
      elim (Bool-cases (ltb (u32 (st.pool.pos + request)) st.pool.alloc_size)) [
        | inr full ↦ rw full (
            grow-PushResult st v bs request some_ short
              (omega (arith, ltb_false→le (u32 (st.pool.pos + request)) st.pool.alloc_size full)))
        | inl room ↦ rw room (
            append_data-PushResult st v bs request
              (ltb→lt (u32 (st.pool.pos + request)) st.pool.alloc_size room) short)
      ]
    where
      request : ℕ
      request = requested zero_byte bs alloc_size
