-- ===== src/Pool/Push.antt =====
-- What a push promises, on each of its branches.
use koshka.Base.{ℕ, ◌+◌, ◌^◌, ◌≤◌, ltb, ◌==◌, u32, if◌then◌else◌, ◌≡◌, refl, arith}
use koshka.Base.{inl, inr, Bool-cases, Bool, true, false, List, ◌∷◌, length}
use koshka.Base.{lt→ltb, ltb→lt, ltb_false→le}
use koshka.Base.Result.{ok}
use koshka.Pool.{Store, all_granted, pool_can_hold, calloc, grow, move_to}
use koshka.Pool.{append_grown, pool_push, pool_invalid_handle, grown_size}
use koshka.Pool.Laws.{IsValid, Pushed, Fits, Grows, Fits-Grows, append_data-Pushed}
use koshka.Pool.Grow.{grown_pool, grown_pool-IsValid, grow_lem, Pushed-of_grown}
use koshka.Base.{◌⊎◌, some, none, sym, ◌∙◌, true≢false}
use koshka.Base.Result.{Result}
use koshka.Pool.Grow.{calloc-cases, calloc_granted}

module _ {A : Type 0} (zero_byte : A) where
  -- What a push asks for.
  abbrev pub requested : List A → ℕ → ℕ
  requested bs alloc_size = if alloc_size == 0 then length bs else alloc_size

  -- A push that calloc refused a larger buffer: the invalid handle, and the pool as it was.
  pub record Refused (st : Store A) (r : Result (ℕ × Store A)) : Type 0 where
    pub answers : List Bool
    pub returns : r ≡ ok (pool_invalid_handle, record { pool = st.pool; answers = answers })
    pub denied : all_granted st.answers ≡ false

  pub grow-refused :
      (st : Store A) (request : ℕ)
      → Grows st.pool request
      → (calloc zero_byte st.answers (grown_size st.pool request)).0 ≡ none
      → grow zero_byte st request
        ≡ ok (none, (calloc zero_byte st.answers (grown_size st.pool request)).1)
  unfolding grow move_to
  grow-refused st request grows refused =
      rw
        (
          lt→ltb (grown_size st.pool request) (2 ^ 32) grows.below,
          lt→ltb st.pool.alloc_size (grown_size st.pool request) grows.more,
          refused,
        )
        refl

  pub calloc-denied :
      (answers : List Bool) (n : ℕ)
      → (calloc zero_byte answers n).0 ≡ none
      → all_granted answers ≡ false
  calloc-denied answers n refused = elim (Bool-cases (all_granted answers)) [
    | inl granted ↦ absurd (some≢none (sym (calloc_granted zero_byte answers n granted) ∙ refused))
    | inr denied ↦ denied
  ]
    where
      some≢none : {xs : List A} → some xs ≡ none → ⊥
      some≢none e = cc

  -- A push into a valid pool, within the sizes, is done, or calloc refused a larger buffer for it.
  pub pool_push-cases :
      (st : Store A) (v : IsValid st.pool) (bs : List A) (alloc_size : ℕ)
      → length bs ≤ requested bs alloc_size
      → Fits st.pool (requested bs alloc_size)
      → Pushed st.pool st.answers bs
          (requested bs alloc_size)
          (pool_push zero_byte st bs alloc_size)
        ⊎ Refused st (pool_push zero_byte st bs alloc_size)
  unfolding pool_push pool_can_hold append_grown
  pool_push-cases st v bs alloc_size short fits =
      elim (Bool-cases (ltb (u32 (st.pool.pos + request)) st.pool.alloc_size)) [
        | inl room ↦ rw room (
            inl (
              append_data-Pushed st.pool v st.answers bs request short
                (omega (arith, ltb→lt _ _ room))))
        | inr full ↦ elim (calloc-cases zero_byte st.answers (grown_size st.pool request)) [
          | inl granted ↦
              rw (full, grow_lem zero_byte st.pool v st.answers request grows granted)
                (inl (
                  Pushed-of_grown zero_byte st.pool v st.answers bs request grows
                    (omega (arith, ltb_false→le _ _ full))
                    (append_data-Pushed
                      (grown_pool zero_byte st.pool v (grown_size st.pool request))
                      (grown_pool-IsValid zero_byte st.pool v (grown_size st.pool request)
                        (omega arith) (omega arith))
                      (calloc zero_byte st.answers (grown_size st.pool request)).1 bs request short
                      (omega arith))))
          | inr refused ↦
              rw (full, grow-refused st request grows refused)
                (inr (record {
                  answers = (calloc zero_byte st.answers (grown_size st.pool request)).1;
                  returns = refl;
                  denied = calloc-denied st.answers (grown_size st.pool request) refused;
                }))
        ]
      ]
    where
      request : ℕ
      request = requested bs alloc_size

      grows : Grows st.pool request
      grows = Fits-Grows st.pool request fits

  -- A push into a valid pool that stays within the sizes returns the old position as its handle and
  -- stores the bytes there; the pool stays valid and keeps all that was stored, also when it had to
  -- move to a larger buffer.
  pub pool_push-Pushed :
      (st : Store A) (v : IsValid st.pool) (bs : List A) (alloc_size : ℕ)
      → length bs ≤ requested bs alloc_size
      → Fits st.pool (requested bs alloc_size)
      → all_granted st.answers ≡ true
      → Pushed st.pool st.answers bs
          (requested bs alloc_size)
          (pool_push zero_byte st bs alloc_size)
  pool_push-Pushed st v bs alloc_size short fits granted =
      elim (pool_push-cases st v bs alloc_size short fits) [
        | inl pushed ↦ pushed
        | inr refused ↦ absurd (true≢false (sym granted ∙ refused.denied))
      ]

  -- When calloc refuses, a push that needs a larger buffer returns the invalid handle and leaves
  -- the pool alone.
  pub pool_push_refused :
      (st : Store A) (bs : List A) (alloc_size : ℕ) (answers : List Bool)
      → Fits st.pool (requested bs alloc_size)
      → pool_can_hold st.pool (requested bs alloc_size) ≡ false
      → st.answers ≡ false ∷ answers
      → pool_push zero_byte st bs alloc_size
        ≡ ok (pool_invalid_handle, record { pool = st.pool; answers = answers })
  unfolding pool_push append_grown grow move_to calloc
  pool_push_refused st bs alloc_size answers fits full refused =
      rw
        (
          full,
          lt→ltb (grown_size st.pool (requested bs alloc_size)) (2 ^ 32) (omega arith),
          lt→ltb st.pool.alloc_size (grown_size st.pool (requested bs alloc_size)) (omega arith),
          refused,
        )
        refl
