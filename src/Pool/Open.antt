-- ===== src/Pool/Open.antt =====
-- A pool that was just opened.
use koshka.Base.{ℕ, ◌^◌, ◌<◌, ◌≡◌, arith, Bool, true, List, replicate}
use koshka.Base.{length-replicate}
use koshka.Pool.{all_granted, pool_open}
use koshka.Pool.Laws.{IsValid}
use koshka.Base.{◌≢◌, none, inl, inr}
use koshka.Pool.Grow.{calloc-cases, calloc_granted, calloc-all_granted}

-- A pool that got its buffer is valid.
pub pool_open-IsValid_of_buffer :
    {A : Type 0} (zero_byte : A) (answers : List Bool) (n : ℕ)
    → (pool_open zero_byte answers n).pool.buf ≢ none
    → n < 2 ^ 32
    → IsValid ((pool_open zero_byte answers n).pool)
unfolding pool_open
pool_open-IsValid_of_buffer zero_byte answers n got small = record {
  cells = replicate n zero_byte;
  present = elim (calloc-cases zero_byte answers n) [
    | inl granted ↦ granted
    | inr refused ↦ absurd (got refused)
  ];
  sized = length-replicate n zero_byte;
  in_range = omega arith;
  small = small;
}

-- A pool is valid if every calloc is granted.
pub pool_open-IsValid :
    {A : Type 0} (zero_byte : A) (answers : List Bool) (n : ℕ)
    → all_granted answers ≡ true
    → n < 2 ^ 32
    → IsValid ((pool_open zero_byte answers n).pool)
unfolding pool_open
pool_open-IsValid zero_byte answers n granted small = record {
  cells = replicate n zero_byte;
  present = calloc_granted zero_byte answers n granted;
  sized = length-replicate n zero_byte;
  in_range = omega arith;
  small = small;
}

pub pool_open-all_granted :
    {A : Type 0} (zero_byte : A) (answers : List Bool) (n : ℕ)
    → all_granted answers ≡ true
    → all_granted ((pool_open zero_byte answers n).answers) ≡ true
unfolding pool_open
pool_open-all_granted zero_byte answers n granted = calloc-all_granted zero_byte answers n granted
