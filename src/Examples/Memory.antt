-- ===== src/Examples/Memory.antt =====
-- src/pool.c on a pool of bytes.
use koshka.Base.{
  ℕ, ◌≡◌, refl, arith, false, List, [], ◌∷◌, some, replicate, length, length-replicate, ◌-◌, ◌^◌,
}
use koshka.Base.{true}
use koshka.Base.Result.{ok}
use mathlib.Core.List.Memᴰ
use koshka.Base.Slice.{slice, overwrite}
use koshka.Pool.History.{History, History-reads}
use koshka.Pool.{pool_open, pool_read, pool_write, grow, move_to, append_grown, append_data, calloc}
use koshka.Pool.{Pool, Store, pool_push, pool_invalid_handle, pool_can_hold}
use koshka.Pool.Laws.{IsValid}
use koshka.Pool.Total.{PushResult, pool_push-PushResult}

-- Four bytes, two of them in use.
abbrev little : Pool ℕ
little = record { buf = some (1 ∷ 2 ∷ 0 ∷ 0 ∷ []); alloc_size = 4; pos = 2 }

little-IsValid : IsValid little
little-IsValid = record {
  cells = 1 ∷ 2 ∷ 0 ∷ 0 ∷ [];
  present = refl;
  sized = refl;
  in_range = omega arith;
  small = omega arith;
}

abbrev granting : Store ℕ
granting = record { pool = little; answers = [] }

abbrev refusing : Store ℕ
refusing = record { pool = little; answers = false ∷ [] }

-- Three bytes do not fit, so the pool grows.
pool_push-PushResult_example :
    PushResult 0 granting (7 ∷ 8 ∷ 9 ∷ []) 3 (pool_push 0 granting (7 ∷ 8 ∷ 9 ∷ []) 0)
pool_push-PushResult_example =
    pool_push-PushResult 0 granting little-IsValid (7 ∷ 8 ∷ 9 ∷ []) 0 (omega arith) (omega arith)

-- One byte is pushed, and 2^32 - 1 are asked for: the position goes back from 2 to 1.
goes_back :
    pool_push 0 granting (9 ∷ []) (2 ^ 32 - 1)
    ≡ ok (
      2,
      record {
        pool = record { buf = some (1 ∷ 2 ∷ 9 ∷ 0 ∷ []); alloc_size = 4; pos = 1 };
        answers = [];
      },
    )
unfolding pool_push pool_can_hold append_data pool_write overwrite
goes_back = refl

-- The largest pool, all but two bytes of it in use. Its cells are never evaluated.
zeroes : ℕ → List ℕ
zeroes n = replicate n 0

length-zeroes : (n : ℕ) → length (zeroes n) ≡ n
unfolding zeroes
length-zeroes n = length-replicate n 0

abbrev largest : Pool ℕ
largest = record { buf = some (zeroes (2 ^ 32 - 1)); alloc_size = 2 ^ 32 - 1; pos = 2 ^ 32 - 2 }

largest-IsValid : IsValid largest
largest-IsValid = record {
  cells = zeroes (2 ^ 32 - 1);
  present = refl;
  sized = length-zeroes (2 ^ 32 - 1);
  in_range = omega arith;
  small = omega arith;
}

abbrev full_store : Store ℕ
full_store = record { pool = largest; answers = [] }

-- Two more bytes carry the position past 2^32, and it counts as 0.
two_more : PushResult 0 full_store (7 ∷ 8 ∷ []) 2 (pool_push 0 full_store (7 ∷ 8 ∷ []) 0)
two_more =
    pool_push-PushResult 0 full_store largest-IsValid (7 ∷ 8 ∷ []) 0 (omega arith) (omega arith)

-- A pool of two bytes: a push that made it grow, one that calloc refused, and one with room.
abbrev once : Store ℕ
once = record {
  pool = record { buf = some (7 ∷ 8 ∷ 9 ∷ 0 ∷ 0 ∷ 0 ∷ 0 ∷ []); alloc_size = 7; pos = 3 };
  answers = false ∷ [];
}

abbrev again : Store ℕ
again = record { pool = once.pool; answers = [] }

abbrev twice : Store ℕ
twice = record {
  pool = record { buf = some (7 ∷ 8 ∷ 9 ∷ 5 ∷ 0 ∷ 0 ∷ 0 ∷ []); alloc_size = 7; pos = 4 };
  answers = [];
}

pushes :
    (pool_push 0 (pool_open 0 (true ∷ true ∷ false ∷ []) 2) (7 ∷ 8 ∷ 9 ∷ []) 0 ≡ ok (0, once))
    × (pool_push 0 once (5 ∷ []) 4 ≡ ok (pool_invalid_handle, again))
    × (pool_push 0 again (5 ∷ []) 0 ≡ ok (3, twice))
unfolding pool_open pool_push pool_can_hold grow move_to append_grown append_data pool_read
    pool_write calloc slice overwrite
pushes = (refl, refl, refl)

past : History 0 ((3, 5 ∷ []) ∷ (0, 7 ∷ 8 ∷ 9 ∷ []) ∷ []) twice
unfolding pool_open calloc
past =
    History.pushed (5 ∷ []) 0 3
      (History.refused (5 ∷ []) 4
        (History.pushed (7 ∷ 8 ∷ 9 ∷ []) 0 0
          (History.opened (true ∷ true ∷ false ∷ []) 2 (λ e. absurd (cc)) (omega arith))
          (omega arith) (record { wanted = omega arith; no_overflow = omega arith }) pushes.0
          (λ e. absurd (omega (arith, e))))
        (omega arith) (record { wanted = omega arith; no_overflow = omega arith }) pushes.1)
      (omega arith) (record { wanted = omega arith; no_overflow = omega arith }) pushes.2
      (λ e. absurd (omega (arith, e)))

History-reads_example : pool_read twice.pool 0 3 ≡ ok (7 ∷ 8 ∷ 9 ∷ [])
History-reads_example = History-reads 0 0 (7 ∷ 8 ∷ 9 ∷ []) past (Memᴰ.tail (Memᴰ.head refl))
