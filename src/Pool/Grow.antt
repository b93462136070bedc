-- ===== src/Pool/Grow.antt =====
-- What a reallocation leaves.
use koshka.Base.{ℕ, ◌+◌, ◌^◌, ◌≤◌, ◌<◌, ◌≡◌, refl, arith}
use koshka.Base.{inr, ap, sym, ◌∙◌, Bool, true, false, some, List, [], ◌∷◌, length, replicate}
use koshka.Base.{length-replicate, drop, lt→ltb}
use koshka.Base.Result.{Result, ok}
use koshka.Base.Slice.{slice, overwrite, length-overwrite}
use koshka.Base.Slice.{slice_all, slice-append}
use koshka.Pool.{Pool, Store, all_granted, calloc, grow, move_to}
use koshka.Pool.{grown_size}
use koshka.Pool.Laws.{IsValid, Keeps, Pushed, Grows, pool_read-valid}
use koshka.Base.{◌⊎◌, inl, inr, none}

-- The buffer that a reallocation leaves: the old cells, then zeroes.
module _ {A : Type 0} (zero_byte : A) where
  abbrev pub grown_cells : (p : Pool A) → IsValid p → ℕ → List A
  grown_cells p v newsize = overwrite 0 v.cells (replicate newsize zero_byte)

  abbrev pub grown_pool : (p : Pool A) → IsValid p → ℕ → Pool A
  grown_pool p v newsize = record p { buf = some (grown_cells p v newsize); alloc_size = newsize }

  pub grown_pool-IsValid :
      (p : Pool A) (v : IsValid p) (newsize : ℕ)
      → p.alloc_size ≤ newsize
      → newsize < 2 ^ 32
      → IsValid (grown_pool p v newsize)
  grown_pool-IsValid p v newsize more less = record {
    cells = grown_cells p v newsize;
    present = refl;
    sized =
        length-overwrite 0 v.cells (replicate newsize zero_byte)
          (omega (arith, length-replicate newsize zero_byte))
        ∙ length-replicate newsize zero_byte;
    in_range = omega arith;
    small = less;
  }

  -- A reallocation moves nothing: what was readable stays readable through the same handle.
  pub grown_pool-Keeps :
      (p : Pool A) (v : IsValid p) (newsize : ℕ)
      → p.alloc_size ≤ newsize
      → newsize < 2 ^ 32
      → Keeps p.alloc_size p (grown_pool p v newsize)
  unfolding overwrite grown_pool-IsValid
  grown_pool-Keeps p v newsize more less h n k =
      pool_read-valid (grown_pool p v newsize) (grown_pool-IsValid p v newsize more less) h n
        (omega arith)
      ∙ ap ok (
          slice-append h n v.cells (drop (length v.cells) (replicate newsize zero_byte))
            (omega arith))
      ∙ sym (pool_read-valid p v h n k)

  pub calloc_granted :
      (answers : List Bool) (n : ℕ)
      → all_granted answers ≡ true
      → (calloc zero_byte answers n).0 ≡ some (replicate n zero_byte)
  unfolding calloc
  calloc_granted [] n h = refl
  calloc_granted (true ∷ answers) n h = refl
  calloc_granted (false ∷ answers) n h = absurd (cc)

  -- calloc gives zeroes, or nothing.
  pub calloc-cases :
      (answers : List Bool) (n : ℕ)
      → ((calloc zero_byte answers n).0 ≡ some (replicate n zero_byte))
        ⊎ ((calloc zero_byte answers n).0 ≡ none)
  unfolding calloc
  calloc-cases [] n = inl refl
  calloc-cases (true ∷ answers) n = inl refl
  calloc-cases (false ∷ answers) n = inr refl

  pub calloc-all_granted :
      (answers : List Bool) (n : ℕ)
      → all_granted answers ≡ true
      → all_granted (calloc zero_byte answers n).1 ≡ true
  unfolding calloc
  calloc-all_granted [] n h = refl
  calloc-all_granted (true ∷ answers) n h = h
  calloc-all_granted (false ∷ answers) n h = absurd (cc)

  pub grow_lem :
      (p : Pool A) (v : IsValid p) (answers : List Bool) (request : ℕ)
      → Grows p request
      → (calloc zero_byte answers (grown_size p request)).0
        ≡ some (replicate (grown_size p request) zero_byte)
      → grow zero_byte (record { pool = p; answers = answers }) request
        ≡ ok (
          some (grown_pool p v (grown_size p request)),
          (calloc zero_byte answers (grown_size p request)).1,
        )
  unfolding grow move_to
  grow_lem p v answers request grows granted =
      rw
        (
          lt→ltb (grown_size p request) (2 ^ 32) grows.below,
          lt→ltb p.alloc_size (grown_size p request) grows.more,
          granted,
          pool_read-valid p v 0 p.alloc_size (omega arith),
          old,
        )
        refl
    where
      old : slice 0 p.alloc_size v.cells ≡ v.cells
      old = ap (λ t. slice 0 t v.cells) (sym v.sized) ∙ slice_all v.cells

  -- What is pushed after a reallocation is pushed.
  pub Pushed-of_grown :
      (p : Pool A) (v : IsValid p) (answers : List Bool) (bs : List A) (request : ℕ)
      {r : Result (ℕ × Store A)}
      → Grows p request
      → p.alloc_size ≤ p.pos + request
      → Pushed
          (grown_pool p v (grown_size p request))
          (calloc zero_byte answers (grown_size p request)).1
          bs
          request
          r
      → Pushed p answers bs request r
  Pushed-of_grown p v answers bs request grows full pushed = record {
    after = pushed.after;
    returns = pushed.returns;
    valid = pushed.valid;
    advanced = pushed.advanced;
    stored = pushed.stored;
    kept = λ h n k.
        pushed.kept h n k
        ∙ grown_pool-Keeps p v (grown_size p request) (omega (arith, grows.more)) grows.below h n
            (omega arith);
    grants = λ h. pushed.grants (calloc-all_granted answers (grown_size p request) h);
    bounded = inr (omega (arith, pushed.bounded));
  }
