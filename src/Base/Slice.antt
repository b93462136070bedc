-- ===== src/Base/Slice.antt =====
-- Reading and overwriting a run of an array: what memcpy does to its source and destination.
use koshka.Base.Lists.{length, drop, take, length-append, length-drop, length-take}
use Prim.Native.Nat.{ℕ, zero, suc, ◌+◌, ◌≤◌}
use mathlib.Core.Path.{◌≡◌, refl, ap, sym, ◌∙◌}
use mathlib.Core.List.{List, [], ◌∷◌, ◌++◌}
use native.Mathlib.Omega.{arith}

module _ {ℓ} {A : Type ℓ} where
  -- The `n` elements from index `i` on.
  unfoldable pub slice : ℕ → ℕ → List A → List A
  slice zero n xs = take n xs
  slice (suc i) n [] = []
  slice (suc i) n (x ∷ xs) = slice i n xs

  -- `bs` written from index `i` on.
  unfoldable pub overwrite : ℕ → List A → List A → List A
  overwrite zero bs xs = bs ++ drop (length bs) xs
  overwrite (suc i) bs [] = []
  overwrite (suc i) bs (x ∷ xs) = x ∷ overwrite i bs xs

  take-append : (xs ys : List A) → take (length xs) (xs ++ ys) ≡ xs
  take-append [] ys = refl
  take-append (x ∷ xs) ys = ap (λ t. x ∷ t) (take-append xs ys)

  take_all : (xs : List A) → take (length xs) xs ≡ xs
  take_all [] = refl
  take_all (x ∷ xs) = ap (λ t. x ∷ t) (take_all xs)

  take-append_left : (n : ℕ) (xs ys : List A) → n ≤ length xs → take n (xs ++ ys) ≡ take n xs
  take-append_left zero xs ys h = refl
  take-append_left (suc n) [] ys h = absurd (omega arith)
  take-append_left (suc n) (x ∷ xs) ys h = ap (λ t. x ∷ t) (take-append_left n xs ys (omega arith))

  pub slice-append :
      (i n : ℕ) (xs ys : List A) → i + n ≤ length xs → slice i n (xs ++ ys) ≡ slice i n xs
  unfolding slice
  slice-append zero n xs ys h = take-append_left n xs ys (omega arith)
  slice-append (suc i) n [] ys h = absurd (omega arith)
  slice-append (suc i) n (x ∷ xs) ys h = slice-append i n xs ys (omega arith)

  pub length-overwrite :
      (i : ℕ) (bs xs : List A) → i + length bs ≤ length xs → length (overwrite i bs xs) ≡ length xs
  unfolding overwrite
  length-overwrite zero bs xs h =
      omega (arith, length-append bs (drop (length bs) xs), length-drop (length bs) xs)
  length-overwrite (suc i) bs [] h = refl
  length-overwrite (suc i) bs (x ∷ xs) h = ap suc (length-overwrite i bs xs (omega arith))

  -- What was written is read back.
  pub slice-overwrite_self :
      (i : ℕ) (bs xs : List A)
      → i + length bs ≤ length xs
      → slice i (length bs) (overwrite i bs xs) ≡ bs
  unfolding slice overwrite
  slice-overwrite_self zero bs xs h = take-append bs (drop (length bs) xs)
  slice-overwrite_self (suc i) bs [] h = absurd (omega arith)
  slice-overwrite_self (suc i) bs (x ∷ xs) h = slice-overwrite_self i bs xs (omega arith)

  -- A run that ends before the write is unchanged.
  pub slice-overwrite_below :
      (j n i : ℕ) (bs xs : List A)
      → i + length bs ≤ length xs
      → j + n ≤ i
      → slice j n (overwrite i bs xs) ≡ slice j n xs
  unfolding slice overwrite
  slice-overwrite_below zero zero i bs xs h k = refl
  slice-overwrite_below zero (suc n) zero bs xs h k = absurd (omega arith)
  slice-overwrite_below zero (suc n) (suc i) bs [] h k = refl
  slice-overwrite_below zero (suc n) (suc i) bs (x ∷ xs) h k =
      ap (λ t. x ∷ t) (slice-overwrite_below zero n i bs xs (omega arith) (omega arith))
  slice-overwrite_below (suc j) n zero bs xs h k = absurd (omega arith)
  slice-overwrite_below (suc j) n (suc i) bs [] h k = refl
  slice-overwrite_below (suc j) n (suc i) bs (x ∷ xs) h k =
      slice-overwrite_below j n i bs xs (omega arith) (omega arith)

  -- So is one that begins after it.
  pub slice-overwrite_above :
      (j n i : ℕ) (bs xs : List A)
      → i + length bs ≤ j
      → i + length bs ≤ length xs
      → slice j n (overwrite i bs xs) ≡ slice j n xs
  unfolding slice overwrite
  slice-overwrite_above j n zero [] xs h k = refl
  slice-overwrite_above zero n zero (b ∷ bs) xs h k = absurd (omega arith)
  slice-overwrite_above (suc j) n zero (b ∷ bs) [] h k = absurd (omega arith)
  slice-overwrite_above (suc j) n zero (b ∷ bs) (x ∷ xs) h k =
      slice-overwrite_above j n zero bs xs (omega arith) (omega arith)
  slice-overwrite_above zero n (suc i) bs xs h k = absurd (omega arith)
  slice-overwrite_above (suc j) n (suc i) bs [] h k = refl
  slice-overwrite_above (suc j) n (suc i) bs (x ∷ xs) h k =
      slice-overwrite_above j n i bs xs (omega arith) (omega arith)

  pub length-slice : (i n : ℕ) (xs : List A) → i + n ≤ length xs → length (slice i n xs) ≡ n
  unfolding slice
  length-slice zero n xs h = omega (arith, length-take n xs)
  length-slice (suc i) n [] h = absurd (omega arith)
  length-slice (suc i) n (x ∷ xs) h = length-slice i n xs (omega arith)

  pub slice_all : (xs : List A) → slice 0 (length xs) xs ≡ xs
  unfolding slice
  slice_all xs = take_all xs

  take-take : (m n : ℕ) (xs : List A) → m ≤ n → take m (take n xs) ≡ take m xs
  take-take zero n xs h = refl
  take-take (suc m) zero xs h = absurd (omega arith)
  take-take (suc m) (suc n) [] h = refl
  take-take (suc m) (suc n) (x ∷ xs) h = ap (λ t. x ∷ t) (take-take m n xs (omega arith))

  slice-nil : (i n : ℕ) → slice i n [] ≡ []
  unfolding slice
  slice-nil zero zero = refl
  slice-nil zero (suc n) = refl
  slice-nil (suc i) n = refl

  slice-take : (j m n : ℕ) (xs : List A) → j + m ≤ n → slice j m (take n xs) ≡ slice j m xs
  unfolding slice
  slice-take zero m n xs h = take-take m n xs (omega arith)
  slice-take (suc j) m zero xs h = absurd (omega arith)
  slice-take (suc j) m (suc n) [] h = refl
  slice-take (suc j) m (suc n) (x ∷ xs) h = slice-take j m n xs (omega arith)

  -- A run of a run.
  pub slice-slice :
      (i n j m : ℕ) (xs : List A) → j + m ≤ n → slice j m (slice i n xs) ≡ slice (i + j) m xs
  unfolding slice
  slice-slice zero n j m xs h = slice-take j m n xs h ∙ ap (λ t. slice t m xs) (omega arith)
  slice-slice (suc i) n j m [] h = slice-nil j m ∙ sym (slice-nil (suc i + j) m)
  slice-slice (suc i) n j m (x ∷ xs) h =
      slice-slice i n j m xs h ∙ ap (λ t. slice t m (x ∷ xs)) {x = suc (i + j)} (omega arith)
