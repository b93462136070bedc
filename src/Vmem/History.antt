-- ===== src/Vmem/History.antt =====
-- The table of allocations over the life of the program.
use mathlib.Core.Path.{subst}
use koshka.Base.{
  ℕ, zero, suc, ◌+◌, ◌<◌, ◌≤◌, ◌==◌, if◌then◌else◌, ◌≡◌, ◌≢◌, refl, sym, ap, ap₂, ◌∙◌, ◌⊎◌,
}
use koshka.Base.{arith, none, List, [], ◌∷◌, ◌++◌, set, length, replicate, Bool-cases, inl, inr}
use koshka.Base.{length-append, length-replicate}
use koshka.Base.Result.{Result, ok, err, bounds, ok-inj, ok≢err}
use koshka.Vmem.{
  Allocation, Vmem, Permission, Call, acquire, recorded, find_ptr, alloc_by_ptr, unused_table,
}
use koshka.Vmem.{vmem_alloc, vmem_free, no_allocation, free_found}
use koshka.Vmem.Lookup.{release, release_lem, vmem_alloc-recorded}

-- The allocations since the start of the program, the earliest first. What is freed in between
-- leaves the table as it is.
pub data Run : List Allocation → Vmem → Type 0 where
  start : Run [] unused_table
  alloc :
      {made : List Allocation} {v v' : Vmem} (ptr size : ℕ) (perm : Permission)
      → Run made v
      → vmem_alloc ptr size perm v ≡ ok (ptr, acquire size perm, v')
      → Run (made ++ record { ptr = ptr; size = size; perm = perm } ∷ []) v'

-- What a pointer is released as: the first allocation that got it.
abbrev pub released : List Allocation → ℕ → Result (List Call)
released [] ptr = err bounds
released (a ∷ rest) ptr = if a.ptr == ptr then ok (release ptr a.size a.perm) else released rest ptr

-- The table is the allocations and then empty entries, 1024 in all.
record Tabulates (made : List Allocation) (v : Vmem) : Type 0 where
  free : ℕ
  whole : length made + free ≡ 1024
  buffers : v.buffers ≡ made ++ replicate free no_allocation
  next : v.next_buf ≡ length made

set-append :
    (xs : List Allocation) (y : Allocation) (ys : List Allocation) (a : Allocation)
    → set (xs ++ y ∷ ys) (length xs) a ≡ (xs ++ a ∷ []) ++ ys
set-append [] y ys a = refl
set-append (x ∷ xs) y ys a = ap (λ l. x ∷ l) (set-append xs y ys a)

find_ptr-empty : (n ptr : ℕ) → ptr ≢ 0 → find_ptr (replicate n no_allocation) ptr ≡ none
unfolding find_ptr
find_ptr-empty zero ptr h = refl
find_ptr-empty (suc n) ptr h = ground (arith, find_ptr-empty n ptr h)

free_found-released :
    (made : List Allocation) (n ptr : ℕ)
    → ptr ≢ 0
    → free_found ptr (find_ptr (made ++ replicate n no_allocation) ptr) ≡ released made ptr
unfolding find_ptr
free_found-released [] n ptr h = ap (free_found ptr) (find_ptr-empty n ptr h)
free_found-released (a ∷ rest) n ptr h = elim (Bool-cases (a.ptr == ptr)) [
  | inl same ↦ rw same (release_lem ptr a.size a.perm)
  | inr other ↦ rw other (free_found-released rest n ptr h)
]

length-buffers : {made : List Allocation} {v : Vmem} → Tabulates made v → length v.buffers ≡ 1024
length-buffers {made} t =
    ap length t.buffers
    ∙ length-append made (replicate t.free no_allocation)
    ∙ ap (λ n. length made + n) (length-replicate t.free no_allocation)
    ∙ t.whole

vmem_alloc-full :
    {made : List Allocation} {v : Vmem} (ptr size : ℕ) (perm : Permission)
    → Tabulates made v
    → length made ≡ 1024
    → vmem_alloc ptr size perm v ≡ err bounds
unfolding vmem_alloc
vmem_alloc-full ptr size perm t full = ground (arith, length-buffers t, t.next)

vmem_alloc-room :
    {made : List Allocation} {v : Vmem} (ptr size : ℕ) (perm : Permission)
    → Tabulates made v
    → length made < 1024
    → vmem_alloc ptr size perm v ≡ ok (ptr, acquire size perm, recorded ptr size perm v)
vmem_alloc-room {v = v} ptr size perm t room =
    vmem_alloc-recorded ptr size perm v (omega (arith, length-buffers t, t.next))

-- With an empty entry left, the first of them becomes the allocation.
recorded-Tabulates :
    {made : List Allocation} {v : Vmem} (ptr size : ℕ) (perm : Permission) (n : ℕ)
    → (t : Tabulates made v) → t.free ≡ suc n
    → Tabulates
        (made ++ record { ptr = ptr; size = size; perm = perm } ∷ [])
        (recorded ptr size perm v)
recorded-Tabulates {made} {v} ptr size perm n t left =
    let a : Allocation = record { ptr = ptr; size = size; perm = perm } in
    record {
      free = n;
      whole = omega (arith, length-append made (a ∷ []), t.whole);
      buffers =
          ap₂ (λ l i. set l i a) t.buffers t.next
          ∙ ap (λ k. set (made ++ replicate k no_allocation) (length made) a) left
          ∙ set-append made no_allocation (replicate n no_allocation) a;
      next = omega (arith, length-append made (a ∷ []), t.whole, t.next);
    }

alloc-Tabulates :
    {made : List Allocation} {v v' : Vmem} (ptr size : ℕ) (perm : Permission)
    → vmem_alloc ptr size perm v ≡ ok (ptr, acquire size perm, v')
    → (t : Tabulates made v)
    → Tabulates (made ++ record { ptr = ptr; size = size; perm = perm } ∷ []) v'
alloc-Tabulates {made} {v} {v'} ptr size perm e t = elim (zero-or-suc t.free) [
  | inl none_left ↦
      absurd (ok≢err (sym e ∙ vmem_alloc-full ptr size perm t (omega (arith, t.whole))))
  | inr left ↦
      let room : length made < 1024 = omega (arith, t.whole, left.1) in
      subst (Tabulates (made ++ record { ptr = ptr; size = size; perm = perm } ∷ []))
        (ap (λ r. r.2) (ok-inj (sym (vmem_alloc-room ptr size perm t room) ∙ e)))
        (recorded-Tabulates ptr size perm left.0 t left.1)
]
  where
    zero-or-suc : (n : ℕ) → (n ≡ 0) ⊎ ((m : ℕ) × (n ≡ suc m))
    zero-or-suc zero = inl refl
    zero-or-suc (suc m) = inr (m, refl)

Run-Tabulates : {made : List Allocation} {v : Vmem} → Run made v → Tabulates made v
unfolding unused_table
Run-Tabulates start = record { free = 1024; whole = refl; buffers = refl; next = refl }
Run-Tabulates (alloc ptr size perm run e) = alloc-Tabulates ptr size perm e (Run-Tabulates run)

-- The table serves the allocations: new ones up to its size, and the release of each.
pub record IsKept (made : List Allocation) (v : Vmem) : Type 0 where
  pub bounded : length made ≤ 1024
  pub allocates :
      (ptr size : ℕ) (perm : Permission)
      → length made < 1024
      → (after : Vmem) × (vmem_alloc ptr size perm v ≡ ok (ptr, acquire size perm, after))
  pub overflows :
      (ptr size : ℕ) (perm : Permission)
      → length made ≡ 1024
      → vmem_alloc ptr size perm v ≡ err bounds
  pub frees : (ptr : ℕ) → ptr ≢ 0 → vmem_free ptr v ≡ released made ptr

-- Whatever was allocated since the start of the program, and freed in between: there is room for
-- 1024 allocations and the next one writes past the table, and `vmem_free` of a pointer other than
-- NULL releases it with the size and the permission of the first allocation that got this pointer,
-- and faults on a pointer that no allocation got.
pub Run-IsKept : {made : List Allocation} {v : Vmem} → Run made v → IsKept made v
unfolding vmem_free alloc_by_ptr
Run-IsKept {made} {v} run =
    let t : Tabulates made v = Run-Tabulates run in
    record {
      bounded = omega (arith, t.whole);
      allocates =
          λ ptr size perm room. (recorded ptr size perm v, vmem_alloc-room ptr size perm t room);
      overflows = λ ptr size perm full. vmem_alloc-full ptr size perm t full;
      frees = λ ptr h.
          ap (λ l. free_found ptr (find_ptr l ptr)) t.buffers
          ∙ free_found-released made t.free ptr h;
    }
