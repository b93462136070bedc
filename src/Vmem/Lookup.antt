-- ===== src/Vmem/Lookup.antt =====
-- What `vmem_free` finds in the table.
use koshka.Base.{ℕ, zero, suc, ◌<◌, ◌==◌, if◌then◌else◌, ◌≡◌, ◌≢◌, refl, ap, ◌∙◌, arith}
use koshka.Base.{some, List, [], ◌∷◌, set, length, get_or, lt→ltb}
use koshka.Base.{Bool-cases, inl, inr, ==_iff}
use koshka.Base.Result.{Result, ok, ◌>>=◌}
use koshka.Vmem.{Allocation, Vmem, Permission, Call, acquire, is_rwx, find_ptr, alloc_by_ptr}
use koshka.Vmem.{vmem_alloc, vmem_free, no_allocation, recorded, free_found}

-- No entry before index `n` is for the pointer.
abbrev pub Absent : List Allocation → ℕ → ℕ → Type 0
Absent buffers n ptr = (j : ℕ) → j < n → (get_or buffers j no_allocation).ptr ≢ ptr

find_ptr-set :
    (buffers : List Allocation) (n : ℕ) (a : Allocation)
    → n < length buffers
    → Absent buffers n a.ptr
    → find_ptr (set buffers n a) a.ptr ≡ some a
unfolding find_ptr
find_ptr-set [] n a h absent = absurd (omega arith)
find_ptr-set (b ∷ rest) zero a h absent = ground arith
find_ptr-set (b ∷ rest) (suc n) a h absent = elim (Bool-cases (b.ptr == a.ptr)) [
  | inl same ↦ absurd (absent 0 (omega arith) ((==_iff b.ptr a.ptr).0 same))
  | inr other ↦ rw other (find_ptr-set rest n a (omega arith) (λ j k. absent (suc j) (omega arith)))
]

-- The calls that release memory of a permission: `free` unless it is executable, and `munmap`.
abbrev pub release : ℕ → ℕ → Permission → List Call
release ptr size Permission.mem_rwx = Call.munmap ptr size ∷ []
release ptr size other = Call.free ptr ∷ Call.munmap ptr size ∷ []

pub release_lem :
    (ptr size : ℕ) (perm : Permission)
    → ok (
        if is_rwx perm
        then Call.munmap ptr size ∷ []
        else Call.free ptr ∷ Call.munmap ptr size ∷ [])
      ≡ ok (release ptr size perm)
release_lem ptr size Permission.mem_r = refl
release_lem ptr size Permission.mem_rw = refl
release_lem ptr size Permission.mem_rwx = refl

pub vmem_alloc-recorded :
    (ptr size : ℕ) (perm : Permission) (v : Vmem)
    → v.next_buf < length v.buffers
    → vmem_alloc ptr size perm v ≡ ok (ptr, acquire size perm, recorded ptr size perm v)
unfolding vmem_alloc
vmem_alloc-recorded ptr size perm v room = rw (lt→ltb _ _ room) refl

abbrev alloc_free : ℕ → ℕ → Permission → Vmem → Result (List Call)
alloc_free ptr size perm v = vmem_alloc ptr size perm v >>= λ done. vmem_free (done.0) (done.2)

alloc_free-recorded :
    (ptr size : ℕ) (perm : Permission) (v : Vmem)
    → v.next_buf < length v.buffers
    → alloc_free ptr size perm v ≡ vmem_free ptr (recorded ptr size perm v)
alloc_free-recorded ptr size perm v room =
    ap (λ r. r >>= λ done. vmem_free (done.0) (done.2)) (vmem_alloc-recorded ptr size perm v room)

-- `vmem_free` of a pointer that `vmem_alloc` has just returned releases it with the size and the
-- permission it was asked for, if the table has room and no earlier entry is for the pointer. A
-- pointer from malloc is passed to munmap too.
pub vmem_free-alloc :
    (ptr size : ℕ) (perm : Permission) (v : Vmem)
    → v.next_buf < length v.buffers
    → Absent v.buffers v.next_buf ptr
    → (vmem_alloc ptr size perm v >>= λ done. vmem_free (done.0) (done.2))
      ≡ ok (release ptr size perm)
unfolding vmem_free alloc_by_ptr
vmem_free-alloc ptr size perm v room absent =
    alloc_free-recorded ptr size perm v room
    ∙ ap (free_found ptr) (
        find_ptr-set v.buffers v.next_buf (record { ptr = ptr; size = size; perm = perm }) room
          absent)
    ∙ release_lem ptr size perm

find_ptr-set_later :
    (buffers : List Allocation) (j n : ℕ) (a : Allocation) (ptr : ℕ)
    → j < n
    → j < length buffers
    → (get_or buffers j no_allocation).ptr ≡ ptr
    → find_ptr (set buffers n a) ptr ≡ find_ptr buffers ptr
unfolding find_ptr
find_ptr-set_later [] j n a ptr h k same = refl
find_ptr-set_later (b ∷ rest) j zero a ptr h k same = absurd (omega arith)
find_ptr-set_later (b ∷ rest) zero (suc n) a ptr h k same = ground arith
find_ptr-set_later (b ∷ rest) (suc j) (suc n) a ptr h k same =
    ground (arith, find_ptr-set_later rest j n a ptr (omega arith) (omega arith) same)

-- The table keeps the entry of memory that was freed. If `vmem_alloc` gets a pointer that an
-- earlier entry has, `vmem_free` releases it with the size and the permission of the earlier entry.
vmem_free-alloc_again :
    (j ptr size : ℕ) (perm : Permission) (v : Vmem)
    → v.next_buf < length v.buffers
    → j < v.next_buf
    → (get_or v.buffers j no_allocation).ptr ≡ ptr
    → (vmem_alloc ptr size perm v >>= λ done. vmem_free (done.0) (done.2)) ≡ vmem_free ptr v
unfolding vmem_free alloc_by_ptr
vmem_free-alloc_again j ptr size perm v room earlier same =
    alloc_free-recorded ptr size perm v room
    ∙ ap (free_found ptr) (
        find_ptr-set_later v.buffers j v.next_buf (record { ptr = ptr; size = size; perm = perm })
          ptr earlier (omega arith) same)
