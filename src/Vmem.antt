-- ===== src/Vmem.antt =====
-- The table of allocations of src/os/vmem.{h,c}, on POSIX. A pointer is a number, NULL is 0. The
-- calls of the C library come out as a list, and what they answer goes in as an argument.
pub mod Lookup
pub mod History
pub mod Windows
use koshka.Base.{ℕ, suc, ◌+◌, ltb, ◌==◌, if◌then◌else◌, u32, Option, none, some, List, [], ◌∷◌}
use koshka.Base.{Bool, true, false, ◌||◌, get_elem?, set, replicate, length}
use koshka.Base.Result.{Result, ok, err, bounds, ◌>>=◌}

-- vmem_permission
pub data Permission : Type 0 where
  mem_r mem_rw mem_rwx : Permission

-- The protection bits of mmap: reading, writing, executing.
pub record Protection : Type 0 where
  pub read : Bool
  pub write : Bool
  pub exec : Bool

-- A call of the C library.
pub data Call : Type 0 where
  malloc : (size : ℕ) → Call
  mmap : (size : ℕ) → Protection → Call
  free : (ptr : ℕ) → Call
  munmap : (ptr size : ℕ) → Call

-- `allocation`
pub record Allocation : Type 0 where
  pub ptr : ℕ
  pub size : ℕ
  pub perm : Permission

-- `buffers` and `next_buf`
pub record Vmem : Type 0 where
  pub buffers : List Allocation
  pub next_buf : ℕ

abbrev pub no_allocation : Allocation
no_allocation = record { ptr = 0; size = 0; perm = Permission.mem_r }

-- The state at the start of the program.
unfoldable pub unused_table : Vmem
unused_table = record { buffers = replicate 1024 no_allocation; next_buf = 0 }

abbrev pub is_rwx : Permission → Bool
is_rwx Permission.mem_rwx = true
is_rwx other = false

-- `prot` in `vmem_map`
abbrev pub prot : Permission → Protection
prot Permission.mem_r = record { read = true; write = false; exec = false }
prot Permission.mem_rw = record { read = true; write = true; exec = false }
prot Permission.mem_rwx = record { read = true; write = true; exec = true }

-- The call by which `vmem_alloc` gets memory.
abbrev pub acquire : ℕ → Permission → Call
acquire size Permission.mem_rwx = Call.mmap size (prot Permission.mem_rwx)
acquire size other = Call.malloc size

-- The table with the next entry filled in.
abbrev pub recorded : ℕ → ℕ → Permission → Vmem → Vmem
recorded ptr size perm v = record {
  buffers = set v.buffers v.next_buf (record { ptr = ptr; size = size; perm = perm });
  next_buf = u32 (v.next_buf + 1);
}

-- `vmem_alloc(size, perm)`, where the C library answers `ptr`. Nothing bounds `next_buf`.
unfoldable pub vmem_alloc : ℕ → ℕ → Permission → Vmem → Result (ℕ × Call × Vmem)
vmem_alloc ptr size perm v =
    if ltb v.next_buf (length v.buffers)
    then ok (ptr, acquire size perm, recorded ptr size perm v)
    else err bounds

-- `vmem_map(size, perm)` is one call.
unfoldable pub vmem_map : ℕ → Permission → Call
vmem_map size perm = Call.mmap size (prot perm)

-- The loop of `alloc_by_ptr`, which returns the address of an entry.
unfoldable pub find_ptr : List Allocation → ℕ → Option Allocation
find_ptr [] ptr = none
find_ptr (a ∷ rest) ptr = if a.ptr == ptr then some a else find_ptr rest ptr

unfoldable pub alloc_by_ptr : Vmem → ℕ → Option Allocation
alloc_by_ptr v ptr = find_ptr v.buffers ptr

-- What `vmem_free` does with the entry. With no entry it reads through NULL.
abbrev pub free_found : ℕ → Option Allocation → Result (List Call)
free_found ptr none = err bounds
free_found ptr (some buf) = ok (
    if is_rwx buf.perm
    then Call.munmap ptr buf.size ∷ []
    else Call.free ptr ∷ Call.munmap ptr buf.size ∷ [])

-- `vmem_free(ptr)`. The table stays as it is.
unfoldable pub vmem_free : ℕ → Vmem → Result (List Call)
vmem_free ptr v = free_found ptr (alloc_by_ptr v ptr)

-- `vmem_unmap(ptr, size)` is one call.
unfoldable pub vmem_unmap : ℕ → ℕ → Call
vmem_unmap ptr size = Call.munmap ptr size
