-- ===== src/Vmem/Windows.antt =====
-- src/os/vmem.c where it is built for Windows. The table is the same; the calls are others.
use koshka.Base.{ℕ, ◌≡◌, refl, true, false, Option, none, some, List, [], ◌∷◌, if◌then◌else◌}
use koshka.Base.Result.{Result, ok, err, bounds}
use koshka.Vmem.{Permission, Protection, Allocation, Vmem, alloc_by_ptr, is_rwx}
use koshka.Vmem

-- The PAGE_ constants that the code uses.
data PageProtection : Type 0 where
  page_readonly page_readwrite page_execute_readwrite : PageProtection

-- A call of the system or the C library. VirtualAlloc reserves and commits at an address of the
-- system's choice, VirtualFree is asked to decommit and to release.
data WindowsCall : Type 0 where
  malloc : (size : ℕ) → WindowsCall
  virtual_alloc : (size : ℕ) → PageProtection → WindowsCall
  free : (ptr : ℕ) → WindowsCall
  virtual_free : (ptr size : ℕ) → WindowsCall

-- `prot` in `vmem_map`
abbrev prot : Permission → PageProtection
prot Permission.mem_r = PageProtection.page_readonly
prot Permission.mem_rw = PageProtection.page_readwrite
prot Permission.mem_rwx = PageProtection.page_execute_readwrite

-- The call by which `vmem_alloc` gets memory.
abbrev acquire : ℕ → Permission → WindowsCall
acquire size Permission.mem_rwx =
    WindowsCall.virtual_alloc size PageProtection.page_execute_readwrite
acquire size other = WindowsCall.malloc size

-- `vmem_map(size, perm)`
unfoldable vmem_map : ℕ → Permission → WindowsCall
vmem_map size perm = WindowsCall.virtual_alloc size (prot perm)

abbrev free_found : ℕ → Option Allocation → Result (List WindowsCall)
free_found ptr none = err bounds
free_found ptr (some buf) = ok (
    if is_rwx buf.perm
    then WindowsCall.virtual_free ptr buf.size ∷ []
    else WindowsCall.free ptr ∷ WindowsCall.virtual_free ptr buf.size ∷ [])

-- `vmem_free(ptr)`
unfoldable vmem_free : ℕ → Vmem → Result (List WindowsCall)
vmem_free ptr v = free_found ptr (alloc_by_ptr v ptr)

-- `vmem_unmap(ptr, size)`
unfoldable vmem_unmap : ℕ → ℕ → WindowsCall
vmem_unmap ptr size = WindowsCall.virtual_free ptr size

-- What a protection of pages allows, in the terms of mmap.
abbrev page_rights : PageProtection → Protection
page_rights PageProtection.page_readonly = record { read = true; write = false; exec = false }
page_rights PageProtection.page_readwrite = record { read = true; write = true; exec = false }
page_rights PageProtection.page_execute_readwrite = record {
  read = true;
  write = true;
  exec = true;
}

-- Mapped memory allows the same on both systems.
prot-rights : (perm : Permission) → page_rights (prot perm) ≡ Vmem.prot perm
prot-rights Permission.mem_r = refl
prot-rights Permission.mem_rw = refl
prot-rights Permission.mem_rwx = refl
