-- ===== src/Examples/Mapping.antt =====
-- src/os/vmem.c on the first allocations of the program.
use koshka.Base.{◌≡◌, refl, arith, [], ◌∷◌, replicate}
use koshka.Base.Result.{ok, ◌>>=◌}
use koshka.Vmem.{Vmem, Permission, Call, no_allocation, vmem_alloc, vmem_free}
use koshka.Vmem.Lookup.{vmem_free-alloc}
use koshka.Vmem.History.{Run, IsKept, Run-IsKept}
use koshka.Vmem.{Allocation, recorded, unused_table}
use koshka.Base.{List}

abbrev pub none_used : Vmem
none_used = record { buffers = replicate 4 no_allocation; next_buf = 0 }

vmem_free-alloc_example :
    (vmem_alloc 4096 64 Permission.mem_rwx none_used >>= λ done. vmem_free (done.0) (done.2))
    ≡ ok (Call.munmap 4096 64 ∷ [])
vmem_free-alloc_example =
    vmem_free-alloc 4096 64 Permission.mem_rwx none_used (omega arith) (λ j h. absurd (omega arith))

-- 64 executable bytes at 4096, freed, and then 8 bytes from malloc at the same address.
abbrev reused : Vmem
reused = recorded 4096 8 Permission.mem_rw (recorded 4096 64 Permission.mem_rwx unused_table)

abbrev reused_made : List Allocation
reused_made =
    record { ptr = 4096; size = 64; perm = Permission.mem_rwx }
    ∷ record { ptr = 4096; size = 8; perm = Permission.mem_rw }
    ∷ []

reused-Run : Run reused_made reused
unfolding vmem_alloc unused_table
reused-Run =
    Run.alloc 4096 8 Permission.mem_rw (Run.alloc 4096 64 Permission.mem_rwx Run.start refl) refl

Run-IsKept_example : IsKept reused_made reused
Run-IsKept_example = Run-IsKept reused-Run
