-- ===== src/Nro/Load.antt =====
-- What `nro_load` does with a whole file.
use koshka.Base.{ℕ, ◌+◌, ◌-◌, ◌*◌, ◌/◌, ◌^◌, ◌≤◌, ◌<◌, ◌≡◌, refl, ap, arith, ◌==◌, if◌then◌else◌}
use koshka.Base.{Option, none, some, List, length, little_endian, replicate, lt→ltb}
use koshka.Base.{Bool-cases, inl, inr, ==_iff, length-set}
use koshka.Base.Slice.{slice, slice-slice}
use koshka.Base.Result.{ok}
use koshka.Host.{Host, fopen}
use koshka.Host.Whole.{fread_whole}
use koshka.Vmem.{Vmem, Permission, recorded}
use koshka.Vmem.Lookup.{vmem_alloc-recorded}
use koshka.Nro.{Memory, Loaded, empty_module, nro_load, load_module, read_text}
use koshka.Nro.Structs.{NroStart, sizeof_mod0, sizeof_start, sizeof_hdr}

-- Four bytes of the file, and the three fields that `nro_load` goes by.
abbrev pub word_at : List ℕ → ℕ → ℕ
word_at contents offset = little_endian (slice offset 4 contents)

abbrev pub mod0_offset : List ℕ → ℕ
mod0_offset contents = word_at contents 4

abbrev pub text_offset : List ℕ → ℕ
text_offset contents = word_at contents 32

abbrev pub text_size : List ℕ → ℕ
text_size contents = word_at contents 36

-- The headers, the text and the MOD0 header are all in the file.
pub record IsNro (contents : List ℕ) : Type 0 where
  pub headers : 128 ≤ length contents
  pub text_inside : text_offset contents + text_size contents ≤ length contents
  pub mod0_inside : mod0_offset contents + sizeof_mod0 ≤ length contents
  pub small : length contents < 2 ^ 63

-- The table of allocations can take two more.
pub record HasRoom (v : Vmem) : Type 0 where
  pub two : v.next_buf + 2 ≤ length v.buffers
  pub table : length v.buffers < 2 ^ 32

abbrev pub with_text : ℕ → List ℕ → Vmem → Vmem
with_text text_at contents v = recorded text_at (text_size contents) Permission.mem_rw v

-- What comes out where the text was allocated.
abbrev pub finished : ℕ → List ℕ → Memory → Host → Vmem → Loaded
finished magic contents memory h v = record {
  output = empty_module;
  buffers = some (record {
    text = slice (text_offset contents) (text_size contents) contents;
    has_mod0 = word_at contents (mod0_offset contents + 8) == magic;
  });
  host = h;
  vmem =
      recorded memory.dest_at (text_size contents * 3 / 2) Permission.mem_rwx
        (with_text memory.text_at contents v);
}

-- And where it was not.
abbrev pub given_up : List ℕ → Host → Vmem → Loaded
given_up contents h v = record {
  output = empty_module;
  buffers = none;
  host = record h { open_files = h.open_files + 1 };
  vmem = with_text 0 contents v;
}

module _ (torn : List ℕ → List ℕ → List ℕ) (magic : ℕ) (contents : List ℕ) where
  read_text_lem :
      (start_ : NroStart) (memory : Memory) (h : Host) (v : Vmem)
      → IsNro contents
      → HasRoom v
      → start_.mod0_offset ≡ mod0_offset contents
      → read_text torn magic start_
          (text_size contents)
          memory
          (record { contents = contents; pos = text_offset contents })
          (record h { open_files = h.open_files + 1 })
          (with_text memory.text_at contents v)
        ≡ ok (finished magic contents memory h v)
  unfolding read_text
  read_text_lem start_ memory h v nro room starts =
      rw
        (
          fread_whole torn memory.text_raw (text_size contents)
              (record { contents = contents; pos = text_offset contents }) nro.text_inside,
          starts,
          lt→ltb (mod0_offset contents) (2 ^ 63) (omega (arith, nro.small, nro.mod0_inside)),
          fread_whole torn (replicate sizeof_mod0 0) sizeof_mod0
              (record { contents = contents; pos = mod0_offset contents }) nro.mod0_inside,
          slice-slice (mod0_offset contents) sizeof_mod0 8 4 contents (omega arith),
          vmem_alloc-recorded memory.dest_at (text_size contents * 3 / 2) Permission.mem_rwx
              (with_text memory.text_at contents v) next_room,
        )
        (ap
          (λ (n : ℕ).
            ok (record (finished magic contents memory h v) { host = record h { open_files = n } }))
          {x = h.open_files + 1 - 1} (omega arith))
    where
      next_room :
          (with_text memory.text_at contents v).next_buf
          < length ((with_text memory.text_at contents v).buffers)
      next_room = omega (
        arith,
        room.two,
        room.table,
        length-set v.buffers v.next_buf
            (record { ptr = memory.text_at; size = text_size contents; perm = Permission.mem_rw }),
      )

  load_module_lem :
      (memory : Memory) (h : Host) (v : Vmem)
      → IsNro contents
      → HasRoom v
      → load_module torn magic memory (fopen (some contents) h) v
        ≡ ok (
            if memory.text_at == 0
            then given_up contents h v
            else finished magic contents memory h v)
  unfolding load_module
  load_module_lem memory h v nro room =
      rw
        (
          fread_whole torn (replicate sizeof_start 0) sizeof_start
              (record { contents = contents; pos = 0 }) (omega (arith, nro.headers)),
          fread_whole torn (replicate sizeof_hdr 0) sizeof_hdr
              (record { contents = contents; pos = 16 }) (omega (arith, nro.headers)),
          slice-slice 0 sizeof_start 4 4 contents (omega arith),
          slice-slice 16 sizeof_hdr 16 4 contents (omega arith),
          slice-slice 16 sizeof_hdr 20 4 contents (omega arith),
          lt→ltb (text_offset contents) (2 ^ 63) (omega (arith, nro.small, nro.text_inside)),
          vmem_alloc-recorded memory.text_at (text_size contents) Permission.mem_rw v
              (omega (arith, room.two)),
        )
        (elim (Bool-cases (memory.text_at == 0)) [
          | inl null ↦ rw null (ap (λ p. ok (given_up_at p)) ((==_iff memory.text_at 0).0 null))
          | inr got ↦ rw got (read_text_lem _ memory h v nro room refl)
        ])
    where
      given_up_at : ℕ → Loaded
      given_up_at p = record (given_up contents h v) { vmem = with_text p contents v }

-- On an NRO file that holds the headers, the text and the MOD0 header that it names, and with two
-- places in the table, `nro_load` returns the empty module. If the text cannot be allocated the
-- file stays open. Otherwise the text is read whole, room of one and a half times its size is
-- allocated as executable, and the file is closed.
pub nro_load_lem :
    {Name : Type 0} (disk : Name → Option (List ℕ)) (torn : List ℕ → List ℕ → List ℕ) (magic : ℕ)
    (contents : List ℕ) (path : Name) (memory : Memory) (h : Host) (v : Vmem)
    → disk path ≡ some contents
    → IsNro contents
    → HasRoom v
    → nro_load torn magic disk path memory h v
      ≡ ok (
          if memory.text_at == 0 then given_up contents h v else finished magic contents memory h v)
unfolding nro_load
nro_load_lem disk torn magic contents path memory h v exists nro room =
    rw exists (load_module_lem torn magic contents memory h v nro room)
