-- ===== src/Elf/Load.antt =====
-- `load_elf` loads the first section of code, and closes the file on every path.
use koshka.Base.{ℕ, zero, suc, ◌+◌, ◌*◌, ◌^◌, ◌≤◌, ◌<◌, ◌≡◌, refl, sym, ap, ◌∙◌, arith, ◌==◌, not}
use koshka.Base.{true, false, ◌-◌, Option, none, some, List, length, replicate, u64}
use koshka.Base.{Bool-cases, inl, inr, lt→ltb, ==_iff, ==_false}
use koshka.Base.Slice.{slice}
use koshka.Base.Result.{ok}
use koshka.Elf.Sections.{is_loadable_yes, is_loadable_no}
use koshka.Host.{Host, Stream, fclose, fseek, fread}
use koshka.Elf.Sections.{is_loadable_yes, is_loadable_no}
use koshka.Host.Whole.{fread_whole}
use koshka.Elf.{sizeof_ehdr, sizeof_shdr, e_machine, e_shoff, e_shnum, sh_offset, sh_size}
use koshka.Elf.{
  has_magic, load_section, scan_sections, load_opened, load_elf, file_is_elf, test_opened,
}
use koshka.Elf.Sections.{section_at, First, InFile, loaded}

abbrev at : List ℕ → ℕ → Stream
at contents pos = record { contents = contents; pos = pos }

module _ (torn : List ℕ → List ℕ → List ℕ) (raw : ℕ → List ℕ) (contents : List ℕ) where
  read_section :
      (p shoff i : ℕ)
      → shoff + sizeof_shdr * suc i ≤ length contents
      → length contents < 2 ^ 63
      → fread torn
          (replicate sizeof_shdr 0)
          sizeof_shdr
          (fseek (at contents p) (u64 (shoff + sizeof_shdr * i)))
        ≡ (section_at contents shoff i, at contents (u64 (shoff + sizeof_shdr * i) + sizeof_shdr))
  read_section p shoff i fits small =
      let same : u64 (shoff + sizeof_shdr * i) ≡ shoff + sizeof_shdr * i = omega arith in
      rw (same, lt→ltb (shoff + sizeof_shdr * i) (2 ^ 63) (omega arith))
        (fread_whole torn (replicate sizeof_shdr 0) sizeof_shdr
          (at contents (shoff + sizeof_shdr * i)) (omega arith))

  load_section_lem :
      (section : List ℕ) (p : ℕ) (h : Host)
      → sh_offset section + sh_size section ≤ length contents
      → length contents < 2 ^ 63
      → load_section torn raw section (at contents p) h
        ≡ ((loaded contents (some section) h).0, fclose ((loaded contents (some section) h).1))
  unfolding load_section
  load_section_lem section p h fits small =
      rw
        (
          lt→ltb (sh_offset section) (2 ^ 63) (omega arith),
          fread_whole torn (raw (sh_size section)) (sh_size section)
              (at contents (sh_offset section)) fits,
        )
        (ground arith)

  scan_sections-First :
      (rounds shoff i p : ℕ) (h : Host) {o : Option (List ℕ)}
      → shoff + sizeof_shdr * (i + rounds) ≤ length contents
      → length contents < 2 ^ 63
      → First contents shoff i rounds o
      → InFile contents o
      → scan_sections torn raw rounds shoff i (at contents p) h
        ≡ ((loaded contents o h).0, fclose ((loaded contents o h).1))
  unfolding scan_sections
  scan_sections-First zero shoff i p h fits small (First.absent none_) inside = refl
  scan_sections-First zero shoff i p h fits small (First.found k from to yes_ first) inside =
      absurd (omega arith)
  scan_sections-First (suc rounds) shoff i p h fits small (First.absent none_) inside =
      rw
        (
          read_section p shoff i (omega arith) small,
          is_loadable_no (section_at contents shoff i) (none_ i (omega arith) (omega arith)),
        )
        (scan_sections-First rounds shoff (suc i) _ h (omega arith) small
          (First.absent (λ j from to. none_ j (omega arith) (omega arith))) tt)
  scan_sections-First (suc rounds) shoff i p h fits small (First.found k from to yes_ first)
        inside =
      elim (Bool-cases (k == i)) [
        | inl here ↦
            let e : i ≡ k = sym ((==_iff k i).0 here) in
            rw
              (
                read_section p shoff i (omega arith) small,
                ap (section_at contents shoff) e,
                is_loadable_yes (section_at contents shoff k) yes_,
              )
              (load_section_lem (section_at contents shoff k) _ h inside small)
        | inr later ↦
            let ne = ==_false later in
            rw
              (
                read_section p shoff i (omega arith) small,
                is_loadable_no (section_at contents shoff i)
                    (first i (omega arith) (omega (arith, ne))),
              )
              (scan_sections-First rounds shoff (suc i) _ h (omega arith) small
                (First.found k (omega (arith, ne)) (omega arith) yes_
                  (λ j from' to'. first j (omega arith) to'))
                inside)
      ]

abbrev pub header_of : List ℕ → List ℕ
header_of contents = slice 0 sizeof_ehdr contents

-- The file is an ELF file for AArch64 whose header and section headers are all in the file.
pub record IsElf (contents : List ℕ) : Type 0 where
  pub magic : has_magic (header_of contents) ≡ true
  pub machine : e_machine (header_of contents) ≡ 183
  pub long_enough : sizeof_ehdr ≤ length contents
  pub table_inside :
      e_shoff (header_of contents) + sizeof_shdr * e_shnum (header_of contents) ≤ length contents
  pub small : length contents < 2 ^ 63

abbrev pub opened : Host → Host
opened h = record h { open_files = h.open_files + 1 }

loaded_opened :
    (contents : List ℕ) (o : Option (List ℕ)) (h : Host)
    → ◌≡◌ {A = Option (List ℕ × ℕ) × Host}
        ((loaded contents o (opened h)).0, fclose ((loaded contents o (opened h)).1))
        (loaded contents o h)
loaded_opened contents none h = ground arith
loaded_opened contents (some section) h = ground arith

load_opened-First :
    (torn : List ℕ → List ℕ → List ℕ) (raw : ℕ → List ℕ) (contents : List ℕ) {o : Option (List ℕ)}
    (h : Host)
    → IsElf contents
    → First contents (e_shoff (header_of contents)) 0 (e_shnum (header_of contents)) o
    → InFile contents o
    → load_opened torn raw (some (at contents 0), opened h) ≡ loaded contents o h
unfolding load_opened
load_opened-First torn raw contents {o} h elf first inside =
    rw (fread_whole torn (replicate sizeof_ehdr 0) sizeof_ehdr (at contents 0) elf.long_enough) (
      rw (elf.magic, ap (λ m. not (m == 183)) elf.machine)
        (scan_sections-First torn raw contents (e_shnum (header_of contents))
            (e_shoff (header_of contents)) 0 _ (opened h) (omega (arith, elf.table_inside))
            elf.small first inside
          ∙ loaded_opened contents o h))

-- From an ELF file for AArch64 with its section headers in the file, `load_elf` loads the bytes of
-- the first section that is program data, executable and of 4 bytes or more, if that section lies
-- in the file. If there is no such section, or malloc refuses, it returns NULL. The file is closed.
pub load_elf-First :
    {Name : Type 0} (disk : Name → Option (List ℕ)) (torn : List ℕ → List ℕ → List ℕ)
    (raw : ℕ → List ℕ) (name : Name) (contents : List ℕ) {o : Option (List ℕ)} (h : Host)
    → disk name ≡ some contents
    → IsElf contents
    → First contents (e_shoff (header_of contents)) 0 (e_shnum (header_of contents)) o
    → InFile contents o
    → load_elf disk torn raw (some name) true h ≡ ok (loaded contents o h)
unfolding load_elf
load_elf-First disk torn raw name contents h exists elf first inside =
    rw exists (ap ok (load_opened-First torn raw contents h elf first inside))

-- On a whole header the test for an ELF file is the test of its magic.
pub file_is_elf_lem :
    {Name : Type 0} (disk : Name → Option (List ℕ)) (torn : List ℕ → List ℕ → List ℕ) (name : Name)
    (contents : List ℕ) (h : Host)
    → disk name ≡ some contents
    → sizeof_ehdr ≤ length contents
    → file_is_elf disk torn (some name) h ≡ ok (has_magic (header_of contents), opened h)
unfolding file_is_elf test_opened
file_is_elf_lem disk torn name contents h exists whole =
    rw
      (
        exists,
        fread_whole torn (replicate sizeof_ehdr 0) sizeof_ehdr
            (record { contents = contents; pos = 0 }) whole,
      )
      refl

closed_again : (h : Host) → fclose (opened h) ≡ h
closed_again h = ap (λ n. record h { open_files = n }) {x = h.open_files + 1 - 1} (omega arith)

-- An ELF file for another machine is closed again, and not loaded.
pub load_elf-other_machine :
    {Name : Type 0} (disk : Name → Option (List ℕ)) (torn : List ℕ → List ℕ → List ℕ)
    (raw : ℕ → List ℕ) (name : Name) (contents : List ℕ) (h : Host)
    → disk name ≡ some contents
    → sizeof_ehdr ≤ length contents
    → has_magic (header_of contents) ≡ true
    → (e_machine (header_of contents) == 183) ≡ false
    → load_elf disk torn raw (some name) true h ≡ ok (none, h)
unfolding load_elf load_opened
load_elf-other_machine disk torn raw name contents h exists whole magic other =
    rw
      (
        exists,
        fread_whole torn (replicate sizeof_ehdr 0) sizeof_ehdr (at contents 0) whole,
        magic,
        other,
      )
      (ap (λ t. ok (none, t)) (closed_again h))
