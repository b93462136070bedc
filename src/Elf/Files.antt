-- ===== src/Elf/Files.antt =====
-- `load_elf` of src/elf.c leaves no file open.
use koshka.Base.{ℕ, zero, suc, ◌+◌, ◌-◌, ◌*◌, ◌≡◌, refl, ap, arith, Option, none, some, List}
use koshka.Base.{true, replicate, u64, Bool-cases, inl, inr, ◌==◌}
use koshka.Base.Result.{ok}
use koshka.Host.{Host, Stream, fopen, fseek, malloc, fread}
use koshka.Elf.{is_loadable, load_section, scan_sections, load_opened, load_elf, sizeof_shdr}
use koshka.Elf.{has_magic, e_machine, e_shoff, e_shnum, sizeof_ehdr}

malloc_keeps : (h : Host) → (malloc h).1.open_files ≡ h.open_files
malloc_keeps h = ground arith

module _ (torn : List ℕ → List ℕ → List ℕ) (raw : ℕ → List ℕ) where
  load_section_closes :
      (section : List ℕ) (f : Stream) (h : Host)
      → (load_section torn raw section f h).1.open_files ≡ h.open_files - 1
  unfolding load_section
  load_section_closes section f h = elim (Bool-cases ((malloc h).0)) [
    | inl yes_ ↦ rw yes_ (ap (λ n. n - 1) (malloc_keeps h))
    | inr no_ ↦ rw no_ (ap (λ n. n - 1) (malloc_keeps h))
  ]

  scan_sections_closes :
      (rounds shoff i : ℕ) (f : Stream) (h : Host)
      → (scan_sections torn raw rounds shoff i f h).1.open_files ≡ h.open_files - 1
  unfolding scan_sections
  scan_sections_closes zero shoff i f h = refl
  scan_sections_closes (suc rounds) shoff i f h =
      let got =
        fread torn (replicate sizeof_shdr 0) sizeof_shdr
          (fseek f (u64 (shoff + sizeof_shdr * i))) in
      elim (Bool-cases (is_loadable (got.0))) [
        | inl yes_ ↦ rw yes_ (load_section_closes (got.0) (got.1) h)
        | inr no_ ↦ rw no_ (scan_sections_closes rounds shoff (suc i) (got.1) h)
      ]

  load_opened_closes :
      (found : Option (List ℕ)) (h : Host)
      → (load_opened torn raw (fopen found h)).1.open_files ≡ h.open_files
  unfolding load_opened
  load_opened_closes none h = refl
  load_opened_closes (some contents) h =
      let got =
        fread torn (replicate sizeof_ehdr 0) sizeof_ehdr
          (record { contents = contents; pos = 0 }) in
      elim (Bool-cases (has_magic (got.0))) [
        | inr no_ ↦ rw no_ (omega arith)
        | inl yes_ ↦ rw yes_ (elim (Bool-cases (e_machine (got.0) == 183)) [
          | inr no_ ↦ rw no_ (omega arith)
          | inl arm ↦ rw arm (
              omega (
                arith,
                scan_sections_closes (e_shnum (got.0)) (e_shoff (got.0)) 0 (got.1)
                    (record h { open_files = h.open_files + 1 }),
              ))
        ])
      ]

-- `load_elf` returns for every file, and then as many files are open as before.
pub load_elf_closes :
    {Name : Type 0} (disk : Name → Option (List ℕ)) (torn : List ℕ → List ℕ → List ℕ)
    (raw : ℕ → List ℕ) (name : Name) (h : Host)
    → (r : Option (List ℕ × ℕ) × Host) × (load_elf disk torn raw (some name) true h ≡ ok r)
      × (r.1.open_files ≡ h.open_files)
unfolding load_elf
load_elf_closes disk torn raw name h =
    (load_opened torn raw (fopen (disk name) h), refl, load_opened_closes torn raw (disk name) h)
