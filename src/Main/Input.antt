-- ===== src/Main/Input.antt =====
-- Where the command gets its code: a section of an ELF file, or a whole file of any other kind.
use koshka.Base.{ℕ, ◌≡◌, refl, ap, arith}
use koshka.Base.{◌≤◌, ◌==◌, length, true, false, Option, none, some, List, ◌∷◌, replicate}
use koshka.Host.{Host, fread, malloc}
use koshka.Vmem.{Vmem}
use koshka.Elf.{
  e_shoff, e_shnum, sh_size, has_magic, e_machine, sizeof_ehdr, file_is_elf, test_opened,
}
use koshka.Elf.Sections.{First, InFile, loaded, code_of}
use koshka.Elf.Load.{
  IsElf, header_of, opened, file_is_elf_lem, load_elf-First, load_elf-other_machine,
}
use koshka.Main.{Environment, Answers, main, run_code, generate, plain_code}

-- The path is an ELF file for AArch64, and `o` the section that is to be loaded.
pub record IsInput {Name : Type 0} (env : Environment Name) (path : Name) (contents : List ℕ)
    (o : Option (List ℕ)) : Type 0 where
  pub no_module : env.has_nro_extension path ≡ false
  pub exists : env.disk path ≡ some contents
  pub elf : IsElf contents
  pub first : First contents (e_shoff (header_of contents)) 0 (e_shnum (header_of contents)) o
  pub inside : InFile contents o

pub main-loaded :
    {Name : Type 0} (env : Environment Name) (answers : Answers) (path : Name) (more : List Name)
    (contents : List ℕ) {o : Option (List ℕ)} (h : Host) (v : Vmem)
    → IsInput env path contents o
    → main env answers (path ∷ more) h v
      ≡ generate env answers true
          ((loaded contents o (opened h)).0)
          ((loaded contents o (opened h)).1)
          v
unfolding main run_code
main-loaded env answers path more contents {o} h v input =
    rw
      (
        input.no_module,
        file_is_elf_lem env.disk answers.torn path contents h input.exists input.elf.long_enough,
        load_elf-First env.disk answers.torn answers.raw path contents {o = o} (opened h)
            input.exists input.elf input.first input.inside,
        input.elf.magic,
      )
      refl

pub loaded_keeps :
    (contents : List ℕ) (o : Option (List ℕ)) (h : Host)
    → (loaded contents o h).1.open_files ≡ h.open_files
loaded_keeps contents none h = refl
loaded_keeps contents (some section) h = ground arith

pub loaded_granted :
    (contents section : List ℕ) (h : Host)
    → (malloc h).0 ≡ true
    → (loaded contents (some section) (opened h)).0
      ≡ some (code_of contents section, sh_size section)
loaded_granted contents section h granted = ground arith

-- The path is a file of another kind. Of a file shorter than the header of an ELF file C leaves open
-- what is compared with the magic.
pub record IsPlain {Name : Type 0} (env : Environment Name) (answers : Answers) (path : Name)
    (contents : List ℕ) : Type 0 where
  pub no_module : env.has_nro_extension path ≡ false
  pub exists : env.disk path ≡ some contents
  pub no_magic :
      has_magic (
        (fread answers.torn
          (replicate sizeof_ehdr 0)
          sizeof_ehdr
          (record { contents = contents; pos = 0 })).0)
      ≡ false

-- `generate` gets what file_load and file_size answer. The file is still open.
pub main-plain :
    {Name : Type 0} (env : Environment Name) (answers : Answers) (path : Name) (more : List Name)
    {contents : List ℕ} (h : Host) (v : Vmem)
    → IsPlain env answers path contents
    → main env answers (path ∷ more) h v
      ≡ generate env answers false (plain_code env answers path) (opened h) v
unfolding main run_code file_is_elf test_opened
main-plain env answers path more h v p = rw (p.no_module, p.exists, p.no_magic) refl

pub plain_code-loaded :
    {Name : Type 0} (env : Environment Name) (answers : Answers) (path : Name) {arm_buf : List ℕ}
    → env.file_load path ≡ some arm_buf
    → plain_code env answers path ≡ some (arm_buf, env.file_size path)
plain_code-loaded env answers path loads =
    ap (λ l. elim l [ none ↦ none | some arm_buf ↦ some (arm_buf, env.file_size path) ]) loads

pub plain_code-refused :
    {Name : Type 0} (env : Environment Name) (answers : Answers) (path : Name)
    → env.file_load path ≡ none
    → plain_code env answers path ≡ none
plain_code-refused env answers path refused =
    ap (λ l. elim l [ none ↦ none | some arm_buf ↦ some (arm_buf, env.file_size path) ]) refused

-- The path is an ELF file for another machine.
pub record IsForeign {Name : Type 0} (env : Environment Name) (path : Name) (contents : List ℕ)
    : Type 0 where
  pub no_module : env.has_nro_extension path ≡ false
  pub exists : env.disk path ≡ some contents
  pub long_enough : sizeof_ehdr ≤ length contents
  pub magic : has_magic (header_of contents) ≡ true
  pub machine : (e_machine (header_of contents) == 183) ≡ false

pub main-foreign :
    {Name : Type 0} (env : Environment Name) (answers : Answers) (path : Name) (more : List Name)
    (contents : List ℕ) (h : Host) (v : Vmem)
    → IsForeign env path contents
    → main env answers (path ∷ more) h v ≡ generate env answers true none (opened h) v
unfolding main run_code
main-foreign env answers path more contents h v f =
    rw
      (
        f.no_module,
        file_is_elf_lem env.disk answers.torn path contents h f.exists f.long_enough,
        load_elf-other_machine env.disk answers.torn answers.raw path contents (opened h) f.exists
            f.long_enough f.magic f.machine,
        f.magic,
      )
      refl
