-- ===== src/Elf.antt =====
-- src/elf.c: the test for an ELF file, and the search for a section of ARM code. A file system is a
-- function from names to contents.
pub mod Sections
pub mod Load
pub mod Files
use koshka.Base.{ℕ, zero, suc, ◌+◌, ◌*◌, ◌^◌, ltb, leb, ◌==◌, if◌then◌else◌, u32, u64, not}
use koshka.Base.{
  Bool, true, false, little_endian, ◌&&◌, ◌||◌, Option, none, some, List, [], ◌∷◌, replicate,
}
use koshka.Base.Slice.{slice}
use koshka.Base.Result.{Result, ok, err, assertion, guard, ◌>>=◌, ◌>>◌}
use koshka.Bitmanip.{has_bit_flag}
use koshka.Host.{Host, Stream, fopen, fclose, fseek, malloc, fread}

-- A field of `n` bytes at an offset of a struct.
abbrev pub field_at : List ℕ → ℕ → ℕ → ℕ
field_at bytes offset n = little_endian (slice offset n bytes)

-- The sizes of Elf64_Ehdr and Elf64_Shdr, and the fields of theirs that are read.
abbrev pub sizeof_ehdr : ℕ
sizeof_ehdr = 64

abbrev pub sizeof_shdr : ℕ
sizeof_shdr = 64

abbrev pub e_machine : List ℕ → ℕ
e_machine header = field_at header 18 2

abbrev pub e_shoff : List ℕ → ℕ
e_shoff header = field_at header 40 8

abbrev pub e_shnum : List ℕ → ℕ
e_shnum header = field_at header 60 2

abbrev pub sh_type : List ℕ → ℕ
sh_type section = field_at section 4 4

abbrev pub sh_flags : List ℕ → ℕ
sh_flags section = field_at section 8 8

abbrev pub sh_offset : List ℕ → ℕ
sh_offset section = field_at section 24 8

abbrev pub sh_size : List ℕ → ℕ
sh_size section = field_at section 32 8

-- strncmp((char*)&header, ELFMAG, SELFMAG) == 0. No byte of the magic is NUL.
unfoldable pub has_magic : List ℕ → Bool
has_magic header =
    (field_at header 0 1 == 0x7F)
    && ((field_at header 1 1 == b'E')
        && ((field_at header 2 1 == b'L') && (field_at header 3 1 == b'F')))

-- Not skipped by the loop: `size` is an s64, so a size from 2 ^ 63 on is negative.
unfoldable pub is_loadable : List ℕ → Bool
is_loadable section =
    (sh_type section == 1)
    && (has_bit_flag (sh_flags section) 4
        && (leb 4 (sh_size section) && ltb (sh_size section) (2 ^ 63)))

abbrev pub is_some {ℓ} : {A : Type ℓ} → Option A → Bool
is_some none = false
is_some (some a) = true

-- `raw` is what memory of a size holds that malloc has just given.
module _ (torn : List ℕ → List ℕ → List ℕ) (raw : ℕ → List ℕ) where
  -- The code that a section holds, or nothing if malloc fails.
  unfoldable pub load_section : List ℕ → Stream → Host → Option (List ℕ × ℕ) × Host
  load_section section f h =
      let size = sh_size section in
      let f' = fseek f (sh_offset section) in
      let (granted, h') = malloc h in
      if granted
      then (some ((fread torn (raw size) size f').0, size), fclose h')
      else (none, fclose h')

  -- The loop over the sections from index `i` on, with the rounds left.
  unfoldable pub scan_sections : ℕ → ℕ → ℕ → Stream → Host → Option (List ℕ × ℕ) × Host
  scan_sections zero shoff i f h = (none, fclose h)
  scan_sections (suc rounds) shoff i f h =
      let at = fseek f (u64 (shoff + sizeof_shdr * i)) in
      let (section, f') = fread torn (replicate sizeof_shdr 0) sizeof_shdr at in
      let rest = scan_sections rounds shoff (suc i) f' h in
      if is_loadable section then load_section section f' h else rest

  -- `load_elf` after fopen.
  unfoldable pub load_opened : Option Stream × Host → Option (List ℕ × ℕ) × Host
  load_opened (none, h) = (none, h)
  load_opened (some f, h) =
      let (header, f') = fread torn (replicate sizeof_ehdr 0) sizeof_ehdr f in
      if not (has_magic header)
      then (none, fclose h)
      else if not (e_machine header == 183)
      then (none, fclose h)
      else scan_sections (e_shnum header) (e_shoff header) 0 f' h

-- Whether the path is NULL is asserted; `none` is NULL.
abbrev pub checked : {Name : Type 0} → Option Name → Result Name
checked none = err assertion
checked (some name) = ok name

-- What `file_is_elf` does with what fopen gave. The file is not closed.
unfoldable pub test_opened : (List ℕ → List ℕ → List ℕ) → Option Stream × Host → Bool × Host
test_opened torn (none, h) = (false, h)
test_opened torn (some f, h) =
    (has_magic ((fread torn (replicate sizeof_ehdr 0) sizeof_ehdr f).0), h)

-- `disk` is what the files hold.
module _ {Name : Type 0} (disk : Name → Option (List ℕ)) (torn : List ℕ → List ℕ → List ℕ) where
  unfoldable pub file_is_elf : Option Name → Host → Result (Bool × Host)
  file_is_elf path h = do name ← checked path; ok (test_opened torn (fopen (disk name) h))

  -- load_elf(path, size_out): the buffer with the size that is stored through `size_out`, or NULL.
  -- `sized` is whether `size_out` is not NULL.
  unfoldable pub load_elf :
      (ℕ → List ℕ) → Option Name → Bool → Host → Result (Option (List ℕ × ℕ) × Host)
  load_elf raw path sized h = do
    name ← checked path
    guard sized assertion
    ok (load_opened torn raw (fopen (disk name) h))
