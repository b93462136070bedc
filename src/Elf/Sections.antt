-- ===== src/Elf/Sections.antt =====
-- The section that `load_elf` takes, said without the loop.
use koshka.Base.{ℕ, ◌+◌, ◌*◌, ◌≤◌, ◌<◌, ◌≡◌}
use koshka.Base.{true, false, Option, none, some, List, length, if◌then◌else◌}
use koshka.Base.Slice.{slice}
use koshka.Host.{Host, malloc}
use koshka.Bitmanip.Flag.{has_bit_flag_lem}
use koshka.Base.{◌/◌, ◌%◌, ◌^◌, arith}
use koshka.Elf.{sizeof_shdr, sh_offset, sh_size, sh_type, sh_flags}
use koshka.Elf.{is_loadable}

-- The header of the section with index `i`.
abbrev pub section_at : List ℕ → ℕ → ℕ → List ℕ
section_at contents shoff i = slice (shoff + sizeof_shdr * i) sizeof_shdr contents

-- The section holds data of the program, can be executed (bit 2 of its flags), and is of four bytes
-- or more; its size, as an s64, is not negative.
abbrev pub IsLoadable : List ℕ → Type 0
IsLoadable section =
    (sh_type section ≡ 1)
    × (sh_flags section / 2 ^ 2 % 2 ≡ 1)
    × (4 ≤ sh_size section)
    × (sh_size section < 2 ^ 63)

pub is_loadable_yes : (section : List ℕ) → IsLoadable section → is_loadable section ≡ true
unfolding is_loadable
is_loadable_yes section l = rw (has_bit_flag_lem (sh_flags section) 2) (ground arith)

pub is_loadable_no : (section : List ℕ) → ¬ IsLoadable section → is_loadable section ≡ false
unfolding is_loadable
is_loadable_no section l = rw (has_bit_flag_lem (sh_flags section) 2) (ground arith)

-- Of the sections from index `i` on, `n` in number, the first that can be loaded.
pub data First (contents : List ℕ) (shoff i n : ℕ) : Option (List ℕ) → Type 0 where
  absent :
      ((j : ℕ) → i ≤ j → j < i + n → ¬ IsLoadable (section_at contents shoff j))
      → First contents shoff i n none
  found :
      (k : ℕ)
      → i ≤ k
      → k < i + n
      → IsLoadable (section_at contents shoff k)
      → ((j : ℕ) → i ≤ j → j < k → ¬ IsLoadable (section_at contents shoff j))
      → First contents shoff i n (some (section_at contents shoff k))

-- The bytes of a section.
abbrev pub code_of : List ℕ → List ℕ → List ℕ
code_of contents section = slice (sh_offset section) (sh_size section) contents

-- All bytes of the section are in the file.
abbrev pub InFile : List ℕ → Option (List ℕ) → Type 0
InFile contents none = Unit {0}
InFile contents (some section) = sh_offset section + sh_size section ≤ length contents

-- What is loaded: nothing if there is no section, and nothing if malloc refuses.
abbrev pub loaded : List ℕ → Option (List ℕ) → Host → Option (List ℕ × ℕ) × Host
loaded contents none h = (none, h)
loaded contents (some section) h =
    let (granted, h') = malloc h in
    (if granted then some (code_of contents section, sh_size section) else none, h')
