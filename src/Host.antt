-- ===== src/Host.antt =====
-- The functions of the C library that src/elf.c and src/os/nro.c call on files, and malloc.
pub mod Whole
use koshka.Base.{ℕ, ◌+◌, ◌-◌, ◌^◌, ltb, ◌==◌, if◌then◌else◌, Bool, true}
use koshka.Base.{Option, none, some, List, [], ◌∷◌, length}
use koshka.Base.Slice.{slice}

-- How many files are open, and what the next calls of malloc answer. Past the end of the list they
-- succeed.
pub record Host : Type 0 where
  pub open_files : ℕ
  pub answers : List Bool

-- An open file: its bytes, and the position of the next read.
pub record Stream : Type 0 where
  pub contents : List ℕ
  pub pos : ℕ

-- fopen, where `found` is what the file of that name holds, if there is one.
abbrev pub fopen : Option (List ℕ) → Host → Option Stream × Host
fopen none h = (none, h)
fopen (some contents) h =
    (some (record { contents = contents; pos = 0 }), record h { open_files = h.open_files + 1 })

abbrev pub fclose : Host → Host
fclose h = record h { open_files = h.open_files - 1 }

-- fseek(f, offset, SEEK_SET). A u64 from 2 ^ 63 on becomes a negative `long`, which is refused.
abbrev pub fseek : Stream → ℕ → Stream
fseek f offset = if ltb offset (2 ^ 63) then record f { pos = offset } else f

-- malloc
abbrev pub malloc : Host → Bool × Host
malloc h = elim (h.answers) [ [] ↦ (true, h) | a ∷ rest ↦ (a, record h { answers = rest }) ]

-- `torn old read` is what an object of the bytes `old` holds after a read that ended early, with
-- the bytes `read`. C leaves that open.
module _ (torn : List ℕ → List ℕ → List ℕ) where
  -- fread(object, n, 1, f): the object afterwards.
  unfoldable pub fread : List ℕ → ℕ → Stream → List ℕ × Stream
  fread old n f =
      let read = slice f.pos n f.contents in
      let left = record f { pos = f.pos + length read } in
      if length read == n
      then (read, left)
      else if length read == 0
      then (old, left)
      else (torn old read, left)
