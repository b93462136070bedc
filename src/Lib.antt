-- ===== src/Lib.antt =====
-- A verification library for koshka, a recompiling emulator for ARMv8-A.
--
-- The program turns ARM machine code into an intermediate language, IML (src/imlgen). A word is
-- sorted into a page of the instruction set by lookup tables (src/imlgen/arm_encoding.c), a decoder
-- for that page reads its fields by the macros of src/bitmanip.h and builds an IML instruction
-- (src/imlgen/decode.cxx), and the expressions under the instruction go into a growing pool and
-- refer to each other by handles (src/pool.c, src/imlgen/iml.cxx). Bitmask immediates are
-- decoded by src/arm_asl.c. A bit set marks decoded words (src/boolset.cxx), and a register
-- allocator will map ARM registers to x86 ones (src/regalloc.c). The command (src/main.cxx) takes
-- the code from a section of an ELF file (src/elf.c), from a plain file, or reads an NRO file
-- (src/os/nro.c), whose memory comes from a table of allocations (src/os/vmem.c).
--
-- Files and code:
--   Base          shared names, lists by native index, results with faults, binary digits
--   Bitmanip      the macros of src/bitmanip.h; each takes the type of its argument; Region and
--                 Flag say what they read
--   ArmEncoding   Pages and Tables are src/imlgen/arm_encoding.{h,c}; Spec is the manual's tables
--                 in the manual's notation
--   Pool          src/pool.{h,c}; a Store is a pool with what calloc will answer next; Laws is its
--                 invariant, Grow, Push and Open are one operation each, Misplaced and Total
--                 are every push, History a pool over its life, Missing a pool that got no buffer
--   Iml           src/imlgen/iml.{hxx,cxx}: Types, Objects (how a struct lies in the pool), Monad,
--                 Expressions (the two constructors), Trees (what an expression stands for),
--                 Values (what a tree computes from the contents of the registers) with Bits (the
--                 same bit by bit), Yields (total correctness of a step on the pool), Typing
--                 (well-typed trees and instructions), Starved (steps on a pool that got no buffer)
--                 and Dangling (a pool that could not grow)
--   ArmAsl        src/arm_asl.c: Length (the highest bit), Tiles (words that repeat an element), Masks
--                 and Faults (DecodeBitMasks with and without a result)
--   Decode        src/imlgen/decode.cxx: Branches, Immediates, Registers, the dispatch, and
--                 Meaning, what the decoder takes the words of four pages for; Words, the same for
--                 any page, and which words decode accepts; Manual, what the manual says that data processing
--                 instructions compute, bit by bit; Fields, Math, Shifted, Jumps, Faults, Total,
--                 Values, Computes, Adds, Effects, Typing and Starved are its theorems
--   Imlgen        imlgen and imlgen_recurse of src/imlgen/iml.cxx: Next (the write of a `next`
--                 field), Chain (the linked instructions), Stored and Linked (the recursion), Generated,
--                 Torn (code whose size is not a multiple of four), Refused (words that decode does
--                 not accept), Typing (what it returns is well-typed), Starved (no memory), Depth
--                 (how deep its calls nest), Computed (what its instructions compute)
--   Boolset       src/boolset.{hxx,cxx}; Ranges is set_range on every branch, History a set over its
--                 life
--   RegAlloc      src/regalloc.{h,c}; an x86 register is the number of its enumerator;
--                 Sound is its table between two requests, Scan and Safety are one request, Again
--                 two, Runs any number of them and of resets; Order is the allocator as a list of
--                 ids, and Table and Refine say that the code does what that list does
--   Vmem          src/os/vmem.{h,c} on POSIX; Lookup is what vmem_free finds, History the table over
--                 the life of the program, Windows the calls that are made there
--   Host          the file functions of the C library, and malloc
--   Elf           src/elf.c: Sections (which section is taken), Load and Files
--   Nro           src/os/nro.{h,c} and src/os/module.h: Structs and Load
--   Main          src/main.cxx; Input and Code are where it gets the code, Exit and Refused how
--                 the command ends on code, Module on a path of an NRO file, Leaks which files it
--                 leaves open
--   Cpu           the struct of src/armv8.h
--   Examples      tests, and the theorems at concrete inputs
--
-- Conventions. A number is a native natural number, and each cast or wrap of C is written as a
-- remainder. A failed assertion, an access outside an object and an operation that C leaves
-- undefined end a run with a fault. The C library's calloc may refuse; its answers are a list that
-- runs along with the pool. A byte of the IML pool is zero or one byte of a stored struct, and a
-- struct is read back where all its bytes stand in order; the sizes of the structs, 24 and 48, are
-- those of the x86-64 System V layout. The loop that widens a bitmask takes seven rounds of
-- fuel, since its size doubles from at least 2 up to 64. The recursion over the ARM code has a round
-- of fuel for each byte, and it goes on by four bytes.
--
-- The tag of a union is followed by what the code writes: an operand is tagged as a value, and the
-- constructor of an operation writes no tag, so that a tree is read here by the member of the union
-- that was written, and each result says that the tag is missing.
--
-- The repository has nothing that runs IML yet. Values takes an operation to compute what its name
-- and the comment on it in src/imlgen/iml.hxx say, on words of the 32 or 64 bits that the field
-- is_64bit of the instruction gives.
--
-- A file system is a function from names to bytes. C leaves open what an object holds after a read
-- that ended early, and what fresh memory holds: both are parameters.
--
-- A log message is modelled only where the call goes wrong for lack of an argument, which is a fault.
-- Those that print a number of 64 bits as one of 32, which x86-64 cuts, are left out with the rest.
--
-- Not modelled: other log messages, lib/elf_structure.h (a header of the GNU C library,
-- read as the layout of two structs), and the submodule common/, whose functions are parameters of
-- Main.
pub mod Base
pub mod Bitmanip
pub mod ArmEncoding
pub mod Pool
pub mod Iml
pub mod ArmAsl
pub mod Decode
pub mod Boolset
pub mod RegAlloc
mod Examples
pub mod Imlgen
pub mod Vmem
pub mod Host
pub mod Elf
pub mod Nro
pub mod Main
pub mod Cpu
