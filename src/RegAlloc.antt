-- ===== src/RegAlloc.antt =====
-- The register allocator of src/regalloc.{h,c}. An x86 register is the number of its enumerator.
pub mod Scan
pub mod Sound
pub mod Safety
pub mod Again
pub mod Reset
pub mod Runs
pub mod Order
pub mod Table
pub mod Refine
use koshka.Base.{ℕ, zero, suc, ◌+◌, ◌==◌, if◌then◌else◌, u8, Bool, true, false, Option, none, some}
use koshka.Base.{List, [], ◌∷◌, get_or, set, replicate}

-- enum x86_reg
pub data X86Reg : Type 0 where
  rax rcx rdx rbx rsp rbp rsi rdi r8 r9 r10 r11 r12 r13 r14 r15 : X86Reg

abbrev pub x86_index : X86Reg → ℕ
x86_index = elim [
  | X86Reg.rax ↦ 0
  | X86Reg.rcx ↦ 1
  | X86Reg.rdx ↦ 2
  | X86Reg.rbx ↦ 3
  | X86Reg.rsp ↦ 4
  | X86Reg.rbp ↦ 5
  | X86Reg.rsi ↦ 6
  | X86Reg.rdi ↦ 7
  | X86Reg.r8 ↦ 8
  | X86Reg.r9 ↦ 9
  | X86Reg.r10 ↦ 10
  | X86Reg.r11 ↦ 11
  | X86Reg.r12 ↦ 12
  | X86Reg.r13 ↦ 13
  | X86Reg.r14 ↦ 14
  | X86Reg.r15 ↦ 15
]

-- X86_GP_COUNT
abbrev pub x86_gp_count : ℕ
x86_gp_count = 14

-- The two static variables.
pub record RegState : Type 0 where
  pub taken_gp : List ℕ
  pub full : Bool

abbrev pub rsp_index : ℕ
rsp_index = x86_index X86Reg.rsp

abbrev pub rbp_index : ℕ
rbp_index = x86_index X86Reg.rbp

-- Before the first call: sixteen zeroes but for the two reserved registers.
abbrev pub initial : RegState
initial = record {
  taken_gp = set (set (replicate (x86_gp_count + 2) 0) rsp_index 0xFF) rbp_index 0xFF;
  full = false;
}

-- The loop at register `i`, with `left` rounds to go: the register found, with the table.
unfoldable pub scan : ℕ → ℕ → ℕ → List ℕ → Option (ℕ × List ℕ)
scan zero i arm taken = none
scan (suc left) i arm taken =
    let rest = scan left (i + 1) arm taken in
    if get_or taken i 0 == arm
    then some (i, taken)
    else if get_or taken i 0 == 0
    then some (i, set taken i arm)
    else rest

-- The switch on `arm_reg_id - 1` when no register is free.
abbrev pub special : ℕ → List ℕ → List ℕ
special arm taken =
    if arm == 30
    then set taken rbp_index arm
    else if arm == 32
    then set taken rsp_index arm
    else taken

-- What follows the loop.
unfoldable pub settle : RegState → ℕ → Option (ℕ × List ℕ) → Option ℕ × RegState
settle st arm (some (i, taken)) = (some i, record st { taken_gp = taken })
settle st arm none = (none, record { taken_gp = special arm st.taken_gp; full = true })

-- `reg_alloc`; `none` is the result -1. The id is stored one higher, in a u8.
unfoldable pub reg_alloc : RegState → ℕ → Option ℕ × RegState
reg_alloc st arm_reg_id =
    let arm = u8 (arm_reg_id + 1) in
    if st.full then (none, st) else settle st arm (scan x86_gp_count 0 arm st.taken_gp)

unfoldable pub reg_reset : RegState → RegState
reg_reset st = record { taken_gp = replicate (x86_gp_count + 2) 0; full = false }
