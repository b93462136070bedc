-- ===== src/Examples/Files.antt =====
-- src/elf.c, src/os/nro.c and src/main.cxx on the smallest files that hold some code.
use koshka.Base.{ℕ, ◌≡◌, refl, arith, ◌==◌, if◌then◌else◌, true, false, none, some}
use koshka.Base.{Option, List, [], ◌∷◌, ◌++◌, replicate}
use koshka.Base.Slice.{slice}
use koshka.Base.Result.{ok}
use koshka.Host.{Host}
use koshka.Elf.{load_elf, has_magic}
use koshka.Elf.Sections.{First, section_at, code_of}
use koshka.Elf.Load.{IsElf, load_elf-First}
use koshka.Elf.Files.{load_elf_closes}
use koshka.Nro.{Memory, nro_load}
use koshka.Nro.Load.{IsNro, HasRoom, finished, nro_load_lem}
use koshka.Main.{Environment, Answers, Outcome, main}
use koshka.Host.{fread}
use koshka.Main.Input.{IsPlain}
use koshka.Main.Code.{IsCode}
use koshka.Main.Refused.{main-returns_iff}
use koshka.Main.Leaks.{main-left_open}
use koshka.Main.Module.{IsModule, main_module}
use koshka.Imlgen.Linked.{Listing}
use koshka.Imlgen.Generated.{code_pool}
use koshka.Base.{◌↔◌}
use koshka.Main.Exit.{Compiles, main-Compiles}
use koshka.Examples.Decoding.{add_imm, bic}
use koshka.Examples.Generation.{code, code-Listing, code-Fetches}
use koshka.Examples.Mapping.{none_used}

-- One section header at 64, and eight bytes of code at 128.
abbrev elf_file : List ℕ
elf_file =
    (127 ∷ 69 ∷ 76 ∷ 70 ∷ [])
    ++ (replicate 14 0
        ++ ((183 ∷ 0 ∷ [])
            ++ (replicate 20 0
                ++ ((64 ∷ 0 ∷ 0 ∷ 0 ∷ 0 ∷ 0 ∷ 0 ∷ 0 ∷ [])
                    ++ (replicate 12 0
                        ++ ((1 ∷ 0 ∷ [])
                            ++ (replicate 6 0
                                ++ ((1 ∷ 0 ∷ 0 ∷ 0 ∷ [])
                                    ++ ((4 ∷ 0 ∷ 0 ∷ 0 ∷ 0 ∷ 0 ∷ 0 ∷ 0 ∷ [])
                                        ++ (replicate 8 0
                                            ++ ((128 ∷ 0 ∷ 0 ∷ 0 ∷ 0 ∷ 0 ∷ 0 ∷ 0 ∷ [])
                                                ++ ((8 ∷ 0 ∷ 0 ∷ 0 ∷ 0 ∷ 0 ∷ 0 ∷ 0 ∷ [])
                                                    ++ (replicate 24 0
                                                        ++ ((65 ∷ 168 ∷ 0 ∷ 145 ∷ 65 ∷ 16 ∷ 35 ∷ 138
                                                            ∷ [])))))))))))))))

-- Eight bytes of text at 128, and a MOD0 header at 136.
abbrev nro_file : List ℕ
nro_file =
    replicate 4 0
    ++ ((136 ∷ 0 ∷ 0 ∷ 0 ∷ [])
        ++ (replicate 24 0
            ++ ((128 ∷ 0 ∷ 0 ∷ 0 ∷ 8 ∷ 0 ∷ 0 ∷ 0 ∷ [])
                ++ (replicate 88 0
                    ++ ((65 ∷ 168 ∷ 0 ∷ 145 ∷ 65 ∷ 16 ∷ 35 ∷ 138 ∷ [])
                        ++ (replicate 8 0 ++ ((77 ∷ 79 ∷ 68 ∷ 48 ∷ []) ++ (replicate 28 0))))))))

-- File 0 is the one, file 1 the other, and file 2 the code alone.
abbrev disk : ℕ → Option (List ℕ)
disk n =
    if n == 0
    then some elf_file
    else if n == 1
    then some nro_file
    else if n == 2
    then some code
    else none

abbrev torn : List ℕ → List ℕ → List ℕ
torn old read = read

abbrev raw : ℕ → List ℕ
raw n = replicate n 0

abbrev granting : Host
granting = record { open_files = 0; answers = [] }

abbrev refusing : Host
refusing = record { open_files = 0; answers = false ∷ [] }

elf_file-IsElf : IsElf elf_file
unfolding has_magic slice
elf_file-IsElf = record {
  magic = refl;
  machine = refl;
  long_enough = omega arith;
  table_inside = omega arith;
  small = omega arith;
}

elf_file-First : First elf_file 64 0 1 (some (section_at elf_file 64 0))
unfolding slice
elf_file-First =
    First.found 0 (omega arith) (omega arith) (refl, refl, omega arith, omega arith)
      (λ j h k. absurd (omega arith))

elf_code : code_of elf_file (section_at elf_file 64 0) ≡ code
unfolding slice
elf_code = refl

load_elf-First_example :
    load_elf disk torn raw (some 0) true granting ≡ ok (some (code, 8), granting)
unfolding slice
load_elf-First_example =
    load_elf-First disk torn raw 0 elf_file granting refl elf_file-IsElf elf_file-First
      (omega arith)

load_elf_closes_example :
    (r : Option (List ℕ × ℕ) × Host) × (load_elf disk torn raw (some 1) true granting ≡ ok r)
    × (r.1.open_files ≡ 0)
load_elf_closes_example = load_elf_closes disk torn raw 1 granting

nro_file-IsNro : IsNro nro_file
unfolding slice
nro_file-IsNro = record {
  headers = omega arith;
  text_inside = omega arith;
  mod0_inside = omega arith;
  small = omega arith;
}

abbrev memory : Memory
memory = record { text_at = 4096; text_raw = replicate 8 0; dest_at = 8192 }

none_used-HasRoom : HasRoom none_used
none_used-HasRoom = record { two = omega arith; table = omega arith }

nro_load_lem_example :
    nro_load torn 0x30444F4D disk 1 memory granting none_used
    ≡ ok (finished 0x30444F4D nro_file memory granting none_used)
nro_load_lem_example =
    nro_load_lem disk torn 0x30444F4D nro_file 1 memory granting none_used refl nro_file-IsNro
      none_used-HasRoom

-- The text is the code, and the MOD0 header is there.
nro_buffers :
    (finished 0x30444F4D nro_file memory granting none_used).buffers
    ≡ some (record { text = code; has_mod0 = true })
unfolding slice
nro_buffers = refl

abbrev env : Environment ℕ
env = record {
  disk = disk;
  has_nro_extension = λ n. n == 1;
  file_size = λ n. if n == 2 then 8 else 0;
  file_load = λ n. if n == 2 then some code else none;
  magic = 0x30444F4D;
}

abbrev answers : Answers
answers = record { torn = torn; raw = raw; memory = memory; pool_answers = []; set_answers = [] }

-- File 2 is the code and nothing else.
code_file-IsPlain : IsPlain env answers 2 code
unfolding has_magic fread slice
code_file-IsPlain = record { no_module = refl; exists = refl; no_magic = refl }

code_file-Compiles :
    Compiles granting (add_imm ∷ bic ∷ []) (main env answers (2 ∷ []) granting none_used)
code_file-Compiles =
    main-Compiles env answers 2 [] code granting none_used add_imm (bic ∷ [])
      (IsCode.in_file code_file-IsPlain refl refl) refl refl refl (omega arith) code-Listing

main-left_open_example : code_file-Compiles.outcome.host.open_files ≡ 1
main-left_open_example =
    main-left_open env answers 2 [] granting none_used code_file-Compiles.outcome refl
      code_file-Compiles.returns

main-returns_iff_example :
    ((r : Outcome) × (main env answers (2 ∷ []) granting none_used ≡ ok r))
    ↔ Listing (code_pool code) 0 (add_imm ∷ bic ∷ [])
main-returns_iff_example =
    main-returns_iff env answers 2 [] code granting none_used add_imm (bic ∷ [])
      (IsCode.in_file code_file-IsPlain refl refl) refl refl refl (omega arith) code-Fetches

main_module_example :
    main env answers (1 ∷ []) granting none_used
    ≡ ok (record {
      status = 0;
      program = none;
      host = (finished 0x30444F4D nro_file memory granting none_used).host;
      vmem = (finished 0x30444F4D nro_file memory granting none_used).vmem;
    })
main_module_example =
    main_module env answers 1 [] granting none_used
      (IsModule.whole refl refl nro_file-IsNro none_used-HasRoom)
