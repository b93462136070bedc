-- ===== src/Main.antt =====
-- src/main.cxx: the command.
pub mod Input
pub mod Code
pub mod Exit
pub mod Refused
pub mod Module
pub mod Leaks
use koshka.Base.{ℕ, ltb, ◌==◌, ◌||◌, if◌then◌else◌, u32, Bool, true, false, Option, none, some}
use koshka.Base.{List, [], ◌∷◌}
use koshka.Base.Result.{Result, ok, err, undefined, ◌>>=◌}
use koshka.Host.{Host}
use koshka.Vmem.{Vmem}
use koshka.Elf.{file_is_elf, load_elf}
use koshka.Nro.{Memory, nro_load}
use koshka.Imlgen.{Program, imlgen}

-- What `main` calls of the libraries under common/, and the files.
pub record Environment (Name : Type 0) : Type 0 where
  pub disk : Name → Option (List ℕ)
  -- path_has_extension(path, ".nro")
  pub has_nro_extension : Name → Bool
  -- file_size, whose results are taken not to be negative, and file_load.
  pub file_size : Name → ℕ
  pub file_load : Name → Option (List ℕ)
  -- MAGIC('M', 'O', 'D', '0')
  pub magic : ℕ

-- What the C library leaves open or may answer in several ways: an object after a read that ended
-- early, fresh memory, the memory of `nro_load`, and the callocs of `imlgen`.
pub record Answers : Type 0 where
  pub torn : List ℕ → List ℕ → List ℕ
  pub raw : ℕ → List ℕ
  pub memory : Memory
  pub pool_answers : List Bool
  pub set_answers : List Bool

-- What is left when `main` returns.
pub record Outcome : Type 0 where
  pub status : ℕ
  pub program : Option Program
  pub host : Host
  pub vmem : Vmem

module _ {Name : Type 0} (env : Environment Name) (answers : Answers) where
  -- What `main` does without code. EXIT_FAILURE is 1. The message about an ELF file has a `%s` and
  -- no argument for it, which C leaves undefined.
  abbrev pub failure : Bool → Host → Vmem → Result Outcome
  failure true h v = err undefined
  failure false h v = ok (record { status = 1; program = none; host = h; vmem = v })

  -- The buffer is generated from, unless there is none or its size is 0. The first argument is whether
  -- it comes from an ELF file.
  unfoldable pub generate : Bool → Option (List ℕ × ℕ) → Host → Vmem → Result Outcome
  generate is_elf none h v = failure is_elf h v
  generate is_elf (some (arm_buf, size)) h v = do
    let generated = imlgen answers.pool_answers answers.set_answers arm_buf (u32 size)
    let done =
        λ (prog : Program). ok (record { status = 0; program = some prog; host = h; vmem = v })
    if size == 0 then failure is_elf h v else (generated >>= done)

  -- A file that is not ELF is taken for code.
  abbrev pub plain_code : Name → Option (List ℕ × ℕ)
  plain_code path = elim (env.file_load path) [
    | none ↦ none
    | some arm_buf ↦ some (arm_buf, env.file_size path)
  ]

  unfoldable pub run_code : Name → Host → Vmem → Result Outcome
  run_code path h v = do
    tested ← file_is_elf env.disk answers.torn (some path) h
    let elf = load_elf env.disk answers.torn answers.raw (some path) true (tested.1) >>= λ loaded.
        generate true loaded.0 loaded.1 v
    let plain = generate false (plain_code path) (tested.1) v
    if tested.0 then elf else plain

  unfoldable pub run_module : Name → Host → Vmem → Result Outcome
  run_module path h v = do
    loaded ← nro_load answers.torn env.magic env.disk path answers.memory h v
    ok (record { status = 0; program = none; host = loaded.host; vmem = loaded.vmem })

  -- `main`, with the arguments after the command's name.
  unfoldable pub main : List Name → Host → Vmem → Result Outcome
  main [] h v = ok (record { status = 1; program = none; host = h; vmem = v })
  main (path ∷ more) h v =
      if env.has_nro_extension path then run_module path h v else run_code path h v
