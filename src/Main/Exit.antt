-- ===== src/Main/Exit.antt =====
-- How the command ends.
use koshka.Base.{ℕ, ◌+◌, ◌*◌, ◌^◌, ◌≤◌, ◌<◌, ◌≡◌, refl, sym, arith, ◌==◌, u32}
use koshka.Base.{false, Bool, true, false, some, List, ◌∷◌, length}
use mathlib.Core.Path.{subst}
use koshka.Base.Result.{Result, ok}
use koshka.Host.{Host}
use koshka.Vmem.{Vmem}
use koshka.Pool.{all_granted}
use koshka.Imlgen.{Program, imlgen}
use koshka.Imlgen.Linked.{Listing}
use koshka.Imlgen.Computed.{Computed, Chain-Computed}
use koshka.Imlgen.Generated.{Generated, code_pool, imlgen-Generated}
use koshka.Main.{Environment, Answers, Outcome, main, generate}
use koshka.Main.Code.{IsCode, Generates, IsCode-Generates}

pub ==_false_of_pos : (n : ℕ) → 0 < n → (n == 0) ≡ false
==_false_of_pos n h = ground arith

-- What the command has generated: the words, linked, and computing what they say.
pub record Compiles (h : Host) (words : List ℕ) (r : Result Outcome) : Type 0 where
  pub outcome : Outcome
  pub returns : r ≡ ok outcome
  pub succeeds : outcome.status ≡ 0
  pub program : Program
  pub generated : outcome.program ≡ some program
  pub linked : Generated words (ok program)
  pub computes : Computed linked.program.iml.pool words linked.handle
  pub left_open : outcome.host.open_files ≡ h.open_files + 1

generate-Compiles :
    {Name : Type 0} (env : Environment Name) (answers : Answers) (is_elf : Bool) (arm_code : List ℕ)
    (size : ℕ) (g h : Host) (v : Vmem) (words : List ℕ)
    → size ≡ length arm_code
    → 0 < size
    → size < 2 ^ 32
    → g.open_files ≡ h.open_files + 1
    → Listing (code_pool arm_code) 0 words
    → Generated words (imlgen answers.pool_answers answers.set_answers arm_code (length arm_code))
    → Compiles h words (generate env answers is_elf (some (arm_code, size)) g v)
unfolding generate
generate-Compiles env answers is_elf arm_code size g h v words whole pos small open_ listing got =
    let cast : u32 size ≡ length arm_code = omega arith in
    record {
      outcome = record { status = 0; program = some got.program; host = g; vmem = v };
      returns = rw (==_false_of_pos size pos, cast, got.returns) refl;
      succeeds = refl;
      program = got.program;
      generated = refl;
      linked = record {
        handle = got.handle;
        program = got.program;
        returns = refl;
        chain = got.chain;
        used = got.used;
        entry = got.entry;
        marks = got.marks;
      };
      computes = Chain-Computed listing got.chain;
      left_open = open_;
    }

pub main-Compiles :
    {Name : Type 0} (env : Environment Name) (answers : Answers) (path : Name) (more : List Name)
    (arm_code : List ℕ) (h : Host) (v : Vmem) (w : ℕ) (words : List ℕ)
    → IsCode env answers path h arm_code
    → all_granted answers.pool_answers ≡ true
    → all_granted answers.set_answers ≡ true
    → length arm_code ≡ 4 * length (w ∷ words)
    → 192 * length (w ∷ words) ≤ 2 ^ 30
    → Listing (code_pool arm_code) 0 (w ∷ words)
    → Compiles h (w ∷ words) (main env answers (path ∷ more) h v)
main-Compiles env answers path more arm_code h v w words input pool set_ size room listing =
    let got : (is_elf : Bool) × Generates env answers h v is_elf (some (arm_code, length arm_code))
          (main env answers (path ∷ more) h v) =
      IsCode-Generates env answers path more h v input in
    subst (Compiles h (w ∷ words)) (sym got.1.same) (
      generate-Compiles env answers (got.0) arm_code (length arm_code) got.1.host h v (w ∷ words)
        refl (omega (arith, size)) (omega (arith, size, room)) got.1.left_open listing
        (imlgen-Generated answers.pool_answers answers.set_answers arm_code w words pool set_ size
          room listing))
