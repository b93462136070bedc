-- ===== src/Main/Refused.antt =====
-- The command on code with a word that `decode` does not accept.
use koshka.Base.{ℕ, Bool, ◌*◌, ◌^◌, ◌≤◌, ◌<◌, ◌≡◌, refl, sym, ◌∙◌, arith, ◌↔◌, inl, inr, u32}
use koshka.Base.{true, some, List, ◌∷◌, length}
use koshka.Base.Result.{Faults, ok, ok≢err}
use koshka.Host.{Host}
use koshka.Vmem.{Vmem}
use koshka.Pool.{all_granted}
use koshka.Imlgen.{imlgen}
use koshka.Imlgen.Linked.{Listing}
use koshka.Imlgen.Generated.{code_pool}
use koshka.Imlgen.Refused.{Fetches, imlgen-Listing}
use koshka.Main.{Environment, Answers, Outcome, main, generate}
use koshka.Main.Code.{IsCode, Generates, IsCode-Generates}
use koshka.Main.Exit.{Compiles, main-Compiles, ==_false_of_pos}

-- A fault of `imlgen` is one of the command.
generate-Faults :
    {Name : Type 0} (env : Environment Name) (answers : Answers) (is_elf : Bool) (arm_code : List ℕ)
    (h : Host) (v : Vmem)
    → 0 < length arm_code
    → length arm_code < 2 ^ 32
    → Faults (imlgen answers.pool_answers answers.set_answers arm_code (length arm_code))
    → Faults (generate env answers is_elf (some (arm_code, length arm_code)) h v)
unfolding generate
generate-Faults env answers is_elf arm_code h v pos small f =
    let cast : u32 (length arm_code) ≡ length arm_code = omega arith in
    (f.0, rw (==_false_of_pos (length arm_code) pos, cast, f.1) refl)

-- On code of whole words, at most 2^30 / 192 of them, which is the first section of code of an
-- ELF file for AArch64 or a whole file of another kind, and with every malloc and calloc granted,
-- the command returns if and only if decode accepts each of the words: it is not 0, the fields of
-- a bitwise operation with an immediate encode a bitmask, and the shift of an operation on
-- shifted registers fits them. Words of unallocated pages, which decode only logs, are among
-- those.
pub main-returns_iff :
    {Name : Type 0} (env : Environment Name) (answers : Answers) (path : Name) (more : List Name)
    (arm_code : List ℕ) (h : Host) (v : Vmem) (w : ℕ) (words : List ℕ)
    → IsCode env answers path h arm_code
    → all_granted answers.pool_answers ≡ true
    → all_granted answers.set_answers ≡ true
    → length arm_code ≡ 4 * length (w ∷ words)
    → 192 * length (w ∷ words) ≤ 2 ^ 30
    → Fetches (code_pool arm_code) 0 (w ∷ words)
    → ((r : Outcome) × (main env answers (path ∷ more) h v ≡ ok r))
      ↔ Listing (code_pool arm_code) 0 (w ∷ words)
main-returns_iff env answers path more arm_code h v w words input pool set_ size room fetches = (
  λ r.
      elim (imlgen-Listing answers.pool_answers answers.set_answers arm_code (w ∷ words)
        (omega arith) pool size room fetches) [
          | inl listing ↦ listing
          | inr f ↦
              let g : Faults
                  (generate env answers (got.0) (some (arm_code, length arm_code)) got.1.host v) =
                generate-Faults env answers (got.0) arm_code got.1.host v (omega (arith, size))
                  (omega (arith, size, room)) f in
              absurd (ok≢err (sym r.1 ∙ got.1.same ∙ g.1))
        ],
  λ listing.
      let all : Compiles h (w ∷ words) (main env answers (path ∷ more) h v) =
        main-Compiles env answers path more arm_code h v w words input pool set_ size room
          listing in
      (all.outcome, all.returns),
)
  where
    got :
        (is_elf : Bool) × Generates env answers h v is_elf
          (some (arm_code, length arm_code))
          (main env answers (path ∷ more) h v)
    got = IsCode-Generates env answers path more h v input
