-- ===== src/Main/Leaks.antt =====
-- Which files the command leaves open.
use koshka.Base.{ℕ, ◌+◌, ◌≡◌, refl, ap, sym, ◌∙◌, ◌==◌, Bool-cases, inl, inr, u32}
use koshka.Base.{if◌then◌else◌, true, false, Bool, Option, none, some, List, ◌∷◌}
use koshka.Base.Result.{Result, ok, err, ◌>>=◌}
use koshka.Host.{Host, fopen}
use koshka.Vmem.{Vmem}
use koshka.Imlgen.{Program, imlgen}
use koshka.Elf.{load_elf, file_is_elf, test_opened}
use koshka.Elf.Files.{load_elf_closes}
use koshka.Main.{
  Environment, Answers, Outcome, main, run_code, run_module, generate, failure, plain_code,
}

-- The host of an outcome, or else `h`.
abbrev host_of : Host → Result Outcome → Host
host_of h (ok r) = r.host
host_of h (err e) = h

abbrev finish : Host → Vmem → Result Program → Result Outcome
finish h v generated =
    generated >>= λ prog. ok (record { status = 0; program = some prog; host = h; vmem = v })

finish_keeps :
    (h : Host) (v : Vmem) (generated : Result Program) → host_of h (finish h v generated) ≡ h
finish_keeps h v (ok prog) = refl
finish_keeps h v (err e) = refl

failure_keeps :
    {Name : Type 0} (env : Environment Name) (answers : Answers) (is_elf : Bool) (h : Host)
    (v : Vmem)
    → host_of h (failure env answers is_elf h v) ≡ h
failure_keeps env answers true h v = refl
failure_keeps env answers false h v = refl

-- `generate` opens and closes nothing.
generate_keeps :
    {Name : Type 0} (env : Environment Name) (answers : Answers) (is_elf : Bool)
    (o : Option (List ℕ × ℕ)) (h : Host) (v : Vmem)
    → host_of h (generate env answers is_elf o h v) ≡ h
unfolding generate
generate_keeps env answers is_elf none h v = failure_keeps env answers is_elf h v
generate_keeps env answers is_elf (some (arm_buf, size)) h v = elim (Bool-cases (size == 0)) [
  | inl nothing ↦ rw nothing (failure_keeps env answers is_elf h v)
  | inr some_ ↦
      rw some_
        (finish_keeps h v (imlgen answers.pool_answers answers.set_answers arm_buf (u32 size)))
]

-- If the run returns, so many files are open then.
abbrev Leaves : ℕ → Result Outcome → Type 0
Leaves n run = (r : Outcome) → run ≡ ok r → r.host.open_files ≡ n

generate-Leaves :
    {Name : Type 0} (env : Environment Name) (answers : Answers) (is_elf : Bool)
    (o : Option (List ℕ × ℕ)) (h : Host) (v : Vmem)
    → Leaves h.open_files (generate env answers is_elf o h v)
generate-Leaves env answers is_elf o h v r e =
    ap (λ (g : Host). g.open_files)
      (sym (ap (host_of h) e) ∙ generate_keeps env answers is_elf o h v)

-- How many files are open after the command has looked for code in a file, or found none.
abbrev pub left_open : Option (List ℕ) → ℕ → ℕ
left_open none n = n
left_open (some contents) n = n + 1

test_opened_leaves :
    (torn : List ℕ → List ℕ → List ℕ) (found : Option (List ℕ)) (h : Host)
    → (answer : Bool) × (test_opened torn (fopen found h)
        ≡ (answer, record h { open_files = left_open found h.open_files }))
unfolding test_opened
test_opened_leaves torn none h = (false, refl)
test_opened_leaves torn (some contents) h = (_, refl)

run_code-Leaves :
    {Name : Type 0} (env : Environment Name) (answers : Answers) (path : Name) (h : Host) (v : Vmem)
    → Leaves (left_open (env.disk path) h.open_files) (run_code env answers path h v)
unfolding run_code file_is_elf
run_code-Leaves env answers path h v =
    let tested : (answer : Bool) × (test_opened answers.torn (fopen (env.disk path) h)
          ≡ (answer, record h { open_files = left_open (env.disk path) h.open_files })) =
      test_opened_leaves answers.torn (env.disk path) h in
    let left : Host = record h { open_files = left_open (env.disk path) h.open_files } in
    rw tested.1 (elim (Bool-cases (tested.0)) [
      | inl elf ↦
          let loaded : (r : Option (List ℕ × ℕ) × Host) × (load_elf env.disk answers.torn
                  answers.raw (some path) true left
                ≡ ok r)
              × (r.1.open_files ≡ left.open_files) =
            load_elf_closes env.disk answers.torn answers.raw path left in
          rw (elf, loaded.1)
            (λ r e. generate-Leaves env answers true (loaded.0.0) (loaded.0.1) v r e ∙ loaded.2)
      | inr plain ↦
          rw plain (generate-Leaves env answers false (plain_code env answers path) left v)
    ])

-- For a path that has not the extension of a module, whatever the file holds and whatever malloc
-- and calloc answer, where file_size and file_load leave no file open: if the command returns,
-- then exactly the file that file_is_elf opened is still open, and none where there is no such
-- file.
pub main-left_open :
    {Name : Type 0} (env : Environment Name) (answers : Answers) (path : Name) (more : List Name)
    (h : Host) (v : Vmem) (r : Outcome)
    → env.has_nro_extension path ≡ false
    → main env answers (path ∷ more) h v ≡ ok r
    → r.host.open_files ≡ left_open (env.disk path) h.open_files
unfolding main
main-left_open env answers path more h v r no_module returns =
    run_code-Leaves env answers path h v r (
      sym (
        ap (λ t. if t then run_module env answers path h v else run_code env answers path h v)
          no_module)
      ∙ returns)
