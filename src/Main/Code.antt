-- ===== src/Main/Code.antt =====
-- Where the command gets code, and where it gets none.
use koshka.Base.{ℕ, ◌+◌, ◌≡◌, refl, ap, sym, ◌∙◌}
use koshka.Base.{Bool, false, true, Option, none, some, List, ◌∷◌, length}
use koshka.Base.Slice.{length-slice}
use koshka.Base.Result.{Result}
use koshka.Host.{Host, malloc}
use koshka.Vmem.{Vmem}
use koshka.Elf.{sh_offset, sh_size}
use koshka.Elf.Sections.{loaded, code_of}
use koshka.Elf.Load.{opened}
use koshka.Main.{Environment, Answers, Outcome, main, generate}
use koshka.Main.Input.{IsInput, IsPlain, IsForeign, main-loaded, loaded_keeps, loaded_granted}
use koshka.Main.Input.{main-plain, main-foreign, plain_code-loaded, plain_code-refused}

-- The code that the command gets.
pub data IsCode {Name : Type 0} (env : Environment Name) (answers : Answers) (path : Name)
    (h : Host) : List ℕ → Type 0 where
  in_section :
      {contents section : List ℕ}
      → IsInput env path contents (some section)
      → (malloc h).0 ≡ true
      → IsCode env answers path h (code_of contents section)
  in_file :
      {contents : List ℕ}
      → IsPlain env answers path contents
      → env.file_load path ≡ some contents
      → env.file_size path ≡ length contents
      → IsCode env answers path h contents

-- The command gets no code. Of an ELF file: it is for another machine, or has no section to load, or
-- there is no memory for it. Of a file of another kind: file_load does not load it, or it is empty.
pub data HasNoCode {Name : Type 0} (env : Environment Name) (answers : Answers) (path : Name)
    (h : Host) : Bool → Type 0 where
  no_section :
      {contents : List ℕ} {o : Option (List ℕ)}
      → IsInput env path contents o
      → (loaded contents o (opened h)).0 ≡ none
      → HasNoCode env answers path h true
  other_machine :
      {contents : List ℕ} → IsForeign env path contents → HasNoCode env answers path h true
  not_loaded :
      {contents : List ℕ}
      → IsPlain env answers path contents
      → env.file_load path ≡ none
      → HasNoCode env answers path h false
  empty :
      {contents arm_buf : List ℕ}
      → IsPlain env answers path contents
      → env.file_load path ≡ some arm_buf
      → env.file_size path ≡ 0
      → HasNoCode env answers path h false

-- The command ends as `generate` does on these bytes, of an ELF file or not, with one more file open.
pub record Generates {Name : Type 0} (env : Environment Name) (answers : Answers) (h : Host)
    (v : Vmem) (is_elf : Bool) (o : Option (List ℕ × ℕ)) (r : Result Outcome) : Type 0 where
  pub host : Host
  pub left_open : host.open_files ≡ h.open_files + 1
  pub same : r ≡ generate env answers is_elf o host v

pub IsCode-Generates :
    {Name : Type 0} (env : Environment Name) (answers : Answers) (path : Name) (more : List Name)
    {arm_code : List ℕ} (h : Host) (v : Vmem)
    → IsCode env answers path h arm_code
    → (is_elf : Bool) × Generates env answers h v is_elf
        (some (arm_code, length arm_code))
        (main env answers (path ∷ more) h v)
IsCode-Generates env answers path more h v
      (in_section {contents = contents} {section = section} input granted) =
    (
      true,
      record {
        host = (loaded contents (some section) (opened h)).1;
        left_open = loaded_keeps contents (some section) (opened h);
        same =
            main-loaded env answers path more contents {o = some section} h v input
            ∙ ap
                (λ t. generate env answers true t ((loaded contents (some section) (opened h)).1) v)
                (loaded_granted contents section h granted
                  ∙ ap (λ n. some (code_of contents section, n))
                      (sym (
                        length-slice (sh_offset section) (sh_size section) contents input.inside)));
      },
    )
IsCode-Generates env answers path more h v (in_file {contents = contents} p loads sized) = (
  false,
  record {
    host = opened h;
    left_open = refl;
    same =
        main-plain env answers path more h v p
        ∙ ap (λ t. generate env answers false t (opened h) v)
            (plain_code-loaded env answers path loads ∙ ap (λ n. some (contents, n)) sized);
  },
)

-- What `generate` gets where there is no code: no buffer, or a size of 0.
pub HasNoCode-Generates :
    {Name : Type 0} (env : Environment Name) (answers : Answers) (path : Name) (more : List Name)
    {is_elf : Bool} (h : Host) (v : Vmem)
    → HasNoCode env answers path h is_elf
    → Generates env answers h v is_elf none (main env answers (path ∷ more) h v)
unfolding generate
HasNoCode-Generates env answers path more h v
      (no_section {contents = contents} {o = o} input nothing) =
    record {
      host = (loaded contents o (opened h)).1;
      left_open = loaded_keeps contents o (opened h);
      same =
          main-loaded env answers path more contents {o = o} h v input
          ∙ ap (λ t. generate env answers true t ((loaded contents o (opened h)).1) v) nothing;
    }
HasNoCode-Generates env answers path more h v (other_machine {contents = contents} f) = record {
  host = opened h;
  left_open = refl;
  same = main-foreign env answers path more contents h v f;
}
HasNoCode-Generates env answers path more h v (not_loaded p loads) = record {
  host = opened h;
  left_open = refl;
  same =
      main-plain env answers path more h v p
      ∙ ap (λ t. generate env answers false t (opened h) v)
          (plain_code-refused env answers path loads);
}
HasNoCode-Generates env answers path more h v (empty {arm_buf = arm_buf} p loads sized) = record {
  host = opened h;
  left_open = refl;
  same =
      main-plain env answers path more h v p
      ∙ ap (λ t. generate env answers false t (opened h) v)
          (plain_code-loaded env answers path loads ∙ ap (λ n. some (arm_buf, n)) sized);
}
