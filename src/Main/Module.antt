-- ===== src/Main/Module.antt =====
-- The command on an NRO module.
use koshka.Base.{ℕ, ◌≡◌, refl, ◌==◌, if◌then◌else◌, true, Option, none, some, List, ◌∷◌}
use koshka.Base.Result.{ok}
use koshka.Host.{Host}
use koshka.Vmem.{Vmem}
use koshka.Nro.{Memory, Loaded, empty_module, nro_load, load_module}
use koshka.Nro.Load.{IsNro, HasRoom, finished, given_up, nro_load_lem}
use koshka.Main.{Environment, Answers, main, run_module}

-- What `nro_load` comes to for a file, or for no file.
abbrev pub module_loaded : ℕ → Memory → Option (List ℕ) → Host → Vmem → Loaded
module_loaded magic memory none h v = record {
  output = empty_module;
  buffers = none;
  host = h;
  vmem = v;
}
module_loaded magic memory (some contents) h v =
    if memory.text_at == 0 then given_up contents h v else finished magic contents memory h v

-- The path has the extension of a module. There is no such file, or it holds what its headers name
-- and the table of allocations has two places.
pub data IsModule {Name : Type 0} (env : Environment Name) (path : Name) (v : Vmem)
    : Option (List ℕ) → Type 0 where
  missing : env.has_nro_extension path ≡ true → env.disk path ≡ none → IsModule env path v none
  whole :
      {contents : List ℕ}
      → env.has_nro_extension path ≡ true
      → env.disk path ≡ some contents
      → IsNro contents
      → HasRoom v
      → IsModule env path v (some contents)

-- On a path with the extension of a module the command ends with status 0 and no program, both where
-- there is no such file, and nothing is opened or allocated, and where the file is whole, whether
-- its text can be allocated or not; the files and the allocations are left as `nro_load` leaves them.
pub main_module :
    {Name : Type 0} (env : Environment Name) (answers : Answers) (path : Name) (more : List Name)
    {o : Option (List ℕ)} (h : Host) (v : Vmem)
    → IsModule env path v o
    → main env answers (path ∷ more) h v
      ≡ ok (record {
        status = 0;
        program = none;
        host = (module_loaded env.magic answers.memory o h v).host;
        vmem = (module_loaded env.magic answers.memory o h v).vmem;
      })
unfolding main run_module
main_module env answers path more h v (IsModule.missing extension none_) =
    unfold nro_load load_module in rw (extension, none_) refl
main_module env answers path more h v
      (IsModule.whole {contents = contents} extension exists nro room) =
    rw
      (
        extension,
        nro_load_lem env.disk answers.torn env.magic contents path answers.memory h v exists nro
            room,
      )
      refl
