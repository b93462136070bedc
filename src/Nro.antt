-- ===== src/Nro.antt =====
-- src/os/nro.{h,c} and src/os/module.h: reading an NRO file. The structs are read field by field
-- from their bytes; on x86-64 none of them is padded.
pub mod Structs
pub mod Load
use koshka.Base.{ℕ, ◌+◌, ◌*◌, ◌/◌, ◌==◌, if◌then◌else◌, Bool, true, false, Option, none, some, List}
use koshka.Base.{replicate}
use koshka.Base.Result.{Result, ok, ◌>>=◌, ◌>>◌}
use koshka.Host.{Host, Stream, fopen, fclose, fseek, fread}
use koshka.Vmem.{Vmem, Permission, vmem_alloc}
use Structs.{Module, NroStart, NroHdr, Mod0, read_start, read_hdr, read_mod0}
use Structs.{sizeof_start, sizeof_hdr, sizeof_mod0}

-- `module output = {0}`
abbrev pub empty_module : Module
empty_module = record { base = 0; entry_point = 0 }

-- What the C library answers to the two allocations: the address of the text, with what stands
-- there before the read, and the address of the room for the translation.
pub record Memory : Type 0 where
  pub text_at : ℕ
  pub text_raw : List ℕ
  pub dest_at : ℕ

-- The buffers, as they are when `nro_load` returns; it keeps none of them.
pub record Buffers : Type 0 where
  pub text : List ℕ
  pub has_mod0 : Bool

pub record Loaded : Type 0 where
  pub output : Module
  pub buffers : Option Buffers
  pub host : Host
  pub vmem : Vmem

-- `magic` is MAGIC('M', 'O', 'D', '0'); `vfile_open` only wraps a buffer.
module _ (torn : List ℕ → List ℕ → List ℕ) (magic : ℕ) where
  -- The part of `nro_load` after the text was allocated.
  unfoldable pub read_text : NroStart → ℕ → Memory → Stream → Host → Vmem → Result Loaded
  read_text start_ textsize memory f h v = do
    let (text, f') = fread torn (memory.text_raw) textsize f
    let at_mod = fseek f' (start_.mod0_offset)
    let mod_ = read_mod0 ((fread torn (replicate sizeof_mod0 0) sizeof_mod0 at_mod).0)
    dest ← vmem_alloc (memory.dest_at) (textsize * 3 / 2) Permission.mem_rwx v
    ok (record {
      output = empty_module;
      buffers = some (record { text = text; has_mod0 = mod_.magic == magic });
      host = fclose h;
      vmem = dest.2;
    })

  -- `nro_load` after fopen. Where the text cannot be allocated the file stays open.
  unfoldable pub load_module : Memory → Option Stream × Host → Vmem → Result Loaded
  load_module memory (none, h) v =
      ok (record { output = empty_module; buffers = none; host = h; vmem = v })
  load_module memory (some f, h) v = do
    let (start_bytes, f1) = fread torn (replicate sizeof_start 0) sizeof_start f
    let (hdr_bytes, f2) = fread torn (replicate sizeof_hdr 0) sizeof_hdr f1
    let header = read_hdr hdr_bytes
    let textsize = header.text_seg.size
    let at_text = fseek f2 (header.text_seg.offset)
    text ← vmem_alloc (memory.text_at) textsize Permission.mem_rw v
    let given_up : Loaded = record {
      output = empty_module;
      buffers = none;
      host = h;
      vmem = text.2;
    }
    let rest = read_text (read_start start_bytes) textsize memory at_text h (text.2)
    if text.0 == 0 then ok given_up else rest

  unfoldable pub nro_load :
      {Name : Type 0} → (Name → Option (List ℕ)) → Name → Memory → Host → Vmem → Result Loaded
  nro_load disk path memory h v = load_module memory (fopen (disk path) h) v
