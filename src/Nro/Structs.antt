-- ===== src/Nro/Structs.antt =====
-- The structs of src/os/nro.h and src/os/module.h, and how they lie in a file.
use koshka.Base.{ℕ, ◌+◌, List, little_endian}
use koshka.Base.Slice.{slice}

-- `module`: two addresses.
pub record Module : Type 0 where
  pub base : ℕ
  pub entry_point : ℕ

pub record NroStart : Type 0 where
  pub unused : ℕ
  pub mod0_offset : ℕ
  pub pad : ℕ

pub record NroSeghdr : Type 0 where
  pub offset : ℕ
  pub size : ℕ

pub record GnuBuildId : Type 0 where
  pub val : List ℕ

pub record NroHdr : Type 0 where
  pub magic : ℕ
  pub version : ℕ
  pub size : ℕ
  pub flags : ℕ
  pub text_seg : NroSeghdr
  pub ro_seg : NroSeghdr
  pub data_seg : NroSeghdr
  pub bss_size : ℕ
  pub reserved : ℕ
  pub id : GnuBuildId
  pub dso_handle_offset : ℕ
  pub reserved2 : ℕ
  pub api_info_seg : NroSeghdr
  pub dynstr_seg : NroSeghdr
  pub dynsym_seg : NroSeghdr

-- The two structs of the assets, which no code reads.
pub record NroAssetSection : Type 0 where
  pub offset : ℕ
  pub size : ℕ

pub record NroAssetHdr : Type 0 where
  pub magic : ℕ
  pub version : ℕ
  pub icon : NroAssetSection
  pub nacp : NroAssetSection
  pub romfs : NroAssetSection

pub record Mod0 : Type 0 where
  pub reserved : ℕ
  pub magic_offset : ℕ
  pub magic : ℕ
  pub dynamic_seg_offset : ℕ
  pub bss_seg_offset : ℕ
  pub bss_start : ℕ
  pub bss_end : ℕ
  pub eh_frame_hdr_start : ℕ
  pub eh_frame_hdr_end : ℕ
  pub mod_obj_offset : ℕ

abbrev pub sizeof_start : ℕ
sizeof_start = 16

abbrev pub sizeof_hdr : ℕ
sizeof_hdr = 112

abbrev pub sizeof_mod0 : ℕ
sizeof_mod0 = 40

-- `nro_seg`, which no code uses.
pub data NroSeg : Type 0 where
  text : NroSeg

-- A u32 and a u64 at an offset.
abbrev u32_at : List ℕ → ℕ → ℕ
u32_at bytes offset = little_endian (slice offset 4 bytes)

abbrev u64_at : List ℕ → ℕ → ℕ
u64_at bytes offset = little_endian (slice offset 8 bytes)

abbrev read_seghdr : List ℕ → ℕ → NroSeghdr
read_seghdr bytes offset_ = record {
  offset = u32_at bytes offset_;
  size = u32_at bytes (offset_ + 4);
}

abbrev pub read_start : List ℕ → NroStart
read_start bytes = record {
  unused = u32_at bytes 0;
  mod0_offset = u32_at bytes 4;
  pad = u64_at bytes 8;
}

abbrev pub read_hdr : List ℕ → NroHdr
read_hdr bytes = record {
  magic = u32_at bytes 0;
  version = u32_at bytes 4;
  size = u32_at bytes 8;
  flags = u32_at bytes 12;
  text_seg = read_seghdr bytes 16;
  ro_seg = read_seghdr bytes 24;
  data_seg = read_seghdr bytes 32;
  bss_size = u32_at bytes 40;
  reserved = u32_at bytes 44;
  id = record { val = slice 48 32 bytes };
  dso_handle_offset = u32_at bytes 80;
  reserved2 = u32_at bytes 84;
  api_info_seg = read_seghdr bytes 88;
  dynstr_seg = read_seghdr bytes 96;
  dynsym_seg = read_seghdr bytes 104;
}

abbrev pub read_mod0 : List ℕ → Mod0
read_mod0 bytes = record {
  reserved = u32_at bytes 0;
  magic_offset = u32_at bytes 4;
  magic = u32_at bytes 8;
  dynamic_seg_offset = u32_at bytes 12;
  bss_seg_offset = u32_at bytes 16;
  bss_start = u32_at bytes 20;
  bss_end = u32_at bytes 24;
  eh_frame_hdr_start = u32_at bytes 28;
  eh_frame_hdr_end = u32_at bytes 32;
  mod_obj_offset = u32_at bytes 36;
}
