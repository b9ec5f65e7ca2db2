-- ===== src/Linux/BootParams.antt =====
-- `boot_params_t` of src/shared/linux.h and the structs inside it, but for the padding.
use wboot.Prelude.{ℕ, zero, suc, List, [], ◌∷◌}
use wboot.Linux.{SetupHeader}

abbrev pub zeros : ℕ → List ℕ
zeros zero = []
zeros (suc n) = 0 ∷ zeros n

-- `efi_info_t`
pub record EfiInfo : Type 0 where
  pub efi_loader_signature : ℕ
  pub efi_systab : ℕ
  pub efi_memdesc_size : ℕ
  pub efi_memdesc_version : ℕ
  pub efi_memmap : ℕ
  pub efi_memmap_size : ℕ
  pub efi_systab_hi : ℕ
  pub efi_memmap_hi : ℕ

-- `screen_info_t`
pub record ScreenInfo : Type 0 where
  pub orig_x : ℕ
  pub orig_y : ℕ
  pub ext_mem_k : ℕ
  pub orig_video_page : ℕ
  pub orig_video_mode : ℕ
  pub orig_video_cols : ℕ
  pub flags : ℕ
  pub unused2 : ℕ
  pub orig_video_ega_bx : ℕ
  pub unused3 : ℕ
  pub orig_video_lines : ℕ
  pub orig_video_is_vga : ℕ
  pub orig_video_points : ℕ
  pub lfb_width : ℕ
  pub lfb_height : ℕ
  pub lfb_depth : ℕ
  pub lfb_base : ℕ
  pub lfb_size : ℕ
  pub cl_magic : ℕ
  pub cl_offset : ℕ
  pub lfb_linelength : ℕ
  pub red_size : ℕ
  pub red_pos : ℕ
  pub green_size : ℕ
  pub green_pos : ℕ
  pub blue_size : ℕ
  pub blue_pos : ℕ
  pub rsvd_size : ℕ
  pub rsvd_pos : ℕ
  pub vesapm_seg : ℕ
  pub vesapm_off : ℕ
  pub pages : ℕ
  pub vesa_attributes : ℕ
  pub capabilities : ℕ
  pub ext_lfb_base : ℕ

-- VIDEO_TYPE_EFI, VIDEO_CAPABILITY_SKIP_QUIRKS and VIDEO_CAPABILITY_64BIT_BASE
abbrev pub video_type_efi : ℕ
video_type_efi = 112

abbrev pub capability_skip_quirks : ℕ
capability_skip_quirks = 1

abbrev pub capability_64bit_base : ℕ
capability_64bit_base = 2

-- The structs as `memset` leaves them.
abbrev pub zero_efi_info : EfiInfo
zero_efi_info = record {
  efi_loader_signature = 0;
  efi_systab = 0;
  efi_memdesc_size = 0;
  efi_memdesc_version = 0;
  efi_memmap = 0;
  efi_memmap_size = 0;
  efi_systab_hi = 0;
  efi_memmap_hi = 0;
}

abbrev pub zero_screen_info : ScreenInfo
zero_screen_info = record {
  orig_x = 0;
  orig_y = 0;
  ext_mem_k = 0;
  orig_video_page = 0;
  orig_video_mode = 0;
  orig_video_cols = 0;
  flags = 0;
  unused2 = 0;
  orig_video_ega_bx = 0;
  unused3 = 0;
  orig_video_lines = 0;
  orig_video_is_vga = 0;
  orig_video_points = 0;
  lfb_width = 0;
  lfb_height = 0;
  lfb_depth = 0;
  lfb_base = 0;
  lfb_size = 0;
  cl_magic = 0;
  cl_offset = 0;
  lfb_linelength = 0;
  red_size = 0;
  red_pos = 0;
  green_size = 0;
  green_pos = 0;
  blue_size = 0;
  blue_pos = 0;
  rsvd_size = 0;
  rsvd_pos = 0;
  vesapm_seg = 0;
  vesapm_off = 0;
  pages = 0;
  vesa_attributes = 0;
  capabilities = 0;
  ext_lfb_base = 0;
}

-- `edid_info_t`
abbrev pub EdidInfo : Type 0
EdidInfo = List ℕ

abbrev pub edid_size : ℕ
edid_size = 128

-- `boot_params_t`; the table of the memory map is in the model of its translation.
pub record BootParams : Type 0 where
  pub screen_info : ScreenInfo
  pub ext_ramdisk_image : ℕ
  pub ext_ramdisk_size : ℕ
  pub ext_cmd_line_ptr : ℕ
  pub edid_info : EdidInfo
  pub efi_info : EfiInfo
  pub e820_entries : ℕ
  pub hdr : SetupHeader

-- `sizeof(boot_params_t)`
abbrev pub boot_params_size : ℕ
boot_params_size = 4096
