-- ===== src/Linux.antt =====
-- `setup_header_t` of src/shared/linux.h: the header of a Linux kernel, in the file at 0x1f1 and in
-- the boot parameters.
pub mod BootParams
pub mod Layout
use wboot.Prelude.{ℕ, zero, suc, ◌+◌, ◌*◌, ◌%◌, List, [], ◌∷◌, take, drop}

-- A packed little-endian number.
abbrev pub little_endian : List ℕ → ℕ
little_endian [] = 0
little_endian (b ∷ bytes) = b % 256 + 256 * little_endian bytes

-- The number of `width` bytes at an offset.
unfoldable pub number_at : ℕ → ℕ → List ℕ → ℕ
number_at offset width bytes = little_endian (take width (drop offset bytes))

-- `sizeof(setup_header_t)`; the struct is packed.
abbrev pub setup_header_size : ℕ
setup_header_size = 123

pub record SetupHeader : Type 0 where
  pub setup_sects : ℕ
  pub root_flags : ℕ
  pub syssize : ℕ
  pub ram_size : ℕ
  pub vid_mode : ℕ
  pub root_dev : ℕ
  pub boot_flag : ℕ
  pub jump : ℕ
  pub header : List ℕ
  pub version : ℕ
  pub realmode_swtch : ℕ
  pub start_sys_seg : ℕ
  pub kernel_version : ℕ
  pub type_of_loader : ℕ
  pub loadflags : ℕ
  pub setup_move_size : ℕ
  pub code32_start : ℕ
  pub ramdisk_image : ℕ
  pub ramdisk_size : ℕ
  pub bootsect_kludge : ℕ
  pub heap_end_ptr : ℕ
  pub ext_loader_ver : ℕ
  pub ext_loader_type : ℕ
  pub cmd_line_ptr : ℕ
  pub initrd_addr_max : ℕ
  pub kernel_alignment : ℕ
  pub relocatable_kernel : ℕ
  pub min_alignment : ℕ
  pub xloadflags : ℕ
  pub cmdline_size : ℕ
  pub hardware_subarch : ℕ
  pub hardware_subarch_data : ℕ
  pub payload_offset : ℕ
  pub payload_length : ℕ
  pub setup_data : ℕ
  pub pref_address : ℕ
  pub init_size : ℕ
  pub handover_offset : ℕ
  pub kernel_info_offset : ℕ

-- The header that the bytes of a read make.
unfoldable pub header_of : List ℕ → SetupHeader
unfolding number_at
header_of bytes = record {
  setup_sects = number_at 0 1 bytes;
  root_flags = number_at 1 2 bytes;
  syssize = number_at 3 4 bytes;
  ram_size = number_at 7 2 bytes;
  vid_mode = number_at 9 2 bytes;
  root_dev = number_at 11 2 bytes;
  boot_flag = number_at 13 2 bytes;
  jump = number_at 15 2 bytes;
  header = take 4 (drop 17 bytes);
  version = number_at 21 2 bytes;
  realmode_swtch = number_at 23 4 bytes;
  start_sys_seg = number_at 27 2 bytes;
  kernel_version = number_at 29 2 bytes;
  type_of_loader = number_at 31 1 bytes;
  loadflags = number_at 32 1 bytes;
  setup_move_size = number_at 33 2 bytes;
  code32_start = number_at 35 4 bytes;
  ramdisk_image = number_at 39 4 bytes;
  ramdisk_size = number_at 43 4 bytes;
  bootsect_kludge = number_at 47 4 bytes;
  heap_end_ptr = number_at 51 2 bytes;
  ext_loader_ver = number_at 53 1 bytes;
  ext_loader_type = number_at 54 1 bytes;
  cmd_line_ptr = number_at 55 4 bytes;
  initrd_addr_max = number_at 59 4 bytes;
  kernel_alignment = number_at 63 4 bytes;
  relocatable_kernel = number_at 67 1 bytes;
  min_alignment = number_at 68 1 bytes;
  xloadflags = number_at 69 2 bytes;
  cmdline_size = number_at 71 4 bytes;
  hardware_subarch = number_at 75 4 bytes;
  hardware_subarch_data = number_at 79 8 bytes;
  payload_offset = number_at 87 4 bytes;
  payload_length = number_at 91 4 bytes;
  setup_data = number_at 95 8 bytes;
  pref_address = number_at 103 8 bytes;
  init_size = number_at 111 4 bytes;
  handover_offset = number_at 115 4 bytes;
  kernel_info_offset = number_at 119 4 bytes;
}
