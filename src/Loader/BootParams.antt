-- ===== src/Loader/BootParams.antt =====
-- `wboot_prepare_bootparams` and `populate_bootparams_efi` of src/phase3/wboot.c.
pub mod Account
pub mod Address
pub mod Kept
use wboot.Prelude.{
  ℕ, ◌+◌, ◌*◌, ◌/◌, ◌%◌, Option, none, some, [], ◌∷◌, Text, codes, ◌==◌, if◌then◌else◌,
}
use wboot.Prelude.Words.{u32_mod}
use wboot.Stdlib.Printf.{wide}
use wboot.Stdlib.Text.{strlen8}
use wboot.Stdlib.Alloc.{Io, pure, ◌>>=◌, ◌>>◌, print, strerror, get_errno, malloc, HeapText}
use wboot.Efi.{Ptr, Firmware, EfiStatus}
use wboot.Linux.{SetupHeader}
use wboot.Linux.BootParams.{
  BootParams, EfiInfo, boot_params_size, edid_size, zeros, zero_efi_info, zero_screen_info,
}

-- `(UINT32)x` and `(UINT32)(x >> 32)` of a 64-bit `x`.
abbrev pub low_half : ℕ → ℕ
low_half x = x % u32_mod

abbrev pub high_half : ℕ → ℕ
high_half x = (x / u32_mod) % u32_mod

-- `params`, and what it points at.
pub record ParamsAt : Type 0 where
  pub ptr : Ptr
  pub params : BootParams

-- The header of the kernel with the fields that the loader sets; the command line is a pointer and
-- a text.
abbrev pub loader_header : SetupHeader → HeapText → Ptr → ℕ → SetupHeader
loader_header header cmdline initramfs initramfs_size = record header {
  ramdisk_image = low_half initramfs;
  ramdisk_size = low_half initramfs_size;
  type_of_loader = 0xFF;
  initrd_addr_max = 0xFFFFFFFF;
  cmd_line_ptr = low_half cmdline.ptr;
  cmdline_size = strlen8 cmdline.text % u32_mod;
}

unfoldable pub params_for : SetupHeader → HeapText → Ptr → ℕ → BootParams
unfolding strlen8
params_for header cmdline initramfs initramfs_size = record {
  screen_info = zero_screen_info;
  ext_ramdisk_image = high_half initramfs;
  ext_ramdisk_size = high_half initramfs_size;
  ext_cmd_line_ptr = high_half cmdline.ptr;
  edid_info = zeros edid_size;
  efi_info = zero_efi_info;
  e820_entries = 0;
  hdr = loader_header header cmdline initramfs initramfs_size;
}

module _ (fw : Firmware) where
  no_params : EfiStatus → Io (Option ParamsAt)
  no_params errno =
      print (codes "[prepare_bootparams] error allocating memory for boot params: %s\r\n")
        (wide (strerror errno) ∷ [])
      >> pure none

  params_allocated : BootParams → Ptr → Io (Option ParamsAt)
  params_allocated params p =
      if p == 0 then get_errno >>= no_params else pure (some (record { ptr = p; params = params }))

  -- `wboot_prepare_bootparams`; NULL is `none`.
  unfoldable pub wboot_prepare_bootparams : HeapText → SetupHeader → Ptr → ℕ → Io (Option ParamsAt)
  unfolding params_allocated no_params malloc
  wboot_prepare_bootparams cmdline header initramfs initramfs_size =
      malloc fw boot_params_size
      >>= params_allocated (params_for header cmdline initramfs initramfs_size)

-- "EL64", as the number that its bytes make.
abbrev pub efi_signature : ℕ
efi_signature = 0x34364C45

-- `populate_bootparams_efi`, with the address of the system table.
unfoldable pub populate_bootparams_efi : ℕ → BootParams → Ptr → ℕ → ℕ → ℕ → BootParams
populate_bootparams_efi system_table params memmap map_size desc_size desc_ver = record params {
  efi_info = record {
    efi_loader_signature = efi_signature;
    efi_systab = low_half system_table;
    efi_memdesc_size = low_half desc_size;
    efi_memdesc_version = low_half desc_ver;
    efi_memmap = low_half memmap;
    efi_memmap_size = low_half map_size;
    efi_systab_hi = high_half system_table;
    efi_memmap_hi = high_half memmap;
  };
}
