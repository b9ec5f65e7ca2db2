-- ===== src/Phase2/Header.antt =====
-- `wboot_read_setup_header` and `wboot_dump_setup_header` of src/phase2/wboot.c.
pub mod Checked
use mathlib.Core.List.{map}
use wboot.Prelude.{
  ℕ, not, List, [], ◌∷◌, none, some, Text, codes, ◌==◌, text_eq, if◌then◌else◌, length,
}
use wboot.Stdlib.Printf.{word}
use wboot.Stdlib.Alloc.{Io, pure, ◌>>=◌, ◌>>◌, print, perror}
use wboot.Efi.{Ptr, Firmware, EfiStatus, success, invalid_parameter}
use wboot.Efi.Files.{read_file}
use wboot.Efi.Pages.{set_position}
use wboot.Linux.{SetupHeader, header_of, setup_header_size}
use wboot.Loader.Header.{HeaderRead, boot_magic}

module _ (fw : Firmware) where
  -- The tests of the two magic numbers.
  test_magic : SetupHeader → Io HeaderRead
  test_magic header =
      if not (header.boot_flag == boot_magic)
      then print (codes "Error: invalid kernel header magic (expected 0xAA55, got 0x%x)\r\n")
          (word header.boot_flag ∷ [])
        >> pure (invalid_parameter, none)
      else if not (text_eq header.header (codes "HdrS"))
      then print (codes "Error: invalid kernel header magic (expected 'HdrS', got '%c%c%c%c')\r\n")
          (map word header.header)
        >> pure (invalid_parameter, none)
      else pure (success, some header)

  header_bytes_read : EfiStatus × List ℕ → Io HeaderRead
  header_bytes_read (status, bytes) =
      if fw.efi_error status
      then perror (codes "Error reading kernel header") status >> pure (status, none)
      else if not (length bytes == setup_header_size)
      then print (codes "Error: expected to read %u bytes for kernel header, but only read %u\r\n")
          (word setup_header_size ∷ word (length bytes) ∷ [])
        >> pure (invalid_parameter, none)
      else test_magic (header_of bytes)

  header_position_set : Ptr → EfiStatus → Io HeaderRead
  header_position_set kernel_file status =
      if fw.efi_error status
      then perror (codes "Error seeking to kernel header") status >> pure (status, none)
      else read_file fw kernel_file setup_header_size >>= header_bytes_read

  -- `wboot_read_setup_header`
  unfoldable pub wboot_read_setup_header : Ptr → Io HeaderRead
  unfolding header_position_set header_bytes_read test_magic header_of text_eq
  wboot_read_setup_header kernel_file =
      set_position fw kernel_file 497 >>= header_position_set kernel_file

-- A line of the dump with one number.
abbrev dump : Text → ℕ → Io (Unit {0})
dump format number = print format (word number ∷ [])

-- `wboot_dump_setup_header`
unfoldable pub wboot_dump_setup_header : SetupHeader → Io (Unit {0})
wboot_dump_setup_header header = do
  print (codes "Kernel header:\r\n") []
  dump (codes "  setup_sects: %u\r\n") header.setup_sects
  dump (codes "  root_flags: 0x%x\r\n") header.root_flags
  dump (codes "  syssize: %u\r\n") header.syssize
  dump (codes "  ram_size: %u\r\n") header.ram_size
  dump (codes "  vid_mode: 0x%x\r\n") header.vid_mode
  dump (codes "  root_dev: 0x%x\r\n") header.root_dev
  dump (codes "  boot_flag: 0x%x\r\n") header.boot_flag
  dump (codes "  jump: 0x%x\r\n") header.jump
  print (codes "  header: %c%c%c%c\r\n") (map word header.header)
  dump (codes "  version: 0x%x\r\n") header.version
  dump (codes "  realmode_swtch: 0x%x\r\n") header.realmode_swtch
  dump (codes "  start_sys_seg: 0x%x\r\n") header.start_sys_seg
  dump (codes "  kernel_version: %u\r\n") header.kernel_version
  dump (codes "  type_of_loader: %u\r\n") header.type_of_loader
  dump (codes "  loadflags: 0x%x\r\n") header.loadflags
  dump (codes "  setup_move_size: %u\r\n") header.setup_move_size
  dump (codes "  code32_start: 0x%x\r\n") header.code32_start
  dump (codes "  ramdisk_image: 0x%x\r\n") header.ramdisk_image
  dump (codes "  ramdisk_size: %u\r\n") header.ramdisk_size
  dump (codes "  bootsect_kludge: 0x%x\r\n") header.bootsect_kludge
  dump (codes "  heap_end_ptr: 0x%x\r\n") header.heap_end_ptr
  dump (codes "  ext_loader_ver: %u\r\n") header.ext_loader_ver
  dump (codes "  ext_loader_type: %u\r\n") header.ext_loader_type
  dump (codes "  cmd_line_ptr: 0x%x\r\n") header.cmd_line_ptr
  dump (codes "  initrd_addr_max: 0x%x\r\n") header.initrd_addr_max
  dump (codes "  kernel_alignment: 0x%x\r\n") header.kernel_alignment
  dump (codes "  relocatable_kernel: %u\r\n") header.relocatable_kernel
  dump (codes "  min_alignment: %u\r\n") header.min_alignment
  dump (codes "  xloadflags: 0x%x\r\n") header.xloadflags
  dump (codes "  cmdline_size: %u\r\n") header.cmdline_size
  dump (codes "  hardware_subarch: 0x%x\r\n") header.hardware_subarch
  dump (codes "  hardware_subarch_data: 0x%x\r\n") header.hardware_subarch_data
  dump (codes "  payload_offset: 0x%x\r\n") header.payload_offset
  dump (codes "  payload_length: %u\r\n") header.payload_length
  dump (codes "  setup_data: 0x%x\r\n") header.setup_data
  dump (codes "  pref_address: 0x%x\r\n") header.pref_address
  dump (codes "  init_size: 0x%x\r\n") header.init_size
  dump (codes "  handover_offset: 0x%x\r\n") header.handover_offset
  dump (codes "  kernel_info_offset: 0x%x\r\n") header.kernel_info_offset
