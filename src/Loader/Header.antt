-- ===== src/Loader/Header.antt =====
-- `wboot_open_kernel` and `wboot_read_setup_header` of src/phase3/wboot.c.
pub mod Checked
use mathlib.Core.List.{map}
use wboot.Prelude.{
  ℕ, Bool, true, false, not, ◌&&◌, ◌||◌, ◌≡◌, refl, List, [], ◌∷◌, Option, none, some, Text, codes,
  ◌==◌, text_eq, if◌then◌else◌, length,
}
use wboot.Stdlib.Printf.{word}
use wboot.Stdlib.Alloc.{Io, pure, ◌>>=◌, ◌>>◌, print, perror}
use wboot.Efi.{Ptr, Firmware, EfiStatus, success, invalid_parameter}
use wboot.Efi.Files.{open_file, read_file}
use wboot.Efi.Pages.{set_position}
use wboot.Config.{WbootConfig}
use wboot.Linux.{SetupHeader, header_of, setup_header_size}

-- The status, and `*header` where it is good.
abbrev pub HeaderRead : Type 0
HeaderRead = EfiStatus × Option SetupHeader

abbrev pub boot_magic : ℕ
boot_magic = 43605

module _ (fw : Firmware) where
  unfoldable pub wboot_open_kernel : WbootConfig → Io (EfiStatus × Ptr)
  unfolding open_file
  wboot_open_kernel config = open_file fw config.root config.kernel_path.text

  -- The tests of the two magic numbers.
  check_header : SetupHeader → Io HeaderRead
  check_header header =
      if not (header.boot_flag == boot_magic)
      then (do
        print
            (codes
              "[read_setup_header] error: invalid kernel header magic (expected 0xAA55, got 0x%x)\r\n")
            (word header.boot_flag ∷ [])
        pure (invalid_parameter, none))
      else if not (text_eq header.header (codes "HdrS"))
      then (do
        print
            (codes
              "[read_setup_header] error: invalid kernel header magic (expected 'HdrS', got '%c%c%c%c')\r\n")
            (map word header.header)
        pure (invalid_parameter, none))
      else pure (success, some header)

  check_read : EfiStatus × List ℕ → Io HeaderRead
  check_read (status, bytes) =
      if fw.efi_error status
      then (do
        perror (codes "[read_setup_header] error reading kernel header") status
        pure (status, none))
      else if not (length bytes == setup_header_size)
      then (do
        print
            (codes
              "[read_setup_header] error: expected to read %u bytes for kernel header, but only read %u\r\n")
            (word setup_header_size ∷ word (length bytes) ∷ [])
        pure (invalid_parameter, none))
      else check_header (header_of bytes)

  header_sought : Ptr → EfiStatus → Io HeaderRead
  header_sought kernel_file status =
      if fw.efi_error status
      then (do
        perror (codes "[read_setup_header] error seeking to kernel header") status
        pure (status, none))
      else read_file fw kernel_file setup_header_size >>= check_read

  -- `wboot_read_setup_header`
  unfoldable pub wboot_read_setup_header : Ptr → Io HeaderRead
  unfolding header_sought check_read check_header header_of text_eq
  wboot_read_setup_header kernel_file =
      set_position fw kernel_file 497 >>= header_sought kernel_file
