-- ===== src/Phase2/Initramfs.antt =====
-- `wboot_load_initramfs` of src/phase2/wboot.c.
pub mod Account
use wboot.Prelude.{ℕ, not, List, [], ◌∷◌, Option, none, some, Text, codes, ◌==◌, if◌then◌else◌}
use wboot.Stdlib.Printf.{word, wide}
use wboot.Stdlib.Alloc.{Io, pure, ◌>>=◌, ◌>>◌, print, strerror, get_errno, malloc, free}
use wboot.Efi.{Ptr, Firmware, EfiStatus, success}
use wboot.Efi.Files.{get_info, read_file}
use wboot.Efi.Pages.{get_info_size}
use wboot.Efi.Uefi.{is_buffer_too_small}

-- `*initramfs` and `*initramfs_size`, and the bytes that were read, which may be fewer.
pub record LoadedImage : Type 0 where
  pub ptr : Ptr
  pub size : ℕ
  pub bytes : List ℕ

abbrev pub ImageResult : Type 0
ImageResult = EfiStatus × Option LoadedImage

module _ (fw : Firmware) (initramfs_file : Ptr) where
  -- The number of the bytes that were read is not compared with the size.
  image_read : ℕ → Ptr → EfiStatus × List ℕ → Io ImageResult
  image_read file_size buffer (status, bytes) =
      if fw.efi_error status
      then print (codes "Error reading initramfs file: %s\r\n") (wide (strerror status) ∷ [])
        >> (free fw buffer >> pure (status, none))
      else pure (success, some (record { ptr = buffer; size = file_size; bytes = bytes }))

  no_buffer : EfiStatus → Io ImageResult
  no_buffer errno =
      print (codes "Error allocating memory for initramfs: %s\r\n") (wide (strerror errno) ∷ [])
      >> pure (errno, none)

  buffer_allocated : ℕ → Ptr → Io ImageResult
  buffer_allocated file_size buffer =
      if buffer == 0
      then get_errno >>= no_buffer
      else read_file fw initramfs_file file_size >>= image_read file_size buffer

  allocate_buffer : ℕ → Io ImageResult
  allocate_buffer file_size = malloc fw file_size >>= buffer_allocated file_size

  file_info_read : Ptr → EfiStatus × ℕ → Io ImageResult
  file_info_read file_info (status, file_size) =
      if fw.efi_error status
      then print (codes "Error getting initramfs file info: %s\r\n") (wide (strerror status) ∷ [])
        >> (free fw file_info >> pure (status, none))
      else free fw file_info >> allocate_buffer file_size

  no_file_info : EfiStatus → Io ImageResult
  no_file_info errno =
      print (codes "Error allocating memory for initramfs file info: %s\r\n")
        (wide (strerror errno) ∷ [])
      >> pure (errno, none)

  file_info_allocated : Ptr → Io ImageResult
  file_info_allocated file_info =
      if file_info == 0
      then get_errno >>= no_file_info
      else get_info fw initramfs_file >>= file_info_read file_info

  file_info_sized : EfiStatus × ℕ → Io ImageResult
  file_info_sized (status, size) =
      if not (is_buffer_too_small status)
      then print (codes "Error getting initramfs file info size: %s\r\n")
          (wide (strerror status) ∷ [])
        >> pure (status, none)
      else print (codes "Allocating %u bytes for initramfs file info\r\n") (word size ∷ [])
        >> (malloc fw size >>= file_info_allocated)

  -- `wboot_load_initramfs`
  unfoldable pub wboot_load_initramfs : Io ImageResult
  unfolding file_info_sized file_info_allocated no_file_info file_info_read allocate_buffer
      buffer_allocated no_buffer image_read get_info_size get_info read_file
  wboot_load_initramfs = get_info_size fw initramfs_file >>= file_info_sized
