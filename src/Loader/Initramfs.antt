-- ===== src/Loader/Initramfs.antt =====
-- `wboot_load_initramfs` of src/phase3/wboot.c.
pub mod Account
pub mod Whole
use wboot.Prelude.{
  ℕ, ◌+◌, ◌/◌, ◌%◌, Bool, true, false, not, List, [], ◌∷◌, Option, none, some, Text, codes, ◌==◌,
  if◌then◌else◌, length,
}
use wboot.Prelude.Words.{u64_mod}
use wboot.Stdlib.Printf.{word, wide}
use wboot.Stdlib.Alloc.{Io, pure, ◌>>=◌, ◌>>◌, print, strerror, get_errno, malloc, free}
use wboot.Efi.{Ptr, Firmware, EfiStatus, success, bad_buffer_size, any_pages, max_address}
use wboot.Efi.Files.{open_file, get_info, read_file}
use wboot.Efi.Pages.{page_size, get_info_size, allocate_pages, free_pages}
use wboot.Efi.Uefi.{is_buffer_too_small}
use wboot.Config.{WbootConfig}

-- `*initramfs`, and the bytes that stand there; the rest of the last page is zero.
pub record Initramfs : Type 0 where
  pub ptr : Ptr
  pub bytes : List ℕ

abbrev pub InitramfsResult : Type 0
InitramfsResult = EfiStatus × Option Initramfs

-- `(file_size + EFI_PAGE_SIZE - 1) / EFI_PAGE_SIZE`; the sum wraps.
abbrev pub pages_for : ℕ → ℕ
pages_for file_size = ((file_size + 4095) % u64_mod) / page_size

module _ (fw : Firmware) (config : WbootConfig) where
  drop_pages : ℕ → Ptr → EfiStatus → Io InitramfsResult
  drop_pages file_size addr status = free_pages addr (pages_for file_size) >> pure (status, none)

  initramfs_read : ℕ → Ptr → EfiStatus × List ℕ → Io InitramfsResult
  initramfs_read file_size addr x =
      if fw.efi_error x.0
      then print (codes "[load_initramfs] error reading initramfs file: %s\r\n")
          (wide (strerror x.0) ∷ [])
        >> drop_pages file_size addr x.0
      else if not (length x.1 == file_size)
      then print (codes "[load_initramfs] error: expected to read %u bytes but read %u bytes\r\n")
          (word file_size ∷ word (length x.1) ∷ [])
        >> drop_pages file_size addr bad_buffer_size
      else pure (success, some (record { ptr = addr; bytes = x.1 }))

  read_initramfs : Ptr → ℕ → Ptr → Io InitramfsResult
  read_initramfs file file_size addr = read_file fw file file_size >>= initramfs_read file_size addr

  any_allocated : Ptr → ℕ → EfiStatus × Ptr → Io InitramfsResult
  any_allocated file file_size x =
      if fw.efi_error x.0
      then print (codes "[load_initramfs] error allocating pages for initramfs: %s\r\n")
          (wide (strerror x.0) ∷ [])
        >> pure (x.0, none)
      else read_initramfs file file_size x.1

  -- Below 4 GB if that is possible, else anywhere.
  below_allocated : Ptr → ℕ → EfiStatus × Ptr → Io InitramfsResult
  below_allocated file file_size x =
      if fw.efi_error x.0
      then allocate_pages fw any_pages (pages_for file_size) >>= any_allocated file file_size
      else read_initramfs file file_size x.1

  allocate_below : Ptr → ℕ → Io InitramfsResult
  allocate_below file file_size =
      allocate_pages fw (max_address 0xFFFFFFFF) (pages_for file_size)
      >>= below_allocated file file_size

  info_filled : Ptr → Ptr → EfiStatus × ℕ → Io InitramfsResult
  info_filled file file_info x =
      if fw.efi_error x.0
      then print (codes "[load_initramfs] error getting initramfs file info: %s\r\n")
          (wide (strerror x.0) ∷ [])
        >> (free fw file_info >> pure (x.0, none))
      else free fw file_info >> allocate_below file x.1

  no_info : EfiStatus → Io InitramfsResult
  no_info errno =
      print (codes "[load_initramfs] error allocating memory for initramfs file info: %s\r\n")
        (wide (strerror errno) ∷ [])
      >> pure (errno, none)

  info_allocated : Ptr → Ptr → Io InitramfsResult
  info_allocated file file_info =
      if file_info == 0
      then get_errno >>= no_info
      else get_info fw file >>= info_filled file file_info

  info_sized : Ptr → EfiStatus × ℕ → Io InitramfsResult
  info_sized file x =
      if not (is_buffer_too_small x.0)
      then print (codes "[load_initramfs] error getting initramfs file info size: %s\r\n")
          (wide (strerror x.0) ∷ [])
        >> pure (x.0, none)
      else malloc fw x.1 >>= info_allocated file

  file_opened : EfiStatus × Ptr → Io InitramfsResult
  file_opened x =
      if fw.efi_error x.0
      then print (codes "[load_initramfs] error opening initramfs file '%s': %s\r\n")
          (wide config.initrd_path.text ∷ wide (strerror x.0) ∷ [])
        >> pure (x.0, none)
      else get_info_size fw x.1 >>= info_sized x.1

  -- `wboot_load_initramfs`; the file stays open.
  unfoldable pub wboot_load_initramfs : Io InitramfsResult
  unfolding file_opened info_sized info_allocated no_info info_filled allocate_below below_allocated
      any_allocated read_initramfs initramfs_read drop_pages get_info_size get_info allocate_pages
      free_pages read_file open_file
  wboot_load_initramfs = open_file fw config.root config.initrd_path.text >>= file_opened
