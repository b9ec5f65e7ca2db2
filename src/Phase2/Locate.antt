-- ===== src/Phase2/Locate.antt =====
-- `wboot_locate_kernel` of src/phase2/wboot.c: the first volume with a kernel and an initial file
-- system.
pub mod Found
use wboot.Prelude.{ℕ, Option, none, some, List, [], ◌∷◌, Text, codes, ◌==◌, if◌then◌else◌, length}
use wboot.Stdlib.Printf.{word, wide}
use wboot.Stdlib.Alloc.{Io, pure, ◌>>=◌, ◌>>◌, emit, print, perror}
use wboot.Efi.{
  Ptr, Firmware, EfiStatus, success, not_found, service_called, pool_allocated, pool_freed,
}
use wboot.Efi.Files.{open_file}
use wboot.Config.Locate.{max_handles}

-- `*kernel_file` and `*initramfs_file`.
pub record KernelFiles : Type 0 where
  pub kernel_file : Ptr
  pub initramfs_file : Ptr

-- The status, and the two files where it is good; on errors the source may have set the first.
abbrev pub LocateResult : Type 0
LocateResult = EfiStatus × Option KernelFiles

module _ (fw : Firmware) where
  -- A service that answers with a status and a value.
  answered : {A : Type 0} → EfiStatus × A → Io (EfiStatus × A)
  answered answer m = (answer, (emit (service_called answer.0) m).1)

  -- `_get_device_path_to_text`
  find_path_printer : Io EfiStatus
  find_path_printer m =
      let status = fw.locate_device_path_to_text m.events in
      (emit (service_called status)
          >> ((if fw.efi_error status
                then print (codes "Error locating DEVICE_PATH_TO_TEXT_PROTOCOL: %u\r\n")
                    (word (fw.status_number status) ∷ [])
                else pure tt)
              >> pure status))
        m

  -- The text of a device path, from the pool, and the `FreePool` behind its use.
  path_printed : Ptr × Text → Io (Unit {0})
  path_printed (text, path) =
      emit (pool_allocated 0 text)
      >> ((if text == 0 then print (codes "  Device path: unknown error\r\n") [] else pure tt)
          >> (print (codes "  Device path: %s\r\n") (wide path ∷ []) >> λ m.
              emit (pool_freed text (fw.free_pool m.events text)) m))

  path_got : EfiStatus × Ptr → Io (Unit {0})
  path_got (status, path) =
      if fw.efi_error status then perror (codes "  Device path") status else λ m.
      path_printed (fw.convert_device_path m.events path) m

  show_path : Ptr → Io (Unit {0})
  show_path handle m = (answered (fw.device_path m.events handle) >>= path_got) m

  initramfs_opened : Ptr → Io LocateResult → EfiStatus × Ptr → Io LocateResult
  initramfs_opened kernel next (status, initramfs) =
      if fw.efi_error status
      then perror (codes "  Error opening initramfs-linux.img") status >> next
      else print (codes "  Found initramfs-linux.img!\r\n") []
        >> pure (success, some (record { kernel_file = kernel; initramfs_file = initramfs }))

  -- The kernel stays open where the other file is missing.
  kernel_opened : Ptr → Io LocateResult → EfiStatus × Ptr → Io LocateResult
  kernel_opened root next (status, kernel) =
      if fw.efi_error status
      then perror (codes "  Error opening vmlinuz-linux") status >> next
      else print (codes "  Found vmlinuz-linux!\r\n") []
        >> (open_file fw root (codes "initramfs-linux.img") >>= initramfs_opened kernel next)

  root_opened : Io LocateResult → EfiStatus × Ptr → Io LocateResult
  root_opened next (status, root) =
      if fw.efi_error status
      then perror (codes "  Error opening volume") status >> next
      else open_file fw root (codes "vmlinuz-linux") >>= kernel_opened root next

  open_root_of : Io LocateResult → Ptr → Io LocateResult
  open_root_of next fs m = (answered (fw.open_volume m.events fs) >>= root_opened next) m

  file_system_got : Io LocateResult → EfiStatus × Ptr → Io LocateResult
  file_system_got next (status, fs) =
      if fw.efi_error status
      then perror (codes "  Error getting file system protocol") status >> next
      else open_root_of next fs

  try_volume : Ptr → Io LocateResult → Io LocateResult
  try_volume handle next m = (answered (fw.file_system m.events handle) >>= file_system_got next) m

  -- The loop over the handles.
  try_volumes : List Ptr → Io LocateResult
  try_volumes [] =
      print
        (codes "Could not find vmlinuz-linux and initramfs-linux.img together on any device\r\n") []
      >> pure (not_found, none)
  try_volumes (handle ∷ handles) = show_path handle >> try_volume handle (try_volumes handles)

  handles_located : EfiStatus × List Ptr → Io LocateResult
  handles_located (status, handles) =
      if fw.efi_error status
      then perror (codes "Error locating handles") status >> pure (status, none)
      else print (codes "Enumerating SIMPLE_FILE_SYSTEM_PROTOCOL devices\r\n")
          (word (length handles) ∷ [])
        >> try_volumes handles

  path_printer_found : EfiStatus → Io LocateResult
  path_printer_found status = if fw.efi_error status then pure (status, none) else λ m.
      (answered (fw.locate_file_systems m.events max_handles) >>= handles_located) m

  -- `wboot_locate_kernel`
  unfoldable pub wboot_locate_kernel : Io LocateResult
  unfolding find_path_printer path_printer_found handles_located try_volumes try_volume
      file_system_got open_root_of root_opened kernel_opened initramfs_opened show_path path_got
      path_printed answered open_file
  wboot_locate_kernel =
      print (codes "Locating kernel...\r\n") [] >> (find_path_printer >>= path_printer_found)
