-- ===== src/Phase2/Locate/Found.antt =====
-- What `wboot_locate_kernel` of src/phase2/wboot.c finds.
use wboot.Prelude.{◌≡◌, refl, false, true, none, some, List, [], ◌∷◌, Text, codes}
use wboot.Efi.{Ptr, Events, Firmware, EfiStatus, success, not_found}
use wboot.Efi.Files.{open_file}
use wboot.Efi.Uefi.{IsUefi}
use wboot.Stdlib.Alloc.{Machine, Io, pure, print, perror}
use wboot.Stdlib.Alloc.Ends.{
  Ends, Ends_run, Ends-each, Ends-pure, Ends-bind, Ends-if, Ends-then, Ends-chain,
}
use wboot.Config.Locate.{max_handles}
use wboot.Phase2.Locate.{
  LocateResult, answered, find_path_printer, show_path, initramfs_opened, kernel_opened,
  root_opened, open_root_of, file_system_got, try_volume, try_volumes, handles_located,
  path_printer_found, wboot_locate_kernel,
}

module _ (fw : Firmware) where
  -- The firmware opened the file by this path in a directory.
  abbrev pub IsOpened : Ptr → Text → EfiStatus × Ptr → Type 0
  IsOpened root path x = (events : Events) × (fw.open_file events root path ≡ x)

  -- An error and no files, or success and two files that were opened by their names in one directory.
  abbrev pub IsFound : LocateResult → Type 0
  IsFound (status, none) = fw.efi_error status ≡ true
  IsFound (status, some f) =
      (status ≡ success)
      × ((root : Ptr) × (kernel_status : EfiStatus) × (initramfs_status : EfiStatus) × (fw.efi_error
              kernel_status
            ≡ false)
          × (fw.efi_error initramfs_status ≡ false)
          × IsOpened root (codes "vmlinuz-linux") (kernel_status, f.kernel_file)
          × IsOpened root (codes "initramfs-linux.img") (initramfs_status, f.initramfs_file))

  open_file-IsOpened :
      (root : Ptr) (path : Text) → Ends (IsOpened root path) (open_file fw root path)
  unfolding open_file
  open_file-IsOpened root path =
      Ends-each (IsOpened root path) (open_file fw root path) (λ m. (m.events, refl))

  initramfs_opened-Ends :
      (root : Ptr) (status : EfiStatus) (kernel : Ptr) (next : Io LocateResult)
      (x : EfiStatus × Ptr)
      → fw.efi_error status ≡ false
      → IsOpened root (codes "vmlinuz-linux") (status, kernel)
      → IsOpened root (codes "initramfs-linux.img") x
      → Ends IsFound next
      → Ends IsFound (initramfs_opened fw kernel next x)
  unfolding initramfs_opened
  initramfs_opened-Ends root status kernel next x good first second h =
      Ends-if IsFound (fw.efi_error x.0) _ _ (λ e. Ends-then IsFound (perror _ _) next h)
        (λ e. Ends-then IsFound (print _ _) _ (
          Ends-pure IsFound (success, some (record { kernel_file = kernel; initramfs_file = x.1 }))
            (refl, (root, status, x.0, good, e, first, second))))

  kernel_opened-Ends :
      (root : Ptr) (next : Io LocateResult) (x : EfiStatus × Ptr)
      → IsOpened root (codes "vmlinuz-linux") x
      → Ends IsFound next
      → Ends IsFound (kernel_opened fw root next x)
  unfolding kernel_opened
  kernel_opened-Ends root next x first h =
      Ends-if IsFound (fw.efi_error x.0) _ _ (λ e. Ends-then IsFound (perror _ _) next h)
        (λ e. Ends-then IsFound (print _ _) _ (
          Ends-chain IsFound (IsOpened root (codes "initramfs-linux.img"))
            (open_file fw root (codes "initramfs-linux.img")) (initramfs_opened fw x.1 next)
            (open_file-IsOpened root (codes "initramfs-linux.img"))
            (λ y second. initramfs_opened-Ends root x.0 x.1 next y e first second h)))

  root_opened-Ends :
      (next : Io LocateResult) (x : EfiStatus × Ptr)
      → Ends IsFound next
      → Ends IsFound (root_opened fw next x)
  unfolding root_opened
  root_opened-Ends next x h =
      Ends-if IsFound (fw.efi_error x.0) _ _ (λ e. Ends-then IsFound (perror _ _) next h)
        (λ e.
          Ends-chain IsFound (IsOpened x.1 (codes "vmlinuz-linux"))
            (open_file fw x.1 (codes "vmlinuz-linux")) (kernel_opened fw x.1 next)
            (open_file-IsOpened x.1 (codes "vmlinuz-linux"))
            (λ y first. kernel_opened-Ends x.1 next y first h))

  open_root_of-Ends :
      (next : Io LocateResult) (fs : Ptr)
      → Ends IsFound next
      → Ends IsFound (open_root_of fw next fs)
  unfolding open_root_of
  open_root_of-Ends next fs h = Ends-each IsFound (open_root_of fw next fs) (λ m.
      Ends_run IsFound _
        (Ends-bind IsFound (answered fw (fw.open_volume m.events fs)) (root_opened fw next)
          (λ x. root_opened-Ends next x h))
        m)

  try_volume-Ends :
      (handle : Ptr) (next : Io LocateResult)
      → Ends IsFound next
      → Ends IsFound (try_volume fw handle next)
  unfolding try_volume file_system_got
  try_volume-Ends handle next h = Ends-each IsFound (try_volume fw handle next) (λ m.
      Ends_run IsFound _
        (Ends-bind IsFound (answered fw (fw.file_system m.events handle)) (file_system_got fw next)
          (λ x.
            Ends-if IsFound (fw.efi_error x.0) _ _ (λ e. Ends-then IsFound (perror _ _) next h)
              (λ e. open_root_of-Ends next x.1 h)))
        m)

  module _ (uefi : IsUefi fw) where
    try_volumes-Ends : (handles : List Ptr) → Ends IsFound (try_volumes fw handles)
    unfolding try_volumes
    try_volumes-Ends [] =
        Ends-then IsFound (print _ _) (pure (not_found, none))
          (Ends-pure IsFound (not_found, none) uefi.not_found_error)
    try_volumes-Ends (handle ∷ handles) =
        Ends-then IsFound (show_path fw handle) (try_volume fw handle (try_volumes fw handles))
          (try_volume-Ends handle (try_volumes fw handles) (try_volumes-Ends handles))

    handles_located-Ends : (x : EfiStatus × List Ptr) → Ends IsFound (handles_located fw x)
    unfolding handles_located
    handles_located-Ends x =
        Ends-if IsFound (fw.efi_error x.0) _ _
          (λ e. Ends-then IsFound (perror _ _) (pure (x.0, none)) (Ends-pure IsFound (x.0, none) e))
          (λ e. Ends-then IsFound (print _ _) (try_volumes fw x.1) (try_volumes-Ends x.1))

    path_printer_found-Ends : (status : EfiStatus) → Ends IsFound (path_printer_found fw status)
    unfolding path_printer_found
    path_printer_found-Ends status =
        Ends-if IsFound (fw.efi_error status) _ _ (λ e. Ends-pure IsFound (status, none) e)
          (λ e. Ends-each IsFound _ (λ m.
            Ends_run IsFound _
              (Ends-bind IsFound (answered fw (fw.locate_file_systems m.events max_handles))
                (handles_located fw) handles_located-Ends)
              m))

    -- `wboot_locate_kernel` returns an error and no files, or success and a kernel and an initial file
    -- system that the firmware opened by their names in one directory.
    pub wboot_locate_kernel-IsFound : (m : Machine) → IsFound (wboot_locate_kernel fw m).0
    unfolding wboot_locate_kernel
    wboot_locate_kernel-IsFound = Ends_run IsFound (wboot_locate_kernel fw) (
        Ends-then IsFound (print _ _) _ (
          Ends-bind IsFound (find_path_printer fw) (path_printer_found fw) path_printer_found-Ends))
