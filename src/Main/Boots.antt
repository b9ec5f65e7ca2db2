-- ===== src/Main/Boots.antt =====
-- How a run of `efi_main` of src/phase3/main.c ends.
use wboot.Prelude.{◌≡◌, refl, none, some}
use wboot.Efi.Files.{open_file}
use wboot.Stdlib.Alloc.{Machine, ◌>>=◌, print}
use wboot.Stdlib.Alloc.Ends.{Ends, Ends_run, Ends-each, Ends-pure, Ends-if, Ends-then, Ends-chain}
use wboot.Efi.{Ptr, Events, EfiStatus}
use wboot.Efi.Uefi.{IsUefi}
use wboot.Config.{WbootConfig}
use wboot.Config.Locate.{Located, wboot_locate_config}
use wboot.Config.Locate.Result.{IsLocated, wboot_locate_config-IsLocated}
use wboot.Linux.{SetupHeader}
use wboot.Loader.Header.{HeaderRead, wboot_open_kernel, wboot_read_setup_header}
use wboot.Loader.Header.Checked.{IsKernelHeader, wboot_read_setup_header-IsKernelHeader}
use wboot.Loader.Decompress.{DecompressResult, wboot_decompress_kernel}
use wboot.Loader.Decompress.Elf.{IsZstd, IsKernel, wboot_decompress_kernel-IsKernel}
use wboot.Loader.Initramfs.{wboot_load_initramfs}
use wboot.Loader.Initramfs.Whole.{IsInitramfs, wboot_load_initramfs-IsInitramfs}
use wboot.Main.{
  Platform, exited, loaded_initramfs, decompressed, read_header, opened, show_config, located,
  efi_main,
}
use wboot.Main.Bootable.{IsKernelFile, IsHeader, IsEnd}
use wboot.Main.Steps.{refused-Ends, initramfs_loaded-Ends}

module _ (p : Platform) (uefi : IsUefi p.fw) (z : IsZstd p.zstd) where
  files_loaded-Ends :
      (config : WbootConfig) → Ends (IsInitramfs p.fw config) (wboot_load_initramfs p.fw config)
  files_loaded-Ends config =
      Ends-each (IsInitramfs p.fw config) (wboot_load_initramfs p.fw config)
        (wboot_load_initramfs-IsInitramfs p.fw config uefi)

  decompressed-Ends :
      (config : WbootConfig) (header : SetupHeader) (kernel_file dctx : Ptr) (x : DecompressResult)
      → IsHeader p config header
      → IsKernel p.fw p.zstd header kernel_file x
      → Ends (IsEnd p) (decompressed p config header (dctx, x))
  unfolding decompressed
  decompressed-Ends config header kernel_file dctx (status, none) good h = refused-Ends p status h
  decompressed-Ends config header kernel_file dctx (status, some kernel) good
        (ok, elf, long, fits, pages) =
      Ends-if (IsEnd p) (p.fw.efi_error status) _ _ (λ e. Ends-pure (IsEnd p) (exited status) tt)
        (λ e. Ends-then (IsEnd p) (print _ _) _ (
          Ends-chain (IsEnd p) (IsInitramfs p.fw config) (wboot_load_initramfs p.fw config)
            (loaded_initramfs p config header kernel) (files_loaded-Ends config)
            (λ y whole.
              initramfs_loaded-Ends p config header kernel y uefi.buffer_too_small_error good elf
                fits whole)))

  decompress-Ends :
      (header : SetupHeader) (kernel_file : Ptr)
      → Ends
          (λ (x : Ptr × DecompressResult). IsKernel p.fw p.zstd header kernel_file x.1)
          (wboot_decompress_kernel p.fw p.zstd header kernel_file 0)
  decompress-Ends header kernel_file =
      Ends-each (λ (x : Ptr × DecompressResult). IsKernel p.fw p.zstd header kernel_file x.1)
        (wboot_decompress_kernel p.fw p.zstd header kernel_file 0)
        (wboot_decompress_kernel-IsKernel p.fw p.zstd header kernel_file uefi z 0)

  read_header-Ends :
      (config : WbootConfig) (kernel_file : Ptr) (x : HeaderRead)
      → IsKernelFile p config kernel_file
      → IsKernelHeader p.fw uefi kernel_file x
      → Ends (IsEnd p) (read_header p config kernel_file x)
  unfolding read_header
  read_header-Ends config kernel_file (status, none) file h = refused-Ends p status h
  read_header-Ends config kernel_file (status, some header) file (ok, flag, magic, whole) =
      Ends-if (IsEnd p) (p.fw.efi_error status) _ _ (λ e. Ends-pure (IsEnd p) (exited status) tt)
        (λ e. Ends-then (IsEnd p) (print _ _) _ (
          Ends-chain (IsEnd p) _ (wboot_decompress_kernel p.fw p.zstd header kernel_file 0)
            (decompressed p config header) (decompress-Ends header kernel_file)
            (λ y h.
              decompressed-Ends config header kernel_file y.0 y.1
                (flag, magic, (kernel_file, file, whole)) h)))

  opened-Ends :
      (config : WbootConfig) (x : EfiStatus × Ptr) (events : Events)
      → p.fw.open_file events config.root config.kernel_path.text ≡ x
      → Ends (IsEnd p) (opened p config x)
  unfolding opened
  opened-Ends config x events answer =
      Ends-if (IsEnd p) (p.fw.efi_error x.0) _ _ (λ e. Ends-pure (IsEnd p) (exited x.0) tt)
        (λ e. Ends-then (IsEnd p) (print _ _) _ (
          Ends-chain (IsEnd p) (IsKernelHeader p.fw uefi x.1) (wboot_read_setup_header p.fw x.1)
            (read_header p config x.1)
            (Ends-each (IsKernelHeader p.fw uefi x.1) (wboot_read_setup_header p.fw x.1)
              (wboot_read_setup_header-IsKernelHeader p.fw uefi x.1))
            (λ y h.
              read_header-Ends config x.1 y
                (record { events = events; status = x.0; answer = answer; succeeded = e }) h)))

  located-Ends : (x : Located) → IsLocated p.fw p.sizes uefi x → Ends (IsEnd p) (located p x)
  unfolding located wboot_open_kernel open_file
  located-Ends (status, none) h = refused-Ends p status h
  located-Ends (status, some x) h =
      Ends-if (IsEnd p) (p.fw.efi_error status) _ _ (λ e. Ends-pure (IsEnd p) (exited status) tt)
        (λ e. Ends-then (IsEnd p) (show_config p x.config) _ (
          Ends-then (IsEnd p) (print _ _) _ (
            Ends-each (IsEnd p) (wboot_open_kernel p.fw x.config >>= opened p x.config) (λ m.
              let y = wboot_open_kernel p.fw x.config m in
              Ends_run (IsEnd p) (opened p x.config y.0) (opened-Ends x.config y.0 m.events refl)
                y.1))))

  -- `efi_main` reads no pointer that no call has set. Where it hands off, the kernel's header is that
  -- of a whole read of the file that Open gave for the kernel's path, with the two magic numbers; the
  -- kernel has the magic number of an ELF file and is no longer than the header's `init_size`; the
  -- initial file system is the whole of its file; the memory map is that of a call of
  -- `wboot_exit_bs`, translated without an error, as `efi_info` describes it, with the extended table
  -- of a call of `wboot_allocate_e820` that succeeded; the boot parameters hold the kernel's header
  -- with what the loader sets and with the setup data that the translation leaves, and its count of
  -- entries; the memory is as `wboot_get_kernel_entry` leaves it, and the entry is the number at
  -- offset 24 of the kernel there. The firmware and zstd keep what they promise.
  pub efi_main-IsEnd : (m : Machine) → IsEnd p (efi_main p m).0
  unfolding efi_main
  efi_main-IsEnd = Ends_run (IsEnd p) (efi_main p) (
      Ends-then (IsEnd p) (print _ _) _ (
        Ends-then (IsEnd p) (print _ _) _ (
          Ends-then (IsEnd p) (print _ _) _ (
            Ends-chain (IsEnd p) (IsLocated p.fw p.sizes uefi) (wboot_locate_config p.fw p.sizes)
              (located p) (wboot_locate_config-IsLocated p.fw p.sizes uefi)
              (λ x h. located-Ends x h)))))
