-- ===== src/Loader/BootParams/Kept.antt =====
-- The boot parameters that `wboot_prepare_bootparams` of src/phase3/wboot.c returns.
use wboot.Prelude.{ℕ, ◌≡◌, refl, Option, none, some, ◌==◌}
use wboot.Efi.{Ptr, Firmware}
use wboot.Stdlib.Alloc.{pure, print, get_errno, malloc, HeapText}
use wboot.Stdlib.Alloc.Ends.{Ends, Ends-pure, Ends-bind, Ends-if, Ends-then}
use wboot.Linux.{SetupHeader}
use wboot.Linux.BootParams.{boot_params_size}
use wboot.Loader.BootParams.{
  ParamsAt, loader_header, params_for, no_params, params_allocated, wboot_prepare_bootparams,
}

module _ (fw : Firmware) (cmdline : HeapText) (header : SetupHeader) (initramfs : Ptr)
    (size : ℕ) where
  abbrev pub HasLoaderHeader : Option ParamsAt → Type 0
  HasLoaderHeader none = Unit
  HasLoaderHeader (some x) = x.params.hdr ≡ loader_header header cmdline initramfs size

  params_allocated-Ends :
      (p : Ptr)
      → Ends HasLoaderHeader (params_allocated fw (params_for header cmdline initramfs size) p)
  unfolding params_allocated no_params params_for
  params_allocated-Ends p =
      Ends-if HasLoaderHeader (p == 0) _ _
        (λ e. Ends-bind HasLoaderHeader get_errno (no_params fw) (λ errno.
          Ends-then HasLoaderHeader (print _ _) (pure none) (Ends-pure HasLoaderHeader none tt)))
        (λ e.
          Ends-pure HasLoaderHeader
            (some (record { ptr = p; params = params_for header cmdline initramfs size })) refl)

  -- The header in the boot parameters that `wboot_prepare_bootparams` returns is the kernel's with
  -- what the loader sets.
  pub wboot_prepare_bootparams-HasLoaderHeader :
      Ends HasLoaderHeader (wboot_prepare_bootparams fw cmdline header initramfs size)
  unfolding wboot_prepare_bootparams
  wboot_prepare_bootparams-HasLoaderHeader =
      Ends-bind HasLoaderHeader (malloc fw boot_params_size)
        (params_allocated fw (params_for header cmdline initramfs size)) params_allocated-Ends
