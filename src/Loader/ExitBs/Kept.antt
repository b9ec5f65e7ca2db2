-- ===== src/Loader/ExitBs/Kept.antt =====
-- What `wboot_exit_bs` of src/phase3/wboot.c leaves alone in the boot parameters.
use wboot.Prelude.{ℕ, ◌≡◌, refl, not, none, some, ◌==◌}
use wboot.Efi.{Ptr, Firmware, EfiStatus, MapAnswer}
use wboot.Efi.Maps.{get_memory_map, exit_boot_services}
use wboot.Efi.Uefi.{is_buffer_too_small}
use wboot.Stdlib.Alloc.{pure, ◌>>=◌, print, perror, free, malloc, get_errno, wstdlib_bs_exited}
use wboot.Stdlib.Alloc.Ends.{Ends, Ends-pure, Ends-bind, Ends-if, Ends-then}
use wboot.Linux.BootParams.{BootParams}
use wboot.Loader.AllocateE820.{map_buffer_size}
use wboot.Loader.BootParams.{populate_bootparams_efi}
use wboot.Loader.ExitBs.{
  ExitResult, give_up, populate, second_exit, second_map, first_exit, first_map, no_map,
  map_allocated, map_sized, wboot_exit_bs,
}

module _ (fw : Firmware) (system_table : ℕ) (params : BootParams) where
  abbrev pub KeepsHeader : ExitResult → Type 0
  KeepsHeader none = Unit
  KeepsHeader (some h) = h.params.hdr ≡ params.hdr

  give_up-Ends : (memmap : Ptr) → Ends KeepsHeader (give_up fw system_table params memmap)
  unfolding give_up
  give_up-Ends memmap =
      Ends-then KeepsHeader (free fw memmap) (pure none) (Ends-pure KeepsHeader none tt)

  populate-Ends :
      (memmap : Ptr) (answer : MapAnswer)
      → Ends KeepsHeader (populate fw system_table params memmap answer)
  unfolding populate populate_bootparams_efi
  populate-Ends memmap answer = Ends-then KeepsHeader wstdlib_bs_exited _ (
      Ends-pure KeepsHeader
        (some (record {
          memmap = memmap;
          descs = answer.descs;
          params =
              populate_bootparams_efi system_table params memmap answer.size answer.desc_size
                answer.desc_ver;
        }))
        refl)

  second_exit-Ends :
      (memmap : Ptr) (answer : MapAnswer) (status : EfiStatus)
      → Ends KeepsHeader (second_exit fw system_table params memmap answer status)
  unfolding second_exit
  second_exit-Ends memmap answer status =
      Ends-if KeepsHeader (fw.efi_error status) _ _
        (λ e.
          Ends-then KeepsHeader (perror _ _) (give_up fw system_table params memmap)
            (give_up-Ends memmap))
        (λ e. populate-Ends memmap answer)

  second_map-Ends :
      (memmap : Ptr) (answer : MapAnswer)
      → Ends KeepsHeader (second_map fw system_table params memmap answer)
  unfolding second_map
  second_map-Ends memmap answer =
      Ends-if KeepsHeader (fw.efi_error answer.status) _ _
        (λ e.
          Ends-then KeepsHeader (perror _ _) (give_up fw system_table params memmap)
            (give_up-Ends memmap))
        (λ e.
          Ends-bind KeepsHeader (exit_boot_services fw answer.key)
            (second_exit fw system_table params memmap answer) (second_exit-Ends memmap answer))

  first_exit-Ends :
      (memmap : Ptr) (size : ℕ) (answer : MapAnswer) (status : EfiStatus)
      → Ends KeepsHeader (first_exit fw system_table params memmap size answer status)
  unfolding first_exit
  first_exit-Ends memmap size answer status =
      Ends-if KeepsHeader (fw.efi_error status) _ _
        (λ e. Ends-then KeepsHeader (perror _ _) _ (
          Ends-then KeepsHeader (print _ _)
            (get_memory_map fw size >>= second_map fw system_table params memmap)
            (Ends-bind KeepsHeader (get_memory_map fw size)
              (second_map fw system_table params memmap) (second_map-Ends memmap))))
        (λ e. populate-Ends memmap answer)

  first_map-Ends :
      (memmap : Ptr) (size : ℕ) (answer : MapAnswer)
      → Ends KeepsHeader (first_map fw system_table params memmap size answer)
  unfolding first_map
  first_map-Ends memmap size answer =
      Ends-if KeepsHeader (fw.efi_error answer.status) _ _
        (λ e.
          Ends-then KeepsHeader (perror _ _) (give_up fw system_table params memmap)
            (give_up-Ends memmap))
        (λ e.
          Ends-bind KeepsHeader (exit_boot_services fw answer.key)
            (first_exit fw system_table params memmap size answer)
            (first_exit-Ends memmap size answer))

  map_allocated-Ends :
      (sized : MapAnswer) (memmap : Ptr)
      → Ends KeepsHeader (map_allocated fw system_table params sized memmap)
  unfolding map_allocated no_map
  map_allocated-Ends sized memmap =
      Ends-if KeepsHeader (memmap == 0) _ _
        (λ e.
          Ends-bind KeepsHeader get_errno (no_map fw system_table params) (λ errno.
            Ends-then KeepsHeader (perror _ _) (pure none) (Ends-pure KeepsHeader none tt)))
        (λ e.
          Ends-bind KeepsHeader (get_memory_map fw sized.size)
            (first_map fw system_table params memmap (map_buffer_size sized))
            (first_map-Ends memmap (map_buffer_size sized)))

  map_sized-Ends : (sized : MapAnswer) → Ends KeepsHeader (map_sized fw system_table params sized)
  unfolding map_sized
  map_sized-Ends sized =
      Ends-if KeepsHeader (not (is_buffer_too_small sized.status)) _ _
        (λ e. Ends-then KeepsHeader (perror _ _) (pure none) (Ends-pure KeepsHeader none tt))
        (λ e.
          Ends-bind KeepsHeader (malloc fw (map_buffer_size sized))
            (map_allocated fw system_table params sized) (map_allocated-Ends sized))

  -- `wboot_exit_bs` does not change the header in the boot parameters.
  pub wboot_exit_bs-KeepsHeader : Ends KeepsHeader (wboot_exit_bs fw system_table params)
  unfolding wboot_exit_bs
  wboot_exit_bs-KeepsHeader =
      Ends-bind KeepsHeader (get_memory_map fw 0) (map_sized fw system_table params) map_sized-Ends
