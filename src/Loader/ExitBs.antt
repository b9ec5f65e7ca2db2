-- ===== src/Loader/ExitBs.antt =====
-- `wboot_exit_bs` of src/phase3/wboot.c.
pub mod Account
pub mod Kept
pub mod Leave
use wboot.Prelude.{
  ℕ, ◌+◌, ◌*◌, ◌%◌, Bool, not, Option, none, some, List, [], ◌∷◌, Text, codes, ◌==◌, if◌then◌else◌,
}
use wboot.Stdlib.Alloc.{
  Io, pure, ◌>>=◌, ◌>>◌, print, perror, get_errno, malloc, free, wstdlib_bs_exited,
}
use wboot.Efi.{Ptr, Firmware, EfiStatus, MapAnswer, MemoryDescriptor}
use wboot.Efi.Maps.{get_memory_map, exit_boot_services}
use wboot.Efi.Uefi.{is_buffer_too_small}
use wboot.Linux.BootParams.{BootParams}
use wboot.Loader.BootParams.{populate_bootparams_efi}
use wboot.Loader.AllocateE820.{map_buffer_size}

-- The memory map that is returned, what stands there, and the boot parameters.
pub record Handover : Type 0 where
  pub memmap : Ptr
  pub descs : List MemoryDescriptor
  pub params : BootParams

-- NULL is `none`; it leaves the boot parameters as they were.
abbrev pub ExitResult : Type 0
ExitResult = Option Handover

-- The parameters are those of the program: the address of the system table, and `params`.
module _ (fw : Firmware) (system_table : ℕ) (params : BootParams) where
  pub give_up : Ptr → Io ExitResult
  give_up memmap = free fw memmap >> pure none

  -- Behind ExitBootServices.
  populate : Ptr → MapAnswer → Io ExitResult
  populate memmap answer =
      wstdlib_bs_exited
      >> pure (
          some (record {
            memmap = memmap;
            descs = answer.descs;
            params =
                populate_bootparams_efi system_table params memmap answer.size answer.desc_size
                  answer.desc_ver;
          }))

  second_exit : Ptr → MapAnswer → EfiStatus → Io ExitResult
  second_exit memmap answer status =
      if fw.efi_error status
      then perror (codes "[exit_bs] error exiting boot services on second attempt") status
        >> give_up memmap
      else populate memmap answer

  second_map : Ptr → MapAnswer → Io ExitResult
  second_map memmap answer =
      if fw.efi_error answer.status
      then perror (codes "[exit_bs] error getting memory map on second attempt") answer.status
        >> give_up memmap
      else exit_boot_services fw answer.key >>= second_exit memmap answer

  -- The second attempt gets the size of the buffer, not the size of the map.
  first_exit : Ptr → ℕ → MapAnswer → EfiStatus → Io ExitResult
  first_exit memmap buffer_size answer status =
      if fw.efi_error status
      then perror (codes "[exit_bs] warning: error exiting boot services") status
        >> (print (codes "[exit_bs] trying again!\r\n") []
            >> (get_memory_map fw buffer_size >>= second_map memmap))
      else populate memmap answer

  first_map : Ptr → ℕ → MapAnswer → Io ExitResult
  first_map memmap buffer_size answer =
      if fw.efi_error answer.status
      then perror (codes "[exit_bs] error getting memory map") answer.status >> give_up memmap
      else exit_boot_services fw answer.key >>= first_exit memmap buffer_size answer

  no_map : EfiStatus → Io ExitResult
  no_map errno =
      perror (codes "[exit_bs] error allocating memory for memory map") errno >> pure none

  -- The first attempt says that the buffer is as large as the map was before the allocation.
  map_allocated : MapAnswer → Ptr → Io ExitResult
  map_allocated sized memmap =
      if memmap == 0
      then get_errno >>= no_map
      else get_memory_map fw sized.size >>= first_map memmap (map_buffer_size sized)

  map_sized : MapAnswer → Io ExitResult
  map_sized sized =
      if not (is_buffer_too_small sized.status)
      then perror (codes "[exit_bs] error getting memory map size") sized.status >> pure none
      else malloc fw (map_buffer_size sized) >>= map_allocated sized

  -- `wboot_exit_bs`
  unfoldable pub wboot_exit_bs : Io ExitResult
  unfolding map_sized map_allocated first_map second_map first_exit second_exit populate give_up
      no_map get_memory_map exit_boot_services populate_bootparams_efi
  wboot_exit_bs = get_memory_map fw 0 >>= map_sized
