-- ===== src/Loader/ExitBs/Leave.antt =====
-- `wboot_exit_bs` of src/phase3/wboot.c, step by step.
use wboot.Prelude.{ℕ, [], Text, codes}
use wboot.Efi.{Ptr, Firmware, EfiStatus, MapAnswer}
use wboot.Efi.Maps.{get_memory_map, exit_boot_services}
use wboot.Stdlib.Alloc.{Machine, Io, ◌>>=◌, ◌>>◌, print}
use wboot.Stdlib.Alloc.Balance.{Resource, IsReal}
use wboot.Linux.BootParams.{BootParams}
use wboot.Loader.ExitBs.{ExitResult, second_map}

module _ (fw : Firmware) (system_table : ℕ) (params : BootParams) where
  module _ (r : Resource) (real : IsReal r) where
    -- The machine behind a read of the map, and behind the call that leaves boot services with it.
    abbrev read_at : ℕ → Machine → MapAnswer × Machine
    read_at size m = get_memory_map fw size m

    abbrev exit_at : ℕ → Machine → EfiStatus × Machine
    exit_at size m = let (answer, m') = read_at size m in exit_boot_services fw answer.key m'

    abbrev again : Ptr → ℕ → Io ExitResult
    again memmap size =
        print (codes "[exit_bs] trying again!\r\n") []
        >> (get_memory_map fw size >>= second_map fw system_table params memmap)

    abbrev warning : Text
    warning = codes "[exit_bs] warning: error exiting boot services"
