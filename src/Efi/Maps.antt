-- ===== src/Efi/Maps.antt =====
-- The calls of GetMemoryMap and ExitBootServices that the sources make, with the answers of the
-- firmware.
use wboot.Prelude.{ℕ, ◌≡◌, refl, false}
use wboot.Stdlib.Alloc.{Machine, Io, emit}
use wboot.Stdlib.Alloc.Balance.{Resource, Balanced}
use wboot.Efi.{EfiStatus, Firmware, MapAnswer, map_read, exit_called}

module _ (fw : Firmware) where
  -- `BS->GetMemoryMap(&size, memmap, …)` with a buffer of `size` bytes, or without one at size 0.
  unfoldable pub get_memory_map : ℕ → Io MapAnswer
  get_memory_map size m =
      let answer = fw.get_memory_map m.events size in
      (answer, (emit (map_read answer.status answer.key) m).1)

  -- `BS->ExitBootServices(ImageHandle, key)`
  unfoldable pub exit_boot_services : ℕ → Io EfiStatus
  exit_boot_services key m =
      let status = fw.exit_boot_services m.events key in
      (status, (emit (exit_called key status) m).1)

module _ (fw : Firmware) (r : Resource) (k : ℕ) (m : Machine) (running : m.bs_exited ≡ false) where
  pub get_memory_map-Balanced : (size : ℕ) → Balanced r k m k (get_memory_map fw size m).1
  unfolding get_memory_map
  get_memory_map-Balanced size = record { accounts = refl; still_running = running }

  pub exit_boot_services-Balanced : (key : ℕ) → Balanced r k m k (exit_boot_services fw key m).1
  unfolding exit_boot_services
  exit_boot_services-Balanced key = record { accounts = refl; still_running = running }
