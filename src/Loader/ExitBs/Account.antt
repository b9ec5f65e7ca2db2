-- ===== src/Loader/ExitBs/Account.antt =====
-- The rules for the accounts of `wboot_exit_bs` of src/phase3/wboot.c, and what it leaves behind.
use wboot.Prelude.{
  ℕ, ◌+◌, ◌*◌, ◌%◌, ◌^◌, ◌<◌, ◌≡◌, refl, arith, Bool, true, false, none, some, [], ◌∷◌, Text, codes,
  if◌then◌else◌,
}
use wboot.Efi.{Ptr, Events, Firmware, EfiStatus, MapAnswer, map_read, exit_called}
use wboot.Stdlib.Printf.{wide}
use wboot.Stdlib.Alloc.{Machine, Io, ◌>>=◌, ◌>>◌, perror, strerror}
use wboot.Stdlib.Alloc.Balance.{
  Resource, refers, given, returned, IsReal, Balanced, Balanced-trans, print-Balanced,
  free-Balanced,
}
use wboot.Linux.{little_endian}
use wboot.Linux.BootParams.{BootParams}
use wboot.Loader.ExitBs.{Handover, ExitResult, give_up}

-- The boot parameters `after` tell where the system table and the memory map stand, how long the
-- map and its descriptors are, and of which version; the rest of them is as it was.
pub record Describes (system_table memmap : ℕ) (answer : MapAnswer) (params after : BootParams)
    : Type 0 where
  pub signature : after.efi_info.efi_loader_signature ≡ little_endian (codes "EL64")
  pub system_table_at :
      after.efi_info.efi_systab + after.efi_info.efi_systab_hi * 2 ^ 32 ≡ system_table % 2 ^ 64
  pub memmap_at :
      after.efi_info.efi_memmap + after.efi_info.efi_memmap_hi * 2 ^ 32 ≡ memmap % 2 ^ 64
  pub low_halves : (after.efi_info.efi_systab < 2 ^ 32) × (after.efi_info.efi_memmap < 2 ^ 32)
  pub memmap_size : after.efi_info.efi_memmap_size ≡ answer.size % 2 ^ 32
  pub memdesc_size : after.efi_info.efi_memdesc_size ≡ answer.desc_size % 2 ^ 32
  pub memdesc_version : after.efi_info.efi_memdesc_version ≡ answer.desc_ver % 2 ^ 32
  pub others_kept : record after { efi_info = params.efi_info } ≡ params

module _ (fw : Firmware) (system_table : ℕ) (params : BootParams) where
  -- The last two calls of the firmware read the memory map that is handed over and left boot
  -- services with the key of that map, and the boot parameters describe it, as `Describes` says.
  abbrev pub IsCurrent : Events → Handover → Type 0
  IsCurrent events h =
      (earlier : Events) × (size : ℕ) × (let answer = fw.get_memory_map earlier size in
        let status =
          fw.exit_boot_services (map_read answer.status answer.key ∷ earlier) answer.key in
        (events ≡ exit_called answer.key status ∷ map_read answer.status answer.key ∷ earlier)
        × (fw.efi_error answer.status ≡ false)
        × (fw.efi_error status ≡ false)
        × (h.descs ≡ answer.descs)
        × Describes system_table h.memmap answer params h.params)

  module _ (r : Resource) (real : IsReal r) where
    pub record Left (before : ℕ) (m : Machine) (h : Handover) (m' : Machine) : Type 0 where
      pub exited : m'.bs_exited ≡ true
      pub accounts :
          given r m'.events + returned r m.events + before
          ≡ given r m.events + returned r m'.events + refers r h.memmap
      pub current : IsCurrent m'.events h

    -- NULL: all references are given back, and boot services go on. Else boot services are left, and
    -- the memory map is the one reference.
    abbrev pub Ended : ℕ → Machine → ExitResult → Machine → Type 0
    Ended before m none m' = Balanced r before m 0 m'
    Ended before m (some h) m' = Left before m h m'

    abbrev pub Ending : ℕ → Io ExitResult → Machine → Type 0
    Ending before c m = let (result, m') = c m in Ended before m result m'

    pub Ended-trans :
        {a b : ℕ} {m m' : Machine} (result : ExitResult) (m'' : Machine)
        → Balanced r a m b m'
        → Ended b m' result m''
        → Ended a m result m''
    Ended-trans none m'' h k = Balanced-trans h k
    Ended-trans (some x) m'' h k = record {
      exited = k.exited;
      accounts = omega (arith, h.accounts, k.accounts);
      current = k.current;
    }

    -- A chain that goes on at `m'`, by the accounts since `m`.
    abbrev pub From : ℕ → Machine → Io ExitResult → Machine → Type 0
    From before m c m' = let (result, m'') = c m' in Ended before m result m''

    pub From-if :
        (b : Bool) (k : ℕ) (m : Machine) (f g : Io ExitResult) (m' : Machine)
        → (b ≡ true → From k m f m')
        → (b ≡ false → From k m g m')
        → From k m (if b then f else g) m'
    From-if true k m f g m' h l = h refl
    From-if false k m f g m' h l = l refl

    pub From-trans :
        {a b : ℕ} {m : Machine} (c : Io ExitResult) (m' : Machine)
        → Balanced r a m b m'
        → Ending b c m'
        → From a m c m'
    From-trans c m' h k = Ended-trans (c m').0 (c m').1 h k

    -- Behind a call that moves no reference of these.
    pub Ending-bind :
        {B : Type 0} (c : Io B) (next : B → Io ExitResult) (k j : ℕ) (m : Machine)
        → Balanced r k m j (c m).1
        → Ending j (next (c m).0) (c m).1
        → Ending k (c >>= next) m
    Ending-bind c next k j m h l = Ended-trans (next (c m).0 (c m).1).0 (next (c m).0 (c m).1).1 h l

    pub Ending-perror :
        (message : Text) (status : EfiStatus) (next : Io ExitResult) (k : ℕ) (m : Machine)
        → m.bs_exited ≡ false
        → ((m' : Machine) → m'.bs_exited ≡ false → Ending k next m')
        → Ending k (perror message status >> next) m
    unfolding perror
    Ending-perror message status next k m running h =
        let said =
          print-Balanced fw r k m running (codes "%s: %s\r\n")
            (wide message ∷ wide (strerror status) ∷ []) in
        Ending-bind (perror message status) (λ _. next) k k m said
          (h (perror message status m).1 said.still_running)

    give_up-Ending :
        (memmap : Ptr) (m : Machine)
        → m.bs_exited ≡ false
        → Ending (refers r memmap) (give_up fw system_table params memmap) m
    unfolding give_up
    give_up-Ending memmap m running =
        let freed = free-Balanced fw r 0 m running memmap real in
        record { accounts = omega (arith, freed.accounts); still_running = freed.still_running }

    -- A reference to the map and a message, and no map.
    failed-Ending :
        (message : Text) (status : EfiStatus) (memmap : Ptr) (m : Machine)
        → m.bs_exited ≡ false
        → Ending
            (refers r memmap)
            (perror message status >> give_up fw system_table params memmap)
            m
    failed-Ending message status memmap m running =
        Ending-perror message status (give_up fw system_table params memmap) (refers r memmap) m
          running (give_up-Ending memmap)

    pub failed-From :
        (message : Text) (status : EfiStatus) (memmap : Ptr) (m m' : Machine)
        → Balanced r (refers r memmap) m (refers r memmap) m'
        → From
            (refers r memmap)
            m
            (perror message status >> give_up fw system_table params memmap)
            m'
    failed-From message status memmap m m' h =
        From-trans (perror message status >> give_up fw system_table params memmap) m' h
          (failed-Ending message status memmap m' h.still_running)
