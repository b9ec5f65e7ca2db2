-- ===== src/Loader/AllocateE820.antt =====
-- `wboot_allocate_e820` of src/phase3/wboot.c.
pub mod Account
pub mod Room
use wboot.Prelude.{
  ℕ, ◌+◌, ◌*◌, ◌/◌, ◌%◌, Bool, not, Option, none, some, List, [], ◌∷◌, Text, codes, ltb, ◌==◌,
  if◌then◌else◌,
}
use wboot.Prelude.Words.{u32_mod, u64_mod}
use wboot.Stdlib.Printf.{wide}
use wboot.Stdlib.Alloc.{Io, pure, ◌>>=◌, ◌>>◌, print, strerror, get_errno, malloc, free}
use wboot.Efi.{Ptr, Firmware, EfiStatus, success, out_of_resources, MapAnswer}
use wboot.Efi.Maps.{get_memory_map}
use wboot.Efi.Uefi.{is_buffer_too_small}
use wboot.Memmap.{max_entries, entry_size}

-- EFI_MMAP_NR_SLACK_SLOTS, and `sizeof(setup_data_t)`.
abbrev pub slack_slots : ℕ
slack_slots = 32

abbrev pub setup_data_size : ℕ
setup_data_size = 16

-- `*e820ext` and `*e820ext_size`.
pub record ExtBuffer : Type 0 where
  pub ptr : Ptr
  pub size : ℕ

-- The status, and `*e820ext` where one was allocated.
abbrev pub E820Result : Type 0
E820Result = EfiStatus × Option ExtBuffer

-- The size of the buffer for the memory map, with the slack; it wraps.
abbrev pub map_buffer_size : MapAnswer → ℕ
map_buffer_size sized = (sized.size + (sized.desc_size * slack_slots) % u64_mod) % u64_mod

-- `nr_desc`
unfoldable pub nr_desc_of : MapAnswer → ℕ
nr_desc_of answer = (answer.size / answer.desc_size) % u32_mod

-- Whether the table of the boot parameters may be too small, and `*e820ext_size`.
unfoldable pub needs_ext : ℕ → Bool
needs_ext nr_desc = ltb 96 nr_desc

unfoldable pub ext_size_for : ℕ → ℕ
ext_size_for nr_desc = (setup_data_size + entry_size * nr_desc) % u32_mod

module _ (fw : Firmware) where
  no_ext : Ptr → EfiStatus → Io E820Result
  no_ext memmap errno =
      print (codes "[allocate_e820] error allocating memory for e820ext: %s\r\n")
        (wide (strerror errno) ∷ [])
      >> (free fw memmap >> pure (out_of_resources, none))

  ext_allocated : Ptr → ℕ → Ptr → Io E820Result
  ext_allocated memmap size e820ext =
      if e820ext == 0
      then get_errno >>= no_ext memmap
      else free fw memmap >> pure (success, some (record { ptr = e820ext; size = size }))

  -- With the number of descriptors.
  allocate_ext : Ptr → ℕ → Io E820Result
  allocate_ext memmap nr_desc =
      if needs_ext nr_desc
      then malloc fw (ext_size_for nr_desc) >>= ext_allocated memmap (ext_size_for nr_desc)
      else free fw memmap >> pure (success, none)

  map_filled : Ptr → MapAnswer → Io E820Result
  map_filled memmap answer =
      if fw.efi_error answer.status
      then print (codes "[allocate_e820] error getting memory map: %s\r\n")
          (wide (strerror answer.status) ∷ [])
        >> (free fw memmap >> pure (answer.status, none))
      else allocate_ext memmap (nr_desc_of answer)

  no_map : EfiStatus → Io E820Result
  no_map errno =
      print (codes "[allocate_e820] error allocating memory for memory map: %s\r\n")
        (wide (strerror errno) ∷ [])
      >> pure (out_of_resources, none)

  map_allocated : ℕ → Ptr → Io E820Result
  map_allocated buffer_size memmap =
      if memmap == 0
      then get_errno >>= no_map
      else get_memory_map fw buffer_size >>= map_filled memmap

  map_sized : MapAnswer → Io E820Result
  map_sized sized =
      if not (is_buffer_too_small sized.status)
      then print (codes "[allocate_e820] error getting memory map size: %s\r\n")
          (wide (strerror sized.status) ∷ [])
        >> pure (sized.status, none)
      else malloc fw (map_buffer_size sized) >>= map_allocated (map_buffer_size sized)

  -- `wboot_allocate_e820`; the test for the extended table is against 128 - 32.
  unfoldable pub wboot_allocate_e820 : Io E820Result
  unfolding map_sized map_allocated map_filled allocate_ext ext_allocated no_ext no_map nr_desc_of
      needs_ext ext_size_for get_memory_map
  wboot_allocate_e820 = get_memory_map fw 0 >>= map_sized
