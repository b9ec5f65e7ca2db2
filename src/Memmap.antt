-- ===== src/Memmap.antt =====
-- The memory map of src/phase3/wboot.c: `wboot_translate_memmap` and `add_e820ext`, with the types
-- of src/shared/linux.h.
pub mod Bounds
pub mod Counted
pub mod Cover
pub mod Chain
pub mod Handover
pub mod Enough
pub mod Room
use wboot.Prelude.{
  ℕ, zero, suc, ◌+◌, ◌-◌, ◌*◌, ◌%◌, Bool, true, false, ◌&&◌, Option, none, some, List, [], ◌∷◌,
  ◌++◌, leb, ltb, ◌==◌, if◌then◌else◌, length,
}
use wboot.Prelude.Words.{u8_mod, u32_mod, u64_mod}
use wboot.Efi.{Ptr, EfiStatus, success, buffer_too_small}
pub use wboot.Efi.{
  MemoryType, reserved_memory_type, loader_code, loader_data, boot_services_code,
  boot_services_data, runtime_services_code, runtime_services_data, conventional_memory,
  unusable_memory, acpi_reclaim_memory, acpi_memory_nvs, memory_mapped_io,
  memory_mapped_io_port_space, pal_code, persistent_memory, other_type, MemoryDescriptor,
}

-- `e820_type_t`, and the number of each.
pub data E820Type : Type 0 where
  ram reserved acpi nvs unusable pmem pram : E820Type

abbrev pub type_number : E820Type → ℕ
type_number ram = 1
type_number reserved = 2
type_number acpi = 3
type_number nvs = 4
type_number unusable = 5
type_number pmem = 7
type_number pram = 12

-- `boot_e820_entry_t`
pub record E820Entry : Type 0 where
  pub addr : ℕ
  pub size : ℕ
  pub kind : E820Type

-- E820_MAX_ENTRIES_ZEROPAGE, and the size of the packed `boot_e820_entry_t`.
abbrev pub max_entries : ℕ
max_entries = 128

abbrev pub entry_size : ℕ
entry_size = 20

-- The switch on `d->Type`; `none` is `continue`.
unfoldable pub e820_type_of : MemoryType → Option E820Type
e820_type_of reserved_memory_type = some reserved
e820_type_of runtime_services_code = some reserved
e820_type_of runtime_services_data = some reserved
e820_type_of memory_mapped_io = some reserved
e820_type_of memory_mapped_io_port_space = some reserved
e820_type_of pal_code = some reserved
e820_type_of unusable_memory = some unusable
e820_type_of acpi_reclaim_memory = some acpi
e820_type_of loader_code = some ram
e820_type_of loader_data = some ram
e820_type_of boot_services_code = some ram
e820_type_of boot_services_data = some ram
e820_type_of conventional_memory = some ram
e820_type_of acpi_memory_nvs = some nvs
e820_type_of persistent_memory = some pmem
e820_type_of (other_type n) = none

-- What a descriptor says, as an entry: `NumberOfPages << 12` bytes.
abbrev pub entry_of : E820Type → MemoryDescriptor → E820Entry
entry_of k d = record {
  addr = d.physical_start;
  size = (d.number_of_pages * 4096) % u64_mod;
  kind = k;
}

-- The entries written to `params->e820_table` and those written to `e820ext->data`, the newest
-- first. `entry` is behind the newest and `prev` at it.
pub record E820Map : Type 0 where
  pub table : List E820Entry
  pub ext : List E820Entry

abbrev pub nr_entries : E820Map → ℕ
nr_entries t = length t.table + length t.ext

abbrev pub same_type : E820Type → E820Type → Bool
same_type k j = type_number k == type_number j

-- The test of `prev->type == e820_type` and `prev->addr + prev->size == d->PhysicalStart`.
abbrev pub joins : E820Entry → E820Entry → Bool
joins prev e = same_type prev.kind e.kind && ((prev.addr + prev.size) % u64_mod) == e.addr

-- `prev->size += d->NumberOfPages << 12`
abbrev pub grow : E820Entry → E820Entry → E820Entry
grow prev e = record prev { size = (prev.size + e.size) % u64_mod }

-- The test of `e820ext` and `need`, with `nr_desc - i` descriptors to go; NULL is `none`.
unfoldable pub has_room : ℕ → Option ℕ → ℕ → Bool
has_room setup_header_size none remaining = false
has_room setup_header_size (some size) remaining =
    leb ((remaining * entry_size + setup_header_size) % u32_mod) size

module _ (setup_header_size : ℕ) (e820ext_size : Option ℕ) where
  -- The write of a new entry; `false` is the return of EFI_BUFFER_TOO_SMALL.
  unfoldable pub write_entry : ℕ → E820Entry → E820Map → Bool × E820Map
  write_entry remaining e t =
      if ltb (nr_entries t) max_entries
      then (true, record t { table = e ∷ t.table })
      else if nr_entries t == max_entries
      then (if has_room setup_header_size e820ext_size remaining
          then (true, record t { ext = e ∷ t.ext })
          else (false, t))
      else (true, record t { ext = e ∷ t.ext })

  -- Merge with `prev`, which is NULL before the first entry, or write.
  unfoldable pub merge_or_write : ℕ → E820Entry → List E820Entry → List E820Entry → Bool × E820Map
  merge_or_write remaining e [] [] = write_entry remaining e (record { table = []; ext = [] })
  merge_or_write remaining e (prev ∷ table) [] =
      if joins prev e
      then (true, record { table = grow prev e ∷ table; ext = [] })
      else write_entry remaining e (record { table = prev ∷ table; ext = [] })
  merge_or_write remaining e table (prev ∷ ext) =
      if joins prev e
      then (true, record { table = table; ext = grow prev e ∷ ext })
      else write_entry remaining e (record { table = table; ext = prev ∷ ext })

  -- The body of the loop, at the type that the switch gives.
  unfoldable pub add_typed : ℕ → MemoryDescriptor → E820Map → Option E820Type → Bool × E820Map
  add_typed remaining d t none = (true, t)
  add_typed remaining d t (some k) = merge_or_write remaining (entry_of k d) t.table t.ext

  unfoldable pub add_descriptor : ℕ → MemoryDescriptor → E820Map → Bool × E820Map
  add_descriptor remaining d t = add_typed remaining d t (e820_type_of d.kind)

  -- The loop over the descriptors; `nr_desc - i` is the length of those to go.
  unfoldable pub translate : List MemoryDescriptor → E820Map → Bool × E820Map
  translate [] t = (true, t)
  translate (d ∷ descs) t =
      let (ok, t') = add_descriptor (length (d ∷ descs)) d t in
      let rest = translate descs t' in if ok then rest else (false, t')

-- The head of a `setup_data_t`, the store of all of them, and the list that
-- `params->hdr.setup_data` begins.
pub record SetupData : Type 0 where
  pub next : Ptr
  pub kind : ℕ
  pub len : ℕ

abbrev pub SetupStore : Type 0
SetupStore = Ptr → SetupData

unfoldable pub put_data : Ptr → SetupData → SetupStore → SetupStore
put_data p x store q = if q == p then x else store q

-- `while (data && data->next)`, at a `data` that is not NULL; `none` means that the fuel ran out.
unfoldable pub find_last : ℕ → SetupStore → Ptr → Option Ptr
find_last zero store p = none
find_last (suc fuel) store p =
    let rest = find_last fuel store (store p).next in if (store p).next == 0 then some p else rest

-- `data->next = e820ext`
abbrev pub link : Ptr → Ptr → SetupStore → SetupStore
link last e820ext store = put_data last (record (store last) { next = e820ext }) store

-- `e820ext` with its type, SETUP_E820_EXT, and its length.
abbrev pub fill_ext : Ptr → ℕ → SetupStore → SetupStore
fill_ext e820ext nr_entries =
    put_data e820ext (record { next = 0; kind = 1; len = (nr_entries * entry_size) % u32_mod })

-- The new `hdr.setup_data`, and the store.
unfoldable pub add_e820ext : ℕ → Ptr → ℕ → Ptr → SetupStore → Option (Ptr × SetupStore)
add_e820ext fuel e820ext nr_entries head store =
    let filled = fill_ext e820ext nr_entries store in
    let last = find_last fuel filled head in
    if head == 0
    then some (e820ext, filled)
    else elim last [ none ↦ none | some p ↦ some (head, link p e820ext filled) ]

-- What `wboot_translate_memmap` leaves: its status, the tables, `e820_entries` where it is set, and
-- the list of setup data.
pub record Translated : Type 0 where
  pub status : EfiStatus
  pub map : E820Map
  pub e820_entries : Option ℕ
  pub setup_data : Ptr
  pub store : SetupStore

unfoldable pub with_chain : E820Map → ℕ → Option (Ptr × SetupStore) → Option Translated
with_chain t entries none = none
with_chain t entries (some (head, store)) = some (record {
  status = success;
  map = t;
  e820_entries = some entries;
  setup_data = head;
  store = store;
})

-- Behind the loop.
unfoldable pub finish_map : ℕ → Ptr → E820Map → Ptr → SetupStore → Option Translated
finish_map fuel e820ext t head store =
    let nr_e820ext = nr_entries t - max_entries in
    if ltb max_entries (nr_entries t)
    then with_chain t ((nr_entries t - nr_e820ext) % u8_mod)
        (add_e820ext fuel e820ext nr_e820ext head store)
    else some (record {
      status = success;
      map = t;
      e820_entries = some (nr_entries t % u8_mod);
      setup_data = head;
      store = store;
    })

-- After the loop: EFI_BUFFER_TOO_SMALL leaves `e820_entries` and the setup data as they were.
unfoldable pub end_translation : ℕ → Ptr → Ptr → SetupStore → Bool × E820Map → Option Translated
end_translation fuel e820ext head store (true, t) = finish_map fuel e820ext t head store
end_translation fuel e820ext head store (false, t) = some (record {
  status = buffer_too_small;
  map = t;
  e820_entries = none;
  setup_data = head;
  store = store;
})

-- `e820ext` is a pointer and 0 for NULL. The fuel is for the list of setup data.
unfoldable pub wboot_translate_memmap :
    ℕ → ℕ → Ptr → ℕ → List MemoryDescriptor → Ptr → SetupStore → Option Translated
unfolding end_translation finish_map with_chain add_e820ext find_last put_data translate
    add_descriptor add_typed merge_or_write write_entry has_room e820_type_of
wboot_translate_memmap setup_header_size fuel e820ext e820ext_size descs head store =
    let given = if e820ext == 0 then none else some e820ext_size in
    end_translation fuel e820ext head store
      (translate setup_header_size given descs (record { table = []; ext = [] }))
