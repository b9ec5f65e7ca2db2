-- ===== src/Examples/Memmap.antt =====
-- Runs of the memory map of src/phase3/wboot.c.
use wboot.Prelude.{
  ◌*◌, ◌%◌, ◌≡◌, ◌⊎◌, inl, refl, arith, true, false, ◌||◌, none, some, List, [], ◌∷◌, ◌++◌,
}
use wboot.Prelude.Words.{u32_mod}
use wboot.Efi.{Ptr, success, buffer_too_small}
use wboot.Memmap.{
  loader_code, conventional_memory, acpi_memory_nvs, MemoryDescriptor, ram, nvs, SetupStore,
  translate, add_e820ext, Translated, wboot_translate_memmap,
}
use wboot.Memmap.Bounds.{Within, translate-Within}
use wboot.Memmap.Room.{translate-true}
use wboot.Memmap.Cover.{seen, described, translate-described}
use wboot.Memmap.Chain.{IsChain, KeepsNodes, add_e820ext-IsChain}
use wboot.Memmap.Handover.{Handed, empty_map, given_size, wboot_translate_memmap-Handed}

-- Two pieces of memory that touch, and one of another type.
abbrev pub descs : List MemoryDescriptor
descs =
    record { kind = loader_code; physical_start = 4096; number_of_pages = 2 }
    ∷ record { kind = conventional_memory; physical_start = 12288; number_of_pages = 1 }
    ∷ record { kind = acpi_memory_nvs; physical_start = 16384; number_of_pages = 1 }
    ∷ []

-- One node of setup data, at 500.
abbrev one_node : SetupStore
one_node p = record { next = 0; kind = 2; len = 8 }

one_node-IsChain : IsChain one_node 500 (500 ∷ [])
one_node-IsChain = (refl, ground arith, tt, refl)

translate-merges : translate 123 none descs empty_map ≡ (
  true,
  record {
    table =
        record { addr = 16384; size = 4096; kind = nvs }
        ∷ record { addr = 4096; size = 12288; kind = ram }
        ∷ [];
    ext = [];
  },
)
unfolding translate wboot_translate_memmap
translate-merges = refl

translate-Within_example : Within 123 (some 400) 0 (translate 123 (some 400) descs empty_map).1
translate-Within_example =
    translate-Within 123 (some 400) descs empty_map (omega arith)
      (record { table_fits = omega arith; ext_fits = inl refl })

translate-described_example :
    seen ram 8192 (translate 123 none descs empty_map).1
    ≡ (described ram 8192 descs || seen ram 8192 empty_map)
unfolding translate wboot_translate_memmap
translate-described_example =
    translate-described 123 none ram 8192 descs empty_map (ground arith) tt tt refl

add_e820ext-IsChain_example :
    (head' : Ptr) × (store' : SetupStore) × (add_e820ext 2 900 3 500 one_node
      ≡ some (head', store'))
    × IsChain store' head' ((500 ∷ []) ++ 900 ∷ [])
    × ((store' 900).kind ≡ 1)
    × ((store' 900).len ≡ (3 * 20) % u32_mod)
    × KeepsNodes one_node store' (500 ∷ [])
add_e820ext-IsChain_example =
    add_e820ext-IsChain 2 900 3 500 one_node (500 ∷ []) (omega arith) one_node-IsChain
      (ground arith) (ground arith)

wboot_translate_memmap-Handed_example :
    (r : Translated) × (wboot_translate_memmap 123 2 900 400 descs 500 one_node ≡ some r)
    × (let ok = (translate 123 (given_size 900 400) descs empty_map).0 in
        ((ok ≡ false) × (r.status ≡ buffer_too_small))
        ⊎ ((ok ≡ true) × (r.status ≡ success) × Handed (500 ∷ []) 900 r))
wboot_translate_memmap-Handed_example =
    wboot_translate_memmap-Handed 123 2 900 400 descs 500 one_node (500 ∷ []) (omega arith)
      (omega arith) one_node-IsChain (ground arith)

translate-true_example : (translate 123 (some 400) descs empty_map).0 ≡ true
translate-true_example = translate-true 123 400 descs empty_map (omega arith)
