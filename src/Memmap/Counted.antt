-- ===== src/Memmap/Counted.antt =====
-- Where `wboot_translate_memmap` of src/phase3/wboot.c sets `e820_entries`.
use wboot.Prelude.{
  ℕ, ◌≡◌, ◌⊎◌, inl, inr, refl, Bool, true, false, Option, none, some, List, [], ◌==◌, if◌then◌else◌,
  ltb,
}
use wboot.Efi.{Ptr, MemoryDescriptor, buffer_too_small}
use wboot.Memmap.{
  E820Map, SetupStore, nr_entries, max_entries, with_chain, finish_map, translate, end_translation,
  Translated, wboot_translate_memmap,
}

-- The buffer is refused, or the entries are counted.
abbrev pub Counted : Option Translated → Type 0
Counted none = Unit
Counted (some r) = (r.status ≡ buffer_too_small) ⊎ ((n : ℕ) × (r.e820_entries ≡ some n))

with_chain-Counted :
    (t : E820Map) (n : ℕ) (o : Option (Ptr × SetupStore)) → Counted (with_chain t n o)
unfolding with_chain
with_chain-Counted t n none = tt
with_chain-Counted t n (some (head, store)) = inr (n, refl)

Counted-if :
    (b : Bool) (x y : Option Translated) → Counted x → Counted y → Counted (if b then x else y)
Counted-if true x y h k = h
Counted-if false x y h k = k

end_translation-Counted :
    (fuel : ℕ) (e820ext head : Ptr) (store : SetupStore) (x : Bool × E820Map)
    → Counted (end_translation fuel e820ext head store x)
unfolding end_translation finish_map
end_translation-Counted fuel e820ext head store (false, t) = inl refl
end_translation-Counted fuel e820ext head store (true, t) =
    Counted-if (ltb max_entries (nr_entries t)) _ _ (with_chain-Counted t _ _) (inr (_, refl))

pub translate-Counted :
    (setup_header_size fuel : ℕ) (e820ext : Ptr) (e820ext_size : ℕ) (descs : List MemoryDescriptor)
    (head : Ptr) (store : SetupStore)
    → Counted (wboot_translate_memmap setup_header_size fuel e820ext e820ext_size descs head store)
unfolding wboot_translate_memmap
translate-Counted setup_header_size fuel e820ext e820ext_size descs head store =
    end_translation-Counted fuel e820ext head store (
      translate setup_header_size (if e820ext == 0 then none else some e820ext_size) descs
        (record { table = []; ext = [] }))
