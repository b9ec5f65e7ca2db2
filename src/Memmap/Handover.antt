-- ===== src/Memmap/Handover.antt =====
-- What `wboot_translate_memmap` of src/phase3/wboot.c hands to the kernel.
use wboot.Prelude.{
  ℕ, zero, suc, ◌+◌, ◌-◌, ◌*◌, ◌%◌, ◌≡◌, ◌≢◌, ◌<◌, ◌⊎◌, inl, inr, refl, arith, Bool, true, false,
  Option, none, some, List, [], ◌∷◌, ◌++◌, ltb, ◌==◌, if◌then◌else◌, length, All, ap, ◌∙◌,
  Bool-cases,
}
use wboot.Prelude.Words.{u8_mod, u32_mod}
use wboot.Efi.{Ptr, success, buffer_too_small}
use wboot.Memmap.{
  MemoryDescriptor, E820Map, nr_entries, max_entries, entry_size, SetupStore, translate, finish_map,
  with_chain, end_translation, Translated, wboot_translate_memmap,
}
use wboot.Memmap.Bounds.{Within, capacity, translate-Within}
use wboot.Memmap.Chain.{IsChain, add_e820ext-IsChain}

-- `e820_entries` counts the table of the boot parameters, and the extended table, where there is
-- one, is behind the setup data that the kernel had, with the length of its entries.
pub record Handed (ps : List Ptr) (e820ext : Ptr) (r : Translated) : Type 0 where
  pub counted : r.e820_entries ≡ some (length r.map.table)
  pub listed :
      ((length r.map.ext ≡ 0) × IsChain r.store r.setup_data ps)
      ⊎ (IsChain r.store r.setup_data (ps ++ e820ext ∷ [])
          × ((r.store e820ext).len ≡ (length r.map.ext * entry_size) % u32_mod))

finish_more-Handed :
    (setup_header_size : ℕ) (given : Option ℕ) (fuel : ℕ) (e820ext : Ptr) (t : E820Map) (head : Ptr)
    (store : SetupStore) (ps : List Ptr)
    → Within setup_header_size given 0 t
    → length ps < fuel
    → IsChain store head ps
    → All (λ q. q ≢ e820ext) ps
    → (capacity setup_header_size given ≡ 0) ⊎ (e820ext ≢ 0)
    → ltb max_entries (nr_entries t) ≡ true
    → (r : Translated) × (finish_map fuel e820ext t head store ≡ some r)
      × (r.status ≡ success)
      × (r.map ≡ t)
      × Handed ps e820ext r
unfolding finish_map with_chain
finish_more-Handed setup_header_size given fuel e820ext t head store ps w lt c h real more =
    let nonnull : e820ext ≢ 0 = ground (arith, w.ext_fits, w.table_fits, real, more) in
    let (head', store', eq, chain, kind, len, kept) =
      add_e820ext-IsChain fuel e820ext (nr_entries t - max_entries) head store ps lt c h nonnull in
    let full : length t.table ≡ 128 = ground (arith, w.ext_fits, w.table_fits, more) in
    let ext_count : nr_entries t - max_entries ≡ length t.ext = omega (arith, full) in
    (
      record {
        status = success;
        map = t;
        e820_entries = some ((nr_entries t - (nr_entries t - max_entries)) % u8_mod);
        setup_data = head';
        store = store';
      },
      rw (more, eq) refl,
      refl,
      refl,
      record {
        counted = ap some (omega (arith, full));
        listed = inr (chain, len ∙ ap (λ k. (k * 20) % u32_mod) ext_count);
      },
    )

finish_few-Handed :
    (setup_header_size : ℕ) (given : Option ℕ) (fuel : ℕ) (e820ext : Ptr) (t : E820Map) (head : Ptr)
    (store : SetupStore) (ps : List Ptr)
    → Within setup_header_size given 0 t
    → IsChain store head ps
    → ltb max_entries (nr_entries t) ≡ false
    → (r : Translated) × (finish_map fuel e820ext t head store ≡ some r)
      × (r.status ≡ success)
      × (r.map ≡ t)
      × Handed ps e820ext r
unfolding finish_map
finish_few-Handed setup_header_size given fuel e820ext t head store ps w c few =
    let empty : length t.ext ≡ 0 = ground (arith, w.ext_fits, w.table_fits, few) in
    let fits = w.table_fits in
    (
      record {
        status = success;
        map = t;
        e820_entries = some (nr_entries t % u8_mod);
        setup_data = head;
        store = store;
      },
      rw few refl,
      refl,
      refl,
      record { counted = ap some (omega (arith, empty, fits)); listed = inl (empty, c) },
    )

abbrev pub empty_map : E820Map
empty_map = record { table = []; ext = [] }

-- `e820ext_size`, where there is an extended table.
abbrev pub given_size : Ptr → ℕ → Option ℕ
given_size e820ext e820ext_size = if e820ext == 0 then none else some e820ext_size

given_size-null :
    (setup_header_size : ℕ) (e820ext : Ptr) (e820ext_size : ℕ)
    → (capacity setup_header_size (given_size e820ext e820ext_size) ≡ 0) ⊎ (e820ext ≢ 0)
given_size-null setup_header_size zero size = inl refl
given_size-null setup_header_size (suc n) size = inr (ground arith)

end_translation-Handed :
    (setup_header_size : ℕ) (given : Option ℕ) (fuel : ℕ) (e820ext head : Ptr) (store : SetupStore)
    (ps : List Ptr) (x : Bool × E820Map)
    → Within setup_header_size given 0 x.1
    → length ps < fuel
    → IsChain store head ps
    → All (λ q. q ≢ e820ext) ps
    → (capacity setup_header_size given ≡ 0) ⊎ (e820ext ≢ 0)
    → (r : Translated) × (end_translation fuel e820ext head store x ≡ some r)
      × (((x.0 ≡ false) × (r.status ≡ buffer_too_small))
          ⊎ ((x.0 ≡ true) × (r.status ≡ success) × Handed ps e820ext r))
unfolding end_translation
end_translation-Handed setup_header_size given fuel e820ext head store ps (false, t) w lt c h real =
    (
      record {
        status = buffer_too_small;
        map = t;
        e820_entries = none;
        setup_data = head;
        store = store;
      },
      refl,
      inl (refl, refl),
    )
end_translation-Handed setup_header_size given fuel e820ext head store ps (true, t) w lt c h real =
    elim (Bool-cases (ltb max_entries (nr_entries t))) [
      | inl more ↦ ended (
          finish_more-Handed setup_header_size given fuel e820ext t head store ps w lt c h real
            more)
      | inr few ↦
          ended (finish_few-Handed setup_header_size given fuel e820ext t head store ps w c few)
    ]
  where
    ended :
        {t : E820Map} {o : Option Translated}
        → ((r : Translated) × (o ≡ some r)
            × (r.status ≡ success)
            × (r.map ≡ t)
            × Handed ps e820ext r)
        → (r : Translated) × (o ≡ some r)
          × (((true ≡ false) × (r.status ≡ buffer_too_small))
              ⊎ ((true ≡ true) × (r.status ≡ success) × Handed ps e820ext r))
    ended (r, eq, ok, same, handed) = (r, eq, inr (refl, ok, handed))

-- `wboot_translate_memmap` returns, and where it does not refuse the buffer, `e820_entries` is the
-- number of the entries in the table of the boot parameters, and all further entries are announced
-- behind the setup data that the kernel had. The list of setup data has no node at `e820ext`, the
-- fuel is more than its length, and the size that is needed does not wrap in 32 bits.
pub wboot_translate_memmap-Handed :
    (setup_header_size fuel : ℕ) (e820ext : Ptr) (e820ext_size : ℕ) (descs : List MemoryDescriptor)
    (head : Ptr) (store : SetupStore) (ps : List Ptr)
    → length descs * entry_size + setup_header_size < u32_mod
    → length ps < fuel
    → IsChain store head ps
    → All (λ q. q ≢ e820ext) ps
    → (r : Translated) × (wboot_translate_memmap setup_header_size fuel e820ext e820ext_size descs
          head store
        ≡ some r)
      × (let ok =
            (translate setup_header_size (given_size e820ext e820ext_size) descs empty_map).0 in
          ((ok ≡ false) × (r.status ≡ buffer_too_small))
          ⊎ ((ok ≡ true) × (r.status ≡ success) × Handed ps e820ext r))
unfolding wboot_translate_memmap
wboot_translate_memmap-Handed setup_header_size fuel e820ext e820ext_size descs head store ps small
      lt c h =
    let given = given_size e820ext e820ext_size in
    let within =
      translate-Within setup_header_size given descs empty_map small
        (record { table_fits = omega arith; ext_fits = inl refl }) in
    end_translation-Handed setup_header_size given fuel e820ext head store ps
      (translate setup_header_size given descs empty_map) within lt c h
      (given_size-null setup_header_size e820ext e820ext_size)
