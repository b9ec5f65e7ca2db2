-- ===== src/Loader/AllocateE820/Room.antt =====
-- The extended table that `wboot_allocate_e820` of src/phase3/wboot.c allocates, and what
-- `wboot_translate_memmap` makes of it later.
use wboot.Prelude.{
  ℕ, suc, ◌+◌, ◌≤◌, ◌<◌, ◌≡◌, ◌≢◌, ◌⊎◌, refl, arith, true, false, not, Option, none, some, List,
  All, ◌==◌, length, Bool-cases, inl, inr,
}
use wboot.Efi.{Ptr, Firmware, EfiStatus, success, out_of_resources, MapAnswer}
use wboot.Efi.Maps.{get_memory_map}
use wboot.Efi.Uefi.{IsUefi, is_buffer_too_small}
use wboot.Stdlib.Alloc.{Machine, pure, ◌>>◌, print, get_errno, malloc, free}
use wboot.Stdlib.Alloc.Ends.{Ends, Ends_run, Ends-pure, Ends-bind, Ends-if, Ends-then}
use wboot.Linux.{setup_header_size}
use wboot.Memmap.{
  MemoryDescriptor, SetupStore, Translated, max_entries, has_room, translate,
  wboot_translate_memmap,
}
use wboot.Memmap.Enough.{translate_room}
use wboot.Memmap.Handover.{given_size, empty_map, Handed, wboot_translate_memmap-Handed}
use wboot.Memmap.Chain.{IsChain}
use wboot.Loader.AllocateE820.{
  E820Result, ExtBuffer, slack_slots, map_buffer_size, nr_desc_of, needs_ext, ext_size_for, no_ext,
  ext_allocated, allocate_ext, map_filled, no_map, map_allocated, map_sized, wboot_allocate_e820,
}

-- `e820ext` and `e820ext_size`, which are NULL and 0 before the call.
abbrev pub ext_ptr : Option ExtBuffer → Ptr
ext_ptr none = 0
ext_ptr (some ext) = ext.ptr

abbrev pub ext_size : Option ExtBuffer → ℕ
ext_size none = 0
ext_size (some ext) = ext.size

module _ (fw : Firmware) (descs : List MemoryDescriptor) where
  -- An error and no table, or success and a table with which the translation of the descriptors
  -- does not refuse the buffer.
  abbrev pub IsRoom : E820Result → Type 0
  IsRoom (status, ext) =
      ((fw.efi_error status ≡ true) × (ext ≡ none))
      ⊎ ((status ≡ success)
          × ((translate setup_header_size (given_size (ext_ptr ext) (ext_size ext)) descs
                empty_map).0
              ≡ true))

  few_room :
      (nr_desc : ℕ)
      → needs_ext nr_desc ≡ false
      → length descs ≤ nr_desc + slack_slots
      → (translate setup_header_size (given_size 0 0) descs empty_map).0 ≡ true
  unfolding needs_ext
  few_room nr_desc few h =
      translate_room setup_header_size (given_size 0 0) (length descs)
        (λ k le. ground (arith, few, h, le)) descs empty_map (omega arith)

  ext_size_for-has_room :
      (nr_desc k : ℕ)
      → nr_desc < 134217728
      → max_entries + suc k ≤ length descs
      → length descs ≤ nr_desc + slack_slots
      → has_room setup_header_size (some (ext_size_for nr_desc)) (suc k) ≡ true
  unfolding ext_size_for has_room
  ext_size_for-has_room nr_desc k small le h = ground arith

  many_room :
      (nr_desc : ℕ) (p : Ptr)
      → p ≢ 0
      → nr_desc < 134217728
      → length descs ≤ nr_desc + slack_slots
      → (translate setup_header_size (given_size p (ext_size_for nr_desc)) descs empty_map).0 ≡ true
  many_room nr_desc p real small h =
      let given : given_size p (ext_size_for nr_desc) ≡ some (ext_size_for nr_desc) =
        ground (arith, real) in
      rw given (
        translate_room setup_header_size (some (ext_size_for nr_desc)) (length descs)
          (λ k le. ext_size_for-has_room nr_desc k small le h) descs empty_map (omega arith))

  module _ (uefi : IsUefi fw) where
    refused-Ends :
        (memmap : Ptr) (status : EfiStatus)
        → fw.efi_error status ≡ true
        → Ends IsRoom (free fw memmap >> pure (status, none))
    refused-Ends memmap status h =
        Ends-then IsRoom (free fw memmap) (pure (status, none))
          (Ends-pure IsRoom (status, none) (inl (h, refl)))

    ext_allocated-Ends :
        (memmap : Ptr) (nr_desc : ℕ) (p : Ptr)
        → nr_desc < 134217728
        → length descs ≤ nr_desc + slack_slots
        → Ends IsRoom (ext_allocated fw memmap (ext_size_for nr_desc) p)
    unfolding ext_allocated no_ext
    ext_allocated-Ends memmap nr_desc p small h =
        Ends-if IsRoom (p == 0) _ _
          (λ e. Ends-bind IsRoom get_errno (no_ext fw memmap) (λ errno.
            Ends-then IsRoom (print _ _) _
              (refused-Ends memmap out_of_resources uefi.out_of_resources_error)))
          (λ e. Ends-then IsRoom (free fw memmap) _ (
            Ends-pure IsRoom (success, some (record { ptr = p; size = ext_size_for nr_desc }))
              (inr (refl, many_room nr_desc p (ground (arith, e)) small h))))

    allocate_ext-Ends :
        (memmap : Ptr) (nr_desc : ℕ)
        → nr_desc < 134217728
        → length descs ≤ nr_desc + slack_slots
        → Ends IsRoom (allocate_ext fw memmap nr_desc)
    unfolding allocate_ext
    allocate_ext-Ends memmap nr_desc small h =
        Ends-if IsRoom (needs_ext nr_desc) _ _
          (λ e.
            Ends-bind IsRoom (malloc fw (ext_size_for nr_desc))
              (ext_allocated fw memmap (ext_size_for nr_desc))
              (λ p. ext_allocated-Ends memmap nr_desc p small h))
          (λ e.
            Ends-then IsRoom (free fw memmap) (pure (success, none))
              (Ends-pure IsRoom (success, none) (inr (refl, few_room nr_desc e h))))

    map_filled-Ends :
        (memmap : Ptr) (answer : MapAnswer)
        → nr_desc_of answer < 134217728
        → length descs ≤ nr_desc_of answer + slack_slots
        → Ends IsRoom (map_filled fw memmap answer)
    unfolding map_filled
    map_filled-Ends memmap answer small h =
        Ends-if IsRoom (fw.efi_error answer.status) _ _
          (λ e. Ends-then IsRoom (print _ _) _ (refused-Ends memmap answer.status e))
          (λ e. allocate_ext-Ends memmap (nr_desc_of answer) small h)

    map_allocated-Ends :
        (size : ℕ) (memmap : Ptr) (m : Machine)
        → let answer = (get_memory_map fw size m).0 in
          nr_desc_of answer < 134217728
          → length descs ≤ nr_desc_of answer + slack_slots
          → IsRoom (map_allocated fw size memmap m).0
    unfolding map_allocated no_map
    map_allocated-Ends size memmap m small h = elim (Bool-cases (memmap == 0)) [
      | inl e ↦ rw e (inl (uefi.out_of_resources_error, refl))
      | inr e ↦
          let got = get_memory_map fw size m in
          rw e (
            Ends_run IsRoom (map_filled fw memmap got.0) (map_filled-Ends memmap got.0 small h)
              got.1)
    ]

-- The memory map that `wboot_allocate_e820` counts, where it comes to that.
abbrev pub counted_map : Firmware → Machine → MapAnswer
counted_map fw m =
    let (sized, m1) = get_memory_map fw 0 m in
    let (memmap, m2) = malloc fw (map_buffer_size sized) m1 in
    (get_memory_map fw (map_buffer_size sized) m2).0

module _ (fw : Firmware) (uefi : IsUefi fw) (descs : List MemoryDescriptor) where
  map_sized-IsRoom :
      (sized : MapAnswer) (m : Machine)
      → fw.efi_error sized.status ≡ true
      → let (memmap, m2) = malloc fw (map_buffer_size sized) m in
        let answer = (get_memory_map fw (map_buffer_size sized) m2).0 in
        nr_desc_of answer < 134217728
        → length descs ≤ nr_desc_of answer + slack_slots
        → IsRoom fw descs (map_sized fw sized m).0
  unfolding map_sized
  map_sized-IsRoom sized m error small h =
      elim (Bool-cases (not (is_buffer_too_small sized.status))) [
        | inl e ↦ rw e (inl (error, refl))
        | inr e ↦
            let (memmap, m2) = malloc fw (map_buffer_size sized) m in
            rw e (map_allocated-Ends fw descs uefi (map_buffer_size sized) memmap m2 small h)
      ]

  map_size-error : (m : Machine) → fw.efi_error (get_memory_map fw 0 m).0.status ≡ true
  unfolding get_memory_map
  map_size-error m = uefi.map_size_error m.events

  -- `wboot_allocate_e820` returns an error and no table, or success and a table that is enough: the
  -- translation of any map that has at most 32 descriptors more than the one it counted does not
  -- refuse the buffer. It counted fewer than 2^27.
  pub wboot_allocate_e820-IsRoom :
      (m : Machine)
      → nr_desc_of (counted_map fw m) < 134217728
      → length descs ≤ nr_desc_of (counted_map fw m) + slack_slots
      → IsRoom fw descs (wboot_allocate_e820 fw m).0
  unfolding wboot_allocate_e820
  wboot_allocate_e820-IsRoom m small h =
      let (sized, m1) = get_memory_map fw 0 m in
      map_sized-IsRoom sized m1 (map_size-error m) small h

-- The table that `wboot_allocate_e820` gives is enough for `wboot_translate_memmap`: unless the first
-- returns an error, the second returns success for a map with at most 32 descriptors more than the
-- one counted, and hands all entries to the kernel. Fewer than 2^27 descriptors were counted, the
-- list of setup data has no node at the table, and the fuel is more than its length.
pub wboot_allocate_e820-Handed :
    (fw : Firmware) (m : Machine) (descs : List MemoryDescriptor) (fuel : ℕ) (head : Ptr)
    (store : SetupStore) (ps : List Ptr)
    → IsUefi fw
    → nr_desc_of (counted_map fw m) < 134217728
    → length descs ≤ nr_desc_of (counted_map fw m) + slack_slots
    → length ps < fuel
    → IsChain store head ps
    → let (status, ext) = (wboot_allocate_e820 fw m).0 in
      All (λ q. q ≢ ext_ptr ext) ps
      → (fw.efi_error status ≡ true)
        ⊎ ((r : Translated) × (wboot_translate_memmap setup_header_size fuel
                (ext_ptr ext)
                (ext_size ext)
                descs
                head
                store
              ≡ some r)
            × (r.status ≡ success)
            × Handed ps (ext_ptr ext) r)
wboot_allocate_e820-Handed fw m descs fuel head store ps uefi small h enough chain fresh =
    let (status, ext) = (wboot_allocate_e820 fw m).0 in
    let (r, eq, ended) =
      wboot_translate_memmap-Handed setup_header_size fuel (ext_ptr ext) (ext_size ext) descs head
        store ps (omega arith) enough chain fresh in
    elim (wboot_allocate_e820-IsRoom fw uefi descs m small h) [
      | inl (error, _) ↦ inl error
      | inr (ok, room) ↦ elim ended [
        | inl (refused, _) ↦ ground (arith, refused, room)
        | inr (_, good, handed) ↦ inr (r, eq, good, handed)
      ]
    ]
