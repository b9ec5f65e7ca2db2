-- ===== src/Loader/AllocateE820/Account.antt =====
-- The account of `wboot_allocate_e820` of src/phase3/wboot.c with the firmware.
use wboot.Prelude.{ℕ, ◌+◌, ◌≡◌, refl, arith, not, false, none, some}
use wboot.Efi.{Ptr, Firmware, success, out_of_resources, MapAnswer}
use wboot.Efi.Maps.{get_memory_map, get_memory_map-Balanced}
use wboot.Efi.Uefi.{is_buffer_too_small}
use wboot.Stdlib.Alloc.{Machine, Io, pure, ◌>>◌, free}
use wboot.Stdlib.Alloc.Balance.{Resource, refers, IsReal, Balanced}
use wboot.Stdlib.Alloc.Owes.{
  Owes, Owes-run, Owes-pure, Owes-eq, Owes-if, Owes-bind, Owes-print, Owes-free, Owes-malloc,
  Owes-null, Owes-get_errno,
}
use wboot.Loader.AllocateE820.{
  E820Result, map_buffer_size, nr_desc_of, needs_ext, ext_size_for, no_ext, ext_allocated,
  allocate_ext, map_filled, no_map, map_allocated, map_sized, wboot_allocate_e820,
}

module _ (fw : Firmware) (r : Resource) (real : IsReal r) where
  -- What a result refers to: the extended table.
  abbrev pub ext_refs : E820Result → ℕ
  ext_refs (status, none) = 0
  ext_refs (status, some ext) = refers r ext.ptr

  abbrev pub Allocates : ℕ → Io E820Result → Type 0
  Allocates = Owes fw r real ext_refs

  free_map-Owes :
      (memmap : Ptr) (result : E820Result) (k : ℕ)
      → k ≡ ext_refs result + refers r memmap
      → Allocates k (free fw memmap >> pure result)
  free_map-Owes memmap result k h =
      Owes-free fw r real ext_refs memmap (pure result) (ext_refs result) k h
        (Owes-pure fw r real ext_refs result _ refl)

  ext_allocated-Owes :
      (memmap : Ptr) (size : ℕ) (e820ext : Ptr)
      → Allocates (refers r memmap + refers r e820ext) (ext_allocated fw memmap size e820ext)
  unfolding ext_allocated no_ext
  ext_allocated-Owes memmap size e820ext =
      Owes-null fw r real ext_refs e820ext _ _ (refers r memmap)
        (Owes-get_errno fw r real ext_refs (refers r memmap) (no_ext fw memmap) (λ errno.
          Owes-print fw r real ext_refs _ _ _ _
            (free_map-Owes memmap (out_of_resources, none) _ (omega arith))))
        (free_map-Owes memmap (success, some (record { ptr = e820ext; size = size })) _
          (omega arith))

  allocate_ext-Owes :
      (memmap : Ptr) (nr_desc : ℕ) → Allocates (refers r memmap) (allocate_ext fw memmap nr_desc)
  unfolding allocate_ext
  allocate_ext-Owes memmap nr_desc =
      Owes-if fw r real ext_refs (needs_ext nr_desc) _ _ _
        (λ e.
          Owes-malloc fw r real ext_refs (ext_size_for nr_desc) (refers r memmap)
            (ext_allocated fw memmap (ext_size_for nr_desc))
            (ext_allocated-Owes memmap (ext_size_for nr_desc)))
        (λ e. free_map-Owes memmap (success, none) _ (omega arith))

  map_filled-Owes :
      (memmap : Ptr) (answer : MapAnswer)
      → Allocates (refers r memmap) (map_filled fw memmap answer)
  unfolding map_filled
  map_filled-Owes memmap answer =
      Owes-if fw r real ext_refs (fw.efi_error answer.status) _ _ _
        (λ e.
          Owes-print fw r real ext_refs _ _ _ _
            (free_map-Owes memmap (answer.status, none) _ (omega arith)))
        (λ e. allocate_ext-Owes memmap (nr_desc_of answer))

  map_allocated-Owes :
      (size : ℕ) (memmap : Ptr) → Allocates (0 + refers r memmap) (map_allocated fw size memmap)
  unfolding map_allocated no_map
  map_allocated-Owes size memmap =
      Owes-null fw r real ext_refs memmap _ _ 0
        (Owes-get_errno fw r real ext_refs 0 (no_map fw) (λ errno.
          Owes-print fw r real ext_refs _ _ (pure (out_of_resources, none)) 0
            (Owes-pure fw r real ext_refs (out_of_resources, none) 0 refl)))
        (Owes-bind fw r real ext_refs (get_memory_map fw size) (map_filled fw memmap)
          (0 + refers r memmap) (λ x. 0 + refers r memmap)
          (λ m h. get_memory_map-Balanced fw r (0 + refers r memmap) m h size)
          (λ x.
            Owes-eq fw r real ext_refs (refers r memmap) _ _ (omega arith)
              (map_filled-Owes memmap x)))

  map_sized-Owes : (sized : MapAnswer) → Allocates 0 (map_sized fw sized)
  unfolding map_sized
  map_sized-Owes sized =
      Owes-if fw r real ext_refs (not (is_buffer_too_small sized.status)) _ _ 0
        (λ e.
          Owes-print fw r real ext_refs _ _ (pure (sized.status, none)) 0
            (Owes-pure fw r real ext_refs (sized.status, none) 0 refl))
        (λ e.
          Owes-malloc fw r real ext_refs (map_buffer_size sized) 0
            (map_allocated fw (map_buffer_size sized)) (map_allocated-Owes (map_buffer_size sized)))

  -- With boot services up, `wboot_allocate_e820` keeps no buffer but the extended table that it
  -- returns.
  pub wboot_allocate_e820-Balanced :
      (m : Machine)
      → m.bs_exited ≡ false
      → let (result, m') = wboot_allocate_e820 fw m in Balanced r 0 m (ext_refs result) m'
  unfolding wboot_allocate_e820
  wboot_allocate_e820-Balanced m h =
      Owes-run fw r real ext_refs 0 _
        (Owes-bind fw r real ext_refs (get_memory_map fw 0) (map_sized fw) 0 (λ x. 0)
          (λ m h. get_memory_map-Balanced fw r 0 m h 0) map_sized-Owes)
        m h
