-- ===== src/Phase2/Initramfs/Account.antt =====
-- The account of `wboot_load_initramfs` of src/phase2/wboot.c with the firmware.
use wboot.Prelude.{ℕ, ◌+◌, ◌≡◌, refl, arith, not, false, none, some, List}
use wboot.Efi.{Ptr, Firmware, EfiStatus, success}
use wboot.Efi.Files.{get_info, read_file, get_info-Balanced, read_file-Balanced}
use wboot.Efi.Pages.{get_info_size, get_info_size-Balanced}
use wboot.Efi.Uefi.{is_buffer_too_small}
use wboot.Stdlib.Alloc.{Machine, Io, pure, ◌>>◌, ◌>>=◌, free, malloc}
use wboot.Stdlib.Alloc.Balance.{Resource, refers, IsReal, Balanced}
use wboot.Stdlib.Alloc.Owes.{
  Owes, Owes-run, Owes-pure, Owes-eq, Owes-if, Owes-bind, Owes-print, Owes-free, Owes-malloc,
  Owes-null, Owes-get_errno,
}
use wboot.Phase2.Initramfs.{
  ImageResult, image_read, no_buffer, buffer_allocated, allocate_buffer, file_info_read,
  no_file_info, file_info_allocated, file_info_sized, wboot_load_initramfs,
}

module _ (fw : Firmware) (file : Ptr) (r : Resource) (real : IsReal r) where
  -- What a result refers to: the buffer of the initial file system.
  abbrev pub image_refs : ImageResult → ℕ
  image_refs (status, none) = 0
  image_refs (status, some d) = refers r d.ptr

  abbrev LoadsImage : ℕ → Io ImageResult → Type 0
  LoadsImage = Owes fw r real image_refs

  refuse-Owes : (status : EfiStatus) → LoadsImage 0 (pure (status, none))
  refuse-Owes status = Owes-pure fw r real image_refs (status, none) 0 refl

  freed-Owes :
      (p : Ptr) (status : EfiStatus) → LoadsImage (refers r p) (free fw p >> pure (status, none))
  freed-Owes p status =
      Owes-free fw r real image_refs p (pure (status, none)) 0 _ (omega arith) (refuse-Owes status)

  image_read-Owes :
      (size : ℕ) (buffer : Ptr) (x : EfiStatus × List ℕ)
      → LoadsImage (refers r buffer) (image_read fw file size buffer x)
  unfolding image_read
  image_read-Owes size buffer x =
      Owes-if fw r real image_refs (fw.efi_error x.0) _ _ _
        (λ e. Owes-print fw r real image_refs _ _ _ _ (freed-Owes buffer x.0))
        (λ e.
          Owes-pure fw r real image_refs
            (success, some (record { ptr = buffer; size = size; bytes = x.1 })) _ refl)

  buffer_allocated-Owes :
      (size : ℕ) (buffer : Ptr)
      → LoadsImage (0 + refers r buffer) (buffer_allocated fw file size buffer)
  unfolding buffer_allocated no_buffer
  buffer_allocated-Owes size buffer =
      Owes-null fw r real image_refs buffer _ _ 0
        (Owes-get_errno fw r real image_refs 0 (no_buffer fw file)
          (λ errno. Owes-print fw r real image_refs _ _ (pure (errno, none)) 0 (refuse-Owes errno)))
        (Owes-bind fw r real image_refs (read_file fw file size) (image_read fw file size buffer)
          (0 + refers r buffer) (λ x. 0 + refers r buffer)
          (λ m h. read_file-Balanced fw r (0 + refers r buffer) m h file size)
          (λ x.
            Owes-eq fw r real image_refs (refers r buffer) _ _ (omega arith)
              (image_read-Owes size buffer x)))

  file_info_read-Owes :
      (p : Ptr) (x : EfiStatus × ℕ) → LoadsImage (refers r p) (file_info_read fw file p x)
  unfolding file_info_read allocate_buffer
  file_info_read-Owes p x =
      Owes-if fw r real image_refs (fw.efi_error x.0) _ _ _
        (λ e. Owes-print fw r real image_refs _ _ _ _ (freed-Owes p x.0))
        (λ e. Owes-free fw r real image_refs p _ 0 _ (omega arith) (
          Owes-malloc fw r real image_refs x.1 0 (buffer_allocated fw file x.1)
            (buffer_allocated-Owes x.1)))

  file_info_allocated-Owes : (p : Ptr) → LoadsImage (0 + refers r p) (file_info_allocated fw file p)
  unfolding file_info_allocated no_file_info
  file_info_allocated-Owes p =
      Owes-null fw r real image_refs p _ _ 0
        (Owes-get_errno fw r real image_refs 0 (no_file_info fw file)
          (λ errno. Owes-print fw r real image_refs _ _ (pure (errno, none)) 0 (refuse-Owes errno)))
        (Owes-bind fw r real image_refs (get_info fw file) (file_info_read fw file p)
          (0 + refers r p) (λ x. 0 + refers r p)
          (λ m h. get_info-Balanced fw r (0 + refers r p) m h file)
          (λ x.
            Owes-eq fw r real image_refs (refers r p) _ _ (omega arith) (file_info_read-Owes p x)))

  file_info_sized-Owes : (x : EfiStatus × ℕ) → LoadsImage 0 (file_info_sized fw file x)
  unfolding file_info_sized
  file_info_sized-Owes x =
      Owes-if fw r real image_refs (not (is_buffer_too_small x.0)) _ _ 0
        (λ e. Owes-print fw r real image_refs _ _ (pure (x.0, none)) 0 (refuse-Owes x.0))
        (λ e.
          Owes-print fw r real image_refs _ _ (malloc fw x.1 >>= file_info_allocated fw file) 0 (
            Owes-malloc fw r real image_refs x.1 0 (file_info_allocated fw file)
              file_info_allocated-Owes))

  -- With boot services up, `wboot_load_initramfs` of phase 2 gives back every buffer that it got,
  -- exactly once, but for that of an initial file system that it returns.
  pub wboot_load_initramfs-image_refs :
      (m : Machine)
      → m.bs_exited ≡ false
      → let (result, m') = wboot_load_initramfs fw file m in Balanced r 0 m (image_refs result) m'
  unfolding wboot_load_initramfs
  wboot_load_initramfs-image_refs m h =
      Owes-run fw r real image_refs 0 _
        (Owes-bind fw r real image_refs (get_info_size fw file) (file_info_sized fw file) 0 (λ x. 0)
          (λ m h. get_info_size-Balanced fw r 0 m h file) file_info_sized-Owes)
        m h
