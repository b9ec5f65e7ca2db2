-- ===== src/Loader/Initramfs/Account.antt =====
-- The account of `wboot_load_initramfs` of src/phase3/wboot.c with the firmware.
use wboot.Prelude.{
  ℕ, ◌+◌, ◌≡◌, refl, ap, arith, false, not, none, some, List, ◌==◌, length, if◌then◌else◌,
}
use wboot.Efi.{Ptr, Firmware, EfiStatus, success, bad_buffer_size, any_pages, max_address}
use wboot.Efi.Files.{
  open_file, get_info, read_file, open_file-Balanced, get_info-Balanced, read_file-Balanced,
}
use wboot.Efi.Pages.{get_info_size, get_info_size-Balanced}
use wboot.Efi.Uefi.{is_buffer_too_small}
use wboot.Stdlib.Alloc.{Machine, Io, pure}
use wboot.Stdlib.Alloc.Balance.{Resource, refers, refers_file, refers_pages, IsReal, Balanced}
use wboot.Stdlib.Alloc.Owes.{
  Owes, Owes-run, Owes-pure, Owes-eq, Owes-if, Owes-bind, Owes-print, Owes-free, Owes-free_pages,
  Owes-malloc, Owes-allocate_pages, Owes-null, Owes-refused, Owes-get_errno,
}
use wboot.Config.{WbootConfig}
use wboot.Loader.Initramfs.{
  InitramfsResult, pages_for, drop_pages, initramfs_read, read_initramfs, any_allocated,
  below_allocated, allocate_below, info_filled, no_info, info_allocated, info_sized, file_opened,
  wboot_load_initramfs,
}

module _ (fw : Firmware) (config : WbootConfig) (r : Resource) (real : IsReal r) where
  -- What a result refers to: the pages of the initial file system.
  abbrev pub initramfs_refs : InitramfsResult → ℕ
  initramfs_refs (status, none) = 0
  initramfs_refs (status, some d) = refers_pages r d.ptr (pages_for (length d.bytes))

  abbrev pub LoadsInitramfs : ℕ → Io InitramfsResult → Type 0
  LoadsInitramfs = Owes fw r real initramfs_refs

  refuse-Owes : (status : EfiStatus) → LoadsInitramfs 0 (pure (status, none))
  refuse-Owes status = Owes-pure fw r real initramfs_refs (status, none) 0 refl

  drop_pages-Owes :
      (size : ℕ) (addr : Ptr) (status : EfiStatus)
      → LoadsInitramfs
          (refers_pages r addr (pages_for size))
          (drop_pages fw config size addr status)
  unfolding drop_pages
  drop_pages-Owes size addr status =
      Owes-free_pages fw r real initramfs_refs addr (pages_for size) 0 _ (pure (status, none))
        (omega arith) (refuse-Owes status)

  initramfs_read-Owes :
      (size : ℕ) (addr : Ptr) (x : EfiStatus × List ℕ)
      → LoadsInitramfs (refers_pages r addr (pages_for size)) (initramfs_read fw config size addr x)
  unfolding initramfs_read
  initramfs_read-Owes size addr x =
      Owes-if fw r real initramfs_refs (fw.efi_error x.0) _ _ _
        (λ e.
          Owes-print fw r real initramfs_refs _ _ (drop_pages fw config size addr x.0) _
            (drop_pages-Owes size addr x.0))
        (λ e.
          Owes-if fw r real initramfs_refs (not (length x.1 == size)) _ _ _
            (λ e.
              Owes-print fw r real initramfs_refs _ _
                (drop_pages fw config size addr bad_buffer_size) _
                (drop_pages-Owes size addr bad_buffer_size))
            (λ e.
              let result : InitramfsResult = (success, some (record { ptr = addr; bytes = x.1 })) in
              let whole : length x.1 ≡ size = ground (arith, e) in
              Owes-eq fw r real initramfs_refs (initramfs_refs result) _ (pure result)
                (ap (λ (n : ℕ). refers_pages r addr (pages_for n)) whole)
                (Owes-pure fw r real initramfs_refs result _ refl)))

  read_initramfs-Owes :
      (file : Ptr) (size : ℕ) (addr : Ptr)
      → LoadsInitramfs
          (refers_pages r addr (pages_for size))
          (read_initramfs fw config file size addr)
  unfolding read_initramfs
  read_initramfs-Owes file size addr =
      Owes-bind fw r real initramfs_refs (read_file fw file size)
        (initramfs_read fw config size addr) (refers_pages r addr (pages_for size))
        (λ x. refers_pages r addr (pages_for size))
        (λ m h. read_file-Balanced fw r (refers_pages r addr (pages_for size)) m h file size)
        (initramfs_read-Owes size addr)

  -- The call behind an allocation that succeeded.
  with_pages-Owes :
      (file : Ptr) (size : ℕ) (addr : Ptr)
      → LoadsInitramfs
          (0 + refers_pages r addr (pages_for size))
          (read_initramfs fw config file size addr)
  with_pages-Owes file size addr =
      Owes-eq fw r real initramfs_refs (refers_pages r addr (pages_for size)) _ _ (omega arith)
        (read_initramfs-Owes file size addr)

  any_allocated-Owes :
      (file : Ptr) (size : ℕ) (x : EfiStatus × Ptr)
      → LoadsInitramfs
          (0 + (if fw.efi_error x.0 then 0 else refers_pages r x.1 (pages_for size)))
          (any_allocated fw config file size x)
  unfolding any_allocated
  any_allocated-Owes file size x =
      Owes-refused fw r real initramfs_refs (fw.efi_error x.0) (refers_pages r x.1 (pages_for size))
        _ _ 0 (Owes-print fw r real initramfs_refs _ _ (pure (x.0, none)) 0 (refuse-Owes x.0))
        (with_pages-Owes file size x.1)

  below_allocated-Owes :
      (file : Ptr) (size : ℕ) (x : EfiStatus × Ptr)
      → LoadsInitramfs
          (0 + (if fw.efi_error x.0 then 0 else refers_pages r x.1 (pages_for size)))
          (below_allocated fw config file size x)
  unfolding below_allocated
  below_allocated-Owes file size x =
      Owes-refused fw r real initramfs_refs (fw.efi_error x.0) (refers_pages r x.1 (pages_for size))
        _ _ 0
        (Owes-allocate_pages fw r real initramfs_refs any_pages (pages_for size) 0
          (any_allocated fw config file size) (any_allocated-Owes file size))
        (with_pages-Owes file size x.1)

  allocate_below-Owes :
      (file : Ptr) (size : ℕ) → LoadsInitramfs 0 (allocate_below fw config file size)
  unfolding allocate_below
  allocate_below-Owes file size =
      Owes-allocate_pages fw r real initramfs_refs (max_address 0xFFFFFFFF) (pages_for size) 0
        (below_allocated fw config file size) (below_allocated-Owes file size)

  info_filled-Owes :
      (file file_info : Ptr) (x : EfiStatus × ℕ)
      → LoadsInitramfs (refers r file_info) (info_filled fw config file file_info x)
  unfolding info_filled
  info_filled-Owes file file_info x =
      Owes-if fw r real initramfs_refs (fw.efi_error x.0) _ _ _
        (λ e. Owes-print fw r real initramfs_refs _ _ _ _ (
          Owes-free fw r real initramfs_refs file_info (pure (x.0, none)) 0 _ (omega arith)
            (refuse-Owes x.0)))
        (λ e.
          Owes-free fw r real initramfs_refs file_info (allocate_below fw config file x.1) 0 _
            (omega arith) (allocate_below-Owes file x.1))

  info_allocated-Owes :
      (file file_info : Ptr)
      → LoadsInitramfs (0 + refers r file_info) (info_allocated fw config file file_info)
  unfolding info_allocated no_info
  info_allocated-Owes file file_info =
      Owes-null fw r real initramfs_refs file_info _ _ 0
        (Owes-get_errno fw r real initramfs_refs 0 (no_info fw config) (λ errno.
          Owes-print fw r real initramfs_refs _ _ (pure (errno, none)) 0 (refuse-Owes errno)))
        (Owes-bind fw r real initramfs_refs (get_info fw file)
          (info_filled fw config file file_info) (0 + refers r file_info)
          (λ x. 0 + refers r file_info)
          (λ m h. get_info-Balanced fw r (0 + refers r file_info) m h file)
          (λ x.
            Owes-eq fw r real initramfs_refs (refers r file_info) _ _ (omega arith)
              (info_filled-Owes file file_info x)))

  info_sized-Owes :
      (file : Ptr) (x : EfiStatus × ℕ) → LoadsInitramfs 0 (info_sized fw config file x)
  unfolding info_sized
  info_sized-Owes file x =
      Owes-if fw r real initramfs_refs (not (is_buffer_too_small x.0)) _ _ 0
        (λ e. Owes-print fw r real initramfs_refs _ _ (pure (x.0, none)) 0 (refuse-Owes x.0))
        (λ e.
          Owes-malloc fw r real initramfs_refs x.1 0 (info_allocated fw config file)
            (info_allocated-Owes file))

  file_opened-Owes : (x : EfiStatus × Ptr) → LoadsInitramfs 0 (file_opened fw config x)
  unfolding file_opened
  file_opened-Owes x =
      Owes-if fw r real initramfs_refs (fw.efi_error x.0) _ _ 0
        (λ e. Owes-print fw r real initramfs_refs _ _ (pure (x.0, none)) 0 (refuse-Owes x.0))
        (λ e.
          Owes-bind fw r real initramfs_refs (get_info_size fw x.1) (info_sized fw config x.1) 0
            (λ y. 0) (λ m h. get_info_size-Balanced fw r 0 m h x.1) (info_sized-Owes x.1))

  -- With boot services up, `wboot_load_initramfs` gives back every buffer and all pages that it got,
  -- exactly once, but for the pages of an initial file system that it returns. The resource is not
  -- a file: the file stays open.
  pub wboot_load_initramfs-Balanced :
      (m : Machine)
      → m.bs_exited ≡ false
      → ((f : Ptr) → refers_file r f ≡ 0)
      → let (result, m') = wboot_load_initramfs fw config m in
        Balanced r 0 m (initramfs_refs result) m'
  unfolding wboot_load_initramfs
  wboot_load_initramfs-Balanced m h no_file =
      Owes-run fw r real initramfs_refs 0 _
        (Owes-bind fw r real initramfs_refs (open_file fw config.root config.initrd_path.text)
          (file_opened fw config) 0 (λ x. 0)
          (λ m h.
            let opened = open_file-Balanced fw r 0 m h config.root config.initrd_path.text in
            let x = (open_file fw config.root config.initrd_path.text m).0 in
            record {
              accounts = ground (arith, opened.accounts, no_file x.1);
              still_running = opened.still_running;
            })
          file_opened-Owes)
        m h
