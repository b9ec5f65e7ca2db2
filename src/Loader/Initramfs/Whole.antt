-- ===== src/Loader/Initramfs/Whole.antt =====
-- What `wboot_load_initramfs` of src/phase3/wboot.c says of the file system that it returns.
use wboot.Prelude.{
  ℕ, ◌≡◌, refl, sym, subst, arith, true, false, not, none, some, List, ◌==◌, ==_iff, length,
  Bool-cases, inl, inr,
}
use wboot.Efi.{Ptr, Events, Firmware, EfiStatus, success, bad_buffer_size, any_pages, max_address}
use wboot.Efi.Files.{open_file, get_info, read_file}
use wboot.Efi.Pages.{get_info_size, allocate_pages, free_pages}
use wboot.Efi.Uefi.{IsUefi, Gave, is_buffer_too_small}
use wboot.Stdlib.Alloc.{Machine, pure, ◌>>=◌, free, print}
use wboot.Stdlib.Alloc.Ends.{
  Ends, Ends_run, Ends-each, Ends-pure, Ends-bind, Ends-if, Ends-then, Ends-malloc,
}
use wboot.Config.{WbootConfig}
use wboot.Loader.Initramfs.{
  InitramfsResult, pages_for, drop_pages, initramfs_read, read_initramfs, any_allocated,
  below_allocated, allocate_below, info_filled, no_info, info_allocated, info_sized, file_opened,
  wboot_load_initramfs,
}

module _ (fw : Firmware) (config : WbootConfig) where
  -- What Open gave for the configured path.
  abbrev IsOpened : Ptr → Type 0
  IsOpened = Gave fw (λ events. fw.open_file events config.root config.initrd_path.text)

  -- The size that GetInfo gave for that file.
  abbrev HasSize : Ptr → ℕ → Type 0
  HasSize file size = IsOpened file × Gave fw (λ events. fw.get_info events file) size

  -- What Read gave for that file where it was asked for all of it.
  pub record IsWholeFile (bytes : List ℕ) : Type 0 where
    pub file : Ptr
    pub opened : Gave fw (λ events. fw.open_file events config.root config.initrd_path.text) file
    pub sized : Gave fw (λ events. fw.get_info events file) (length bytes)
    pub read : Gave fw (λ events. fw.read_file events file (length bytes)) bytes

  -- An error without a file system, or success and the whole configured file.
  abbrev pub IsInitramfs : InitramfsResult → Type 0
  IsInitramfs (status, none) = fw.efi_error status ≡ true
  IsInitramfs (status, some d) = (status ≡ success) × IsWholeFile d.bytes

  module _ (uefi : IsUefi fw) where
    drop_pages-Ends :
        (size : ℕ) (addr : Ptr) (status : EfiStatus)
        → fw.efi_error status ≡ true
        → Ends IsInitramfs (drop_pages fw config size addr status)
    unfolding drop_pages
    drop_pages-Ends size addr status h =
        Ends-then IsInitramfs (free_pages addr (pages_for size)) (pure (status, none))
          (Ends-pure IsInitramfs (status, none) h)

    whole_file :
        (file : Ptr) (size : ℕ) (x : EfiStatus × List ℕ) (events : Events)
        → IsOpened file
        → Gave fw (λ events. fw.get_info events file) size
        → fw.read_file events file size ≡ x
        → fw.efi_error x.0 ≡ false
        → length x.1 ≡ size
        → IsWholeFile x.1
    whole_file file size x events opened sized answer ok whole = record {
      file = file;
      opened = opened;
      sized = subst (λ (n : ℕ). Gave fw (λ events. fw.get_info events file) n) (sym whole) sized;
      read =
          subst (λ (n : ℕ). Gave fw (λ events. fw.read_file events file n) x.1) (sym whole)
            (record { events = events; status = x.0; answer = answer; succeeded = ok });
    }

    initramfs_read-Ends :
        (file : Ptr) (size : ℕ) (addr : Ptr) (x : EfiStatus × List ℕ) (events : Events)
        → HasSize file size
        → fw.read_file events file size ≡ x
        → Ends IsInitramfs (initramfs_read fw config size addr x)
    unfolding initramfs_read
    initramfs_read-Ends file size addr x events (opened, sized) answer =
        Ends-if IsInitramfs (fw.efi_error x.0) _ _
          (λ e.
            Ends-then IsInitramfs (print _ _) (drop_pages fw config size addr x.0)
              (drop_pages-Ends size addr x.0 e))
          (λ e.
            Ends-if IsInitramfs (not (length x.1 == size)) _ _
              (λ e.
                Ends-then IsInitramfs (print _ _) (drop_pages fw config size addr bad_buffer_size)
                  (drop_pages-Ends size addr bad_buffer_size uefi.bad_buffer_size_error))
              (λ k.
                Ends-pure IsInitramfs (success, some (record { ptr = addr; bytes = x.1 }))
                  (refl, whole_file file size x events opened sized answer e (ground (arith, k)))))

    read_initramfs-Ends :
        (file : Ptr) (size : ℕ) (addr : Ptr)
        → HasSize file size
        → Ends IsInitramfs (read_initramfs fw config file size addr)
    unfolding read_initramfs read_file
    read_initramfs-Ends file size addr h =
        Ends-each IsInitramfs (read_file fw file size >>= initramfs_read fw config size addr) (λ m.
          Ends_run IsInitramfs (initramfs_read fw config size addr (read_file fw file size m).0)
            (initramfs_read-Ends file size addr (read_file fw file size m).0 m.events h refl)
            (read_file fw file size m).1)

    any_allocated-Ends :
        (file : Ptr) (size : ℕ) (x : EfiStatus × Ptr)
        → HasSize file size
        → Ends IsInitramfs (any_allocated fw config file size x)
    unfolding any_allocated
    any_allocated-Ends file size x h =
        Ends-if IsInitramfs (fw.efi_error x.0) _ _
          (λ e.
            Ends-then IsInitramfs (print _ _) (pure (x.0, none))
              (Ends-pure IsInitramfs (x.0, none) e))
          (λ e. read_initramfs-Ends file size x.1 h)

    below_allocated-Ends :
        (file : Ptr) (size : ℕ) (x : EfiStatus × Ptr)
        → HasSize file size
        → Ends IsInitramfs (below_allocated fw config file size x)
    unfolding below_allocated
    below_allocated-Ends file size x h =
        Ends-if IsInitramfs (fw.efi_error x.0) _ _
          (λ e.
            Ends-bind IsInitramfs (allocate_pages fw any_pages (pages_for size))
              (any_allocated fw config file size) (λ y. any_allocated-Ends file size y h))
          (λ e. read_initramfs-Ends file size x.1 h)

    info_filled-Ends :
        (file file_info : Ptr) (x : EfiStatus × ℕ)
        → (fw.efi_error x.0 ≡ false → HasSize file x.1)
        → Ends IsInitramfs (info_filled fw config file file_info x)
    unfolding info_filled allocate_below
    info_filled-Ends file file_info x h =
        Ends-if IsInitramfs (fw.efi_error x.0) _ _
          (λ e. Ends-then IsInitramfs (print _ _) _ (
            Ends-then IsInitramfs (free fw file_info) (pure (x.0, none))
              (Ends-pure IsInitramfs (x.0, none) e)))
          (λ e. Ends-then IsInitramfs (free fw file_info) _ (
            Ends-bind IsInitramfs (allocate_pages fw (max_address 0xFFFFFFFF) (pages_for x.1))
              (below_allocated fw config file x.1) (λ y. below_allocated-Ends file x.1 y (h e))))

    info_got-Ends :
        (file file_info : Ptr) (m : Machine)
        → IsOpened file
        → IsInitramfs
            (info_filled fw config file file_info (get_info fw file m).0 (get_info fw file m).1).0
    unfolding get_info
    info_got-Ends file file_info m opened =
        Ends_run IsInitramfs (info_filled fw config file file_info (fw.get_info m.events file))
          (info_filled-Ends file file_info (fw.get_info m.events file) (λ e. (
            opened,
            record {
              events = m.events;
              status = (fw.get_info m.events file).0;
              answer = refl;
              succeeded = e;
            },
          )))
          (get_info fw file m).1

    info_allocated-Ends :
        (file file_info : Ptr) (m : Machine)
        → IsOpened file
        → (file_info ≡ 0 → fw.efi_error m.errno ≡ true)
        → IsInitramfs (info_allocated fw config file file_info m).0
    unfolding info_allocated no_info
    info_allocated-Ends file file_info m opened h = elim (Bool-cases (file_info == 0)) [
      | inl e ↦ rw e (h ((==_iff file_info 0).0 e))
      | inr e ↦ rw e (info_got-Ends file file_info m opened)
    ]

    info_sized-Ends :
        (file : Ptr) (x : EfiStatus × ℕ)
        → IsOpened file
        → fw.efi_error x.0 ≡ true
        → Ends IsInitramfs (info_sized fw config file x)
    unfolding info_sized
    info_sized-Ends file x opened h =
        Ends-if IsInitramfs (not (is_buffer_too_small x.0)) _ _
          (λ e.
            Ends-then IsInitramfs (print _ _) (pure (x.0, none))
              (Ends-pure IsInitramfs (x.0, none) h))
          (λ e.
            Ends-malloc fw uefi IsInitramfs x.1 (info_allocated fw config file)
              (λ file_info m. info_allocated-Ends file file_info m opened))

    sized-Ends :
        (file : Ptr) (m : Machine)
        → IsOpened file
        → IsInitramfs
            (info_sized fw config file (get_info_size fw file m).0 (get_info_size fw file m).1).0
    unfolding get_info_size
    sized-Ends file m opened =
        Ends_run IsInitramfs (info_sized fw config file (fw.get_info_size m.events file))
          (info_sized-Ends file (fw.get_info_size m.events file) opened
            (uefi.info_size_error m.events file))
          (get_info_size fw file m).1

    file_opened-Ends :
        (x : EfiStatus × Ptr) (events : Events) (m : Machine)
        → fw.open_file events config.root config.initrd_path.text ≡ x
        → IsInitramfs (file_opened fw config x m).0
    unfolding file_opened
    file_opened-Ends x events m answer = elim (Bool-cases (fw.efi_error x.0)) [
      | inl e ↦ rw e e
      | inr e ↦ rw e (
          sized-Ends x.1 m
            (record { events = events; status = x.0; answer = answer; succeeded = e }))
    ]

    -- `wboot_load_initramfs` returns an error and nothing else, or success and the bytes that Read
    -- gave for the file that Open gave for the configured path, asked for the size that GetInfo gave
    -- for that file; there are that many bytes. The firmware keeps what it promises.
    pub wboot_load_initramfs-IsInitramfs :
        (m : Machine) → IsInitramfs (wboot_load_initramfs fw config m).0
    unfolding wboot_load_initramfs open_file
    wboot_load_initramfs-IsInitramfs m =
        let opened = open_file fw config.root config.initrd_path.text m in
        file_opened-Ends opened.0 m.events opened.1 refl
