-- ===== src/Main/Bootable.antt =====
-- What holds where `efi_main` of src/phase3/main.c hands off to the kernel.
use wboot.Prelude.{
  ◌+◌, ◌*◌, ◌/◌, ◌%◌, ◌^◌, ◌==◌, ◌≡◌, ◌≤◌, take, List, [], true, false, Option, some, codes,
  text_eq, if◌then◌else◌, length,
}
use wboot.Stdlib.Text.{strlen8}
use wboot.Stdlib.Alloc.{Machine}
use wboot.Efi.{Ptr, EfiStatus, MemoryDescriptor}
use wboot.Config.{WbootConfig}
use wboot.Linux.{SetupHeader, number_at}
use wboot.Linux.BootParams.{BootParams, EfiInfo}
use wboot.Efi.Uefi.{Gave}
use wboot.Loader.Header.Checked.{IsHeaderOf}
use wboot.Loader.Initramfs.Whole.{IsWholeFile}
use wboot.Loader.AllocateE820.{ExtBuffer, wboot_allocate_e820}
use wboot.Loader.AllocateE820.Room.{ext_ptr, ext_size}
use wboot.Loader.ExitBs.{Handover, wboot_exit_bs}
use wboot.Memmap.{wboot_translate_memmap}
use wboot.Kernel.{read_word, get_kernel_entry}
use wboot.Main.{Platform, Loaded, Handoff, Outcome, handed_off, unset_pointer, with_bytes}

module _ (p : Platform) where
  -- What Open gave for the kernel's configured path.
  abbrev pub IsKernelFile : WbootConfig → Ptr → Type 0
  IsKernelFile config =
      Gave p.fw (λ events. p.fw.open_file events config.root config.kernel_path.text)

  -- The header has the two magic numbers, and is that of a whole read of the kernel's file.
  abbrev pub IsHeader : WbootConfig → SetupHeader → Type 0
  IsHeader config header =
      (header.boot_flag ≡ 0xAA55)
      × (text_eq header.header (codes "HdrS") ≡ true)
      × ((file : Ptr) × IsKernelFile config file × IsHeaderOf p.fw file header)

  -- The kernel's header is read, the kernel is an ELF file and fits `init_size`, and the
  -- initial file system is the whole of its file.
  pub record IsLoaded (l : Loaded) : Type 0 where
    pub header_read : IsHeader l.config l.header
    pub kernel_elf : number_at 0 4 l.kernel.bytes ≡ 0x464C457F
    pub kernel_fits : length l.kernel.bytes ≤ l.header.init_size
    pub image_whole : IsWholeFile p.fw l.config l.initramfs.bytes

  -- The kernel's header with the low halves of what the loader tells in it.
  abbrev pub header_for : Loaded → SetupHeader
  header_for l = record (l.header) {
    type_of_loader = 0xFF;
    ramdisk_image = l.initramfs.ptr % 2 ^ 32;
    ramdisk_size = length l.initramfs.bytes % 2 ^ 32;
    initrd_addr_max = 0xFFFFFFFF;
    cmd_line_ptr = l.config.cmdline.ptr % 2 ^ 32;
    cmdline_size = strlen8 l.config.cmdline.text % 2 ^ 32;
  }

  -- A successful result of `wboot_allocate_e820`, and a result of `wboot_exit_bs` for boot parameters
  -- with this header.
  abbrev pub IsAllocated : Option ExtBuffer → Type 0
  IsAllocated ext =
      (m : Machine) × (status : EfiStatus) × ((wboot_allocate_e820 p.fw m).0 ≡ (status, ext))
      × (p.fw.efi_error status ≡ false)

  abbrev pub HasLeft : SetupHeader → Handover → Type 0
  HasLeft header h =
      (m : Machine) × (params : BootParams) × (params.hdr ≡ header)
      × ((wboot_exit_bs p.fw p.system_table params m).0 ≡ some h)

  -- The descriptors that stand where `efi_info` says, as many as it says.
  abbrev pub points_at : EfiInfo → Handover → List MemoryDescriptor
  points_at efi h =
      if efi.efi_memmap + efi.efi_memmap_hi * 2 ^ 32 == h.memmap
      then take (efi.efi_memmap_size / efi.efi_memdesc_size) h.descs
      else []

  -- The call of `wboot_handoff`: the map of the call that left boot services is translated with the
  -- extended table that was allocated, the boot parameters hold the kernel's own header with what the
  -- loader sets and the setup data and the count of entries that the translation leaves, and the
  -- entry is read from the kernel's header behind the copy of its segments.
  pub record IsBootable (h : Handoff) : Type 0 where
    pub all_loaded : IsLoaded h.loaded
    pub ext_allocated : IsAllocated h.ext
    pub left : HasLeft (header_for h.loaded) h.handover
    pub map_translated :
        wboot_translate_memmap 123 p.fuel
          (ext_ptr h.ext)
          (ext_size h.ext)
          (points_at h.params.efi_info h.handover)
          (header_for h.loaded).setup_data
          p.setup_store
        ≡ some h.translated
    pub no_error : p.fw.efi_error h.translated.status ≡ false
    pub told : h.params.hdr ≡ record (header_for h.loaded) { setup_data = h.translated.setup_data }
    pub counted : some h.params.e820_entries ≡ h.translated.e820_entries
    pub placed :
        get_kernel_entry h.loaded.kernel.ptr
          (with_bytes h.loaded.kernel.ptr h.loaded.kernel.bytes p.memory)
        ≡ some (h.entry, h.memory)
    pub entry_read : h.entry ≡ read_word 8 (h.loaded.kernel.ptr + 24) h.memory

  abbrev pub IsEnd : Outcome → Type 0
  IsEnd (handed_off h) = IsBootable h
  IsEnd unset_pointer = ⊥
  IsEnd _ = Unit
