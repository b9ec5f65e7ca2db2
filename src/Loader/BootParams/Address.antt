-- ===== src/Loader/BootParams/Address.antt =====
-- The addresses and sizes that the boot parameters of src/phase3/wboot.c hold in two halves.
use wboot.Prelude.{
  ℕ, suc, ◌%◌, [], ◌∷◌, ap, Text, ◌+◌, ◌*◌, ◌<◌, ◌≡◌, ◌≢◌, refl, arith, Option, none, some, ◌==◌,
  Bool-cases, inl, inr, ==_iff, length,
}
use wboot.Prelude.Words.{u32_mod, u64_mod}
use wboot.Efi.{Ptr, Firmware}
use wboot.Stdlib.Text.{strlen8}
use wboot.Stdlib.Alloc.{Machine, malloc, HeapText}
use wboot.Linux.{SetupHeader}
use wboot.Linux.BootParams.{BootParams, boot_params_size}
use wboot.Loader.BootParams.{
  ParamsAt, low_half, high_half, params_for, no_params, params_allocated, wboot_prepare_bootparams,
}

-- The number that two halves make, as `efi_memmap | efi_memmap_hi << 32` has it.
abbrev pub joined : ℕ → ℕ → ℕ
joined low high = low + u32_mod * high

pub joined-halves : (x : ℕ) → x < u64_mod → joined (low_half x) (high_half x) ≡ x
joined-halves x h = omega arith

-- The header without what the loader sets.
abbrev pub same_rest : SetupHeader → SetupHeader → SetupHeader
same_rest header hdr = record hdr {
  ramdisk_image = header.ramdisk_image;
  ramdisk_size = header.ramdisk_size;
  type_of_loader = header.type_of_loader;
  initrd_addr_max = header.initrd_addr_max;
  cmd_line_ptr = header.cmd_line_ptr;
  cmdline_size = header.cmdline_size;
}

-- What the parameters say of the command line and of the initial file system, and that the header
-- is the kernel's in all other fields.
pub record IsFor (cmdline : HeapText) (header : SetupHeader) (initramfs : Ptr) (size : ℕ)
    (params : BootParams) : Type 0 where
  pub image_at : joined params.hdr.ramdisk_image params.ext_ramdisk_image ≡ initramfs
  pub image_size : joined params.hdr.ramdisk_size params.ext_ramdisk_size ≡ size
  pub cmdline_at : joined params.hdr.cmd_line_ptr params.ext_cmd_line_ptr ≡ cmdline.ptr
  pub cmdline_length : params.hdr.cmdline_size ≡ length cmdline.text
  pub loader_unknown : params.hdr.type_of_loader ≡ 0xFF
  pub rest : same_rest header params.hdr ≡ header

abbrev pub IsAnswer : HeapText → SetupHeader → Ptr → ℕ → Ptr → Option ParamsAt → Type 0
IsAnswer cmdline header initramfs size p none = p ≡ 0
IsAnswer cmdline header initramfs size p (some x) =
    (x.ptr ≡ p) × (p ≢ 0) × IsFor cmdline header initramfs size x.params

strlen8-length : (s : Text) → strlen8 s ≡ length s
unfolding strlen8
strlen8-length [] = refl
strlen8-length (c ∷ s) = ap suc (strlen8-length s)

strlen_mod : (s : Text) → length s < u32_mod → strlen8 s % u32_mod ≡ length s
strlen_mod s h = let e = strlen8-length s in omega arith

module _ (fw : Firmware) (cmdline : HeapText) (header : SetupHeader) (initramfs : Ptr)
    (size : ℕ) where
  params_for-IsFor :
      initramfs < u64_mod
      → size < u64_mod
      → cmdline.ptr < u64_mod
      → length cmdline.text < u32_mod
      → IsFor cmdline header initramfs size (params_for header cmdline initramfs size)
  unfolding params_for
  params_for-IsFor h k l n = record {
    image_at = joined-halves initramfs h;
    image_size = joined-halves size k;
    cmdline_at = joined-halves cmdline.ptr l;
    cmdline_length = strlen_mod cmdline.text n;
    loader_unknown = refl;
    rest = refl;
  }

  params_allocated-IsAnswer :
      (params : BootParams) (p : Ptr) (m : Machine)
      → IsFor cmdline header initramfs size params
      → IsAnswer cmdline header initramfs size p (params_allocated fw params p m).0
  unfolding params_allocated no_params
  params_allocated-IsAnswer params p m h = elim (Bool-cases (p == 0)) [
    | inl e ↦ rw e ((==_iff p 0).0 e)
    | inr e ↦ rw e (refl, ground (arith, e), h)
  ]

  -- `wboot_prepare_bootparams` returns NULL where `malloc` does. Else the two halves of the address
  -- and of the size of the initial file system, and those of the address of the command line, are
  -- what the caller gave, the length is the command line's, and the rest of the header is the
  -- kernel's. The addresses and the size are 64-bit, and the command line is shorter than 2^32.
  pub wboot_prepare_bootparams-IsAnswer :
      (m : Machine)
      → initramfs < u64_mod
      → size < u64_mod
      → cmdline.ptr < u64_mod
      → length cmdline.text < u32_mod
      → IsAnswer cmdline header initramfs size
          (malloc fw boot_params_size m).0
          (wboot_prepare_bootparams fw cmdline header initramfs size m).0
  unfolding wboot_prepare_bootparams
  wboot_prepare_bootparams-IsAnswer m h k l n =
      let got = malloc fw boot_params_size m in
      params_allocated-IsAnswer (params_for header cmdline initramfs size) got.0 got.1
        (params_for-IsFor h k l n)
