-- ===== src/Examples/Loader.antt =====
-- Runs of the loader of src/phase3/wboot.c and of src/phase3/main.c over a firmware that has a kernel.
use wboot.Prelude.{
  ℕ, zero, suc, ◌==◌, ◌≡◌, ◌≤◌, ◌⊎◌, refl, ap, subst, arith, Bool, true, false, if◌then◌else◌, some,
  List, [], ◌∷◌, ◌++◌, codes, length, take,
}
use wboot.Stdlib.Alloc.{HeapText}
use wboot.Stdlib.Alloc.Balance.{refers_file, Balanced}
use wboot.Efi.{Firmware, success}
use wboot.Efi.Uefi.{IsUefi}
use wboot.Linux.{SetupHeader, header_of, setup_header_size}
use wboot.Linux.BootParams.{BootParams, zeros, boot_params_size}
use wboot.Stdlib.Alloc.{malloc}
use wboot.Loader.Header.{wboot_read_setup_header}
use wboot.Loader.Header.Checked.{IsKernelHeader, wboot_read_setup_header-IsKernelHeader}
use wboot.Loader.Decompress.{Zstd, ZstdResult, done, failed, wboot_decompress_kernel}
use wboot.Loader.Decompress.Account.{kernel_refs, wboot_decompress_kernel-Balanced}
use wboot.Loader.Decompress.Elf.{IsZstd, IsKernel, wboot_decompress_kernel-IsKernel}
use wboot.Loader.Initramfs.{wboot_load_initramfs}
use wboot.Loader.Initramfs.Account.{initramfs_refs, wboot_load_initramfs-Balanced}
use wboot.Loader.Initramfs.Whole.{IsInitramfs, wboot_load_initramfs-IsInitramfs}
use wboot.Loader.BootParams.{params_for, wboot_prepare_bootparams}
use wboot.Loader.BootParams.Address.{IsAnswer, wboot_prepare_bootparams-IsAnswer}
use wboot.Loader.AllocateE820.{nr_desc_of, wboot_allocate_e820}
use wboot.Loader.AllocateE820.Room.{ext_ptr, ext_size, counted_map, wboot_allocate_e820-Handed}
use wboot.Memmap.{Translated, SetupStore, wboot_translate_memmap}
use wboot.Memmap.Handover.{Handed}
use wboot.Main.{Platform, Outcome, handed_off, efi_main}
use wboot.Main.Bootable.{IsEnd}
use wboot.Main.Boots.{efi_main-IsEnd}
use wboot.Phase2.Initramfs
use wboot.Phase2.Initramfs.Account.{image_refs, wboot_load_initramfs-image_refs}
use wboot.Phase2.Locate.{wboot_locate_kernel}
use wboot.Phase2.Locate.Found.{IsFound, wboot_locate_kernel-IsFound}
use wboot.Examples.Config.{
  granting, config_text, sizes, fresh, first_buffer, first_buffer-IsReal, config,
}
use wboot.Examples.Memmap.{descs}
use wboot.Examples.Graphics.{one_display}

-- A header with the two magic numbers, a payload of 8 bytes and an `init_size` of 4096.
abbrev header_bytes : List ℕ
header_bytes =
    zeros 13
    ++ 85 ∷ 170 ∷ 0 ∷ 0 ∷ codes "HdrS"
    ++ zeros 70
    ++ 8 ∷ 0 ∷ 0 ∷ 0 ∷ zeros 16
    ++ 0 ∷ 16 ∷ 0 ∷ 0 ∷ zeros 8

abbrev payload : List ℕ
payload = 40 ∷ 181 ∷ 47 ∷ 253 ∷ 0 ∷ 0 ∷ 0 ∷ 0 ∷ []

abbrev kernel_bytes : List ℕ
kernel_bytes = 127 ∷ 69 ∷ 76 ∷ 70 ∷ zeros 60

-- The read of 123 bytes gives the header, that of 8 the payload.
abbrev booting : Firmware
booting = record granting {
  read_file = λ events f size.
      if size == 123
      then (success, header_bytes)
      else if size == 8
      then (success, payload)
      else (success, config_text);
}

booting-IsUefi : IsUefi booting
booting-IsUefi = record {
  success_none = refl;
  invalid_parameter_error = refl;
  out_of_resources_error = refl;
  bad_buffer_size_error = refl;
  not_found_error = refl;
  buffer_too_small_error = refl;
  info_size_error = λ events f. refl;
  map_size_error = λ events. refl;
  pool_real = λ events size ok. ground arith;
}

abbrev unpacker : Zstd
unpacker = record {
  create_context = λ events. 900;
  find_frame_size = λ bytes. done 8;
  decompress = λ capacity frame. done (take capacity kernel_bytes);
}

abbrev bytes_of : ZstdResult (List ℕ) → List ℕ
bytes_of (done bytes) = bytes
bytes_of (failed name) = []

length-take_le : (n : ℕ) (bytes : List ℕ) → length (take n bytes) ≤ n
length-take_le zero bytes = omega arith
length-take_le (suc n) [] = omega arith
length-take_le (suc n) (b ∷ bytes) = let h = length-take_le n bytes in omega arith

unpacker-IsZstd : IsZstd unpacker
unpacker-IsZstd = record {
  fits = λ capacity frame bytes h.
      subst (λ (x : List ℕ). length x ≤ capacity) (ap bytes_of h)
        (length-take_le capacity kernel_bytes);
}

abbrev header : SetupHeader
header = header_of header_bytes

abbrev cmdline : HeapText
cmdline = record { ptr = 5000; text = codes "root=/dev/sda1" }

abbrev params : BootParams
params = params_for header cmdline 65536 10

header_read_run : header.boot_flag ≡ 43605
unfolding header_of
header_read_run = refl

wboot_read_setup_header-IsKernelHeader_example :
    IsKernelHeader booting booting-IsUefi 7 (wboot_read_setup_header booting 7 fresh).0
wboot_read_setup_header-IsKernelHeader_example =
    wboot_read_setup_header-IsKernelHeader booting booting-IsUefi 7 fresh

wboot_decompress_kernel-IsKernel_example :
    IsKernel booting unpacker header 7
      (wboot_decompress_kernel booting unpacker header 7 0 fresh).0.1
wboot_decompress_kernel-IsKernel_example =
    wboot_decompress_kernel-IsKernel booting unpacker header 7 booting-IsUefi unpacker-IsZstd 0
      fresh

wboot_decompress_kernel-Balanced_example :
    let ((dctx, result), m') = wboot_decompress_kernel booting unpacker header 7 0 fresh in
    Balanced first_buffer 0 fresh
      (kernel_refs booting unpacker header 7 first_buffer first_buffer-IsReal result)
      m'
wboot_decompress_kernel-Balanced_example =
    wboot_decompress_kernel-Balanced booting unpacker header 7 first_buffer first_buffer-IsReal 0
      fresh refl

wboot_load_initramfs-IsInitramfs_example :
    IsInitramfs booting config (wboot_load_initramfs booting config fresh).0
wboot_load_initramfs-IsInitramfs_example =
    wboot_load_initramfs-IsInitramfs booting config booting-IsUefi fresh

wboot_load_initramfs-Balanced_example :
    let (result, m') = wboot_load_initramfs booting config fresh in
    Balanced first_buffer 0 fresh
      (initramfs_refs booting config first_buffer first_buffer-IsReal result)
      m'
unfolding refers_file
wboot_load_initramfs-Balanced_example =
    wboot_load_initramfs-Balanced booting config first_buffer first_buffer-IsReal fresh refl
      (λ f. refl)

wboot_prepare_bootparams-IsAnswer_example :
    IsAnswer cmdline header 65536 10
      (malloc booting boot_params_size fresh).0
      (wboot_prepare_bootparams booting cmdline header 65536 10 fresh).0
wboot_prepare_bootparams-IsAnswer_example =
    wboot_prepare_bootparams-IsAnswer booting cmdline header 65536 10 fresh (omega arith)
      (omega arith) (omega arith) (omega arith)

abbrev no_setup_data : SetupStore
no_setup_data p = record { next = 0; kind = 0; len = 0 }

counted_two : nr_desc_of (counted_map booting fresh) ≡ 2
unfolding wboot_allocate_e820 malloc
counted_two = refl

wboot_allocate_e820-Handed_example :
    let (status, ext) = (wboot_allocate_e820 booting fresh).0 in
    (booting.efi_error status ≡ true)
    ⊎ ((r : Translated) × (wboot_translate_memmap setup_header_size 2
            (ext_ptr ext)
            (ext_size ext)
            descs
            0
            no_setup_data
          ≡ some r)
        × (r.status ≡ success)
        × Handed [] (ext_ptr ext) r)
wboot_allocate_e820-Handed_example =
    wboot_allocate_e820-Handed booting fresh descs 2 0 no_setup_data [] booting-IsUefi
      (omega (arith, counted_two)) (omega (arith, counted_two)) (omega arith) refl tt

abbrev platform : Platform
platform = record {
  fw = booting;
  zstd = unpacker;
  display = one_display;
  sizes = sizes;
  system_table = 700;
  setup_store = no_setup_data;
  memory = λ a. 0;
  fuel = 2;
}

efi_main-IsEnd_example : IsEnd platform (efi_main platform fresh).0
efi_main-IsEnd_example = efi_main-IsEnd platform booting-IsUefi unpacker-IsZstd fresh

abbrev is_handed_off : Outcome → Bool
is_handed_off (handed_off h) = true
is_handed_off _ = false

efi_main_run : is_handed_off (efi_main platform fresh).0 ≡ true
unfolding efi_main wboot.Kernel.return_entry wboot.Kernel.load_segments wboot.Kernel.read_word
efi_main_run = refl

wboot_locate_kernel-IsFound_example : IsFound booting (wboot_locate_kernel booting fresh).0
wboot_locate_kernel-IsFound_example = wboot_locate_kernel-IsFound booting booting-IsUefi fresh

wboot_load_initramfs-image_refs_example :
    let (result, m') = Initramfs.wboot_load_initramfs booting 7 fresh in
    Balanced first_buffer 0 fresh (image_refs booting 7 first_buffer first_buffer-IsReal result) m'
wboot_load_initramfs-image_refs_example =
    wboot_load_initramfs-image_refs booting 7 first_buffer first_buffer-IsReal fresh refl
