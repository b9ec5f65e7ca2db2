-- ===== src/Main.antt =====
-- `efi_main` of src/phase3/main.c, up to `exit`: the wait for a key before the return is left out.
pub mod Bootable
pub mod Boots
pub mod Steps
use wboot.Prelude.{
  ℕ, zero, suc, ◌+◌, ◌-◌, ◌*◌, ◌/◌, ◌==◌, take, Bool, length, Option, none, some, List, [], ◌∷◌,
  Text, codes, if◌then◌else◌,
}
use wboot.Prelude.Int.{ℤ, pos, negsuc}
use wboot.Prelude.Words.{u32_mod, u64_mod}
use wboot.Stdlib.Memory.{Memory, store}
use wboot.Stdlib.Printf.{word, wide, narrow}
use wboot.Stdlib.Alloc.{Io, pure, ◌>>=◌, ◌>>◌, print, perror}
use wboot.Efi.{Ptr, Firmware, EfiStatus, MemoryDescriptor}
use wboot.Config.{WbootConfig}
use wboot.Config.Load.{Sizes, LoadedConfig}
use wboot.Config.Locate.{Located, wboot_locate_config}
use wboot.Linux.{SetupHeader, setup_header_size}
use wboot.Linux.BootParams.{BootParams, EfiInfo}
use wboot.Loader.Header.{HeaderRead, wboot_open_kernel, wboot_read_setup_header}
use wboot.Loader.Decompress.{Zstd, Decompressed, DecompressResult, wboot_decompress_kernel}
use wboot.Loader.Initramfs.{Initramfs, InitramfsResult, wboot_load_initramfs}
use wboot.Loader.BootParams.{ParamsAt, wboot_prepare_bootparams}
use wboot.Loader.AllocateE820.{ExtBuffer, E820Result, wboot_allocate_e820}
use wboot.Loader.AllocateE820.Room.{ext_ptr, ext_size}
use wboot.Loader.ExitBs.{Handover, ExitResult, wboot_exit_bs}
use wboot.Graphics.{Display}
use wboot.Graphics.Setup.{GraphicsResult, wboot_setup_graphics}
use wboot.Memmap.{SetupStore, Translated, wboot_translate_memmap}
use wboot.Kernel.{get_kernel_entry}

-- What the local variables of `efi_main` hold once they are set.
pub record Loaded : Type 0 where
  pub config : WbootConfig
  pub header : SetupHeader
  pub kernel : Decompressed
  pub initramfs : Initramfs

-- The call of `wboot_handoff`: the boot parameters as they are by then, with what they were made
-- from, and the memory map as it was read and as it was translated.
pub record Handoff : Type 0 where
  pub loaded : Loaded
  pub ext : Option ExtBuffer
  pub handover : Handover
  pub translated : Translated
  pub params : BootParams
  pub entry : ℕ
  pub memory : Memory

-- How a run ends: at `exit` with a status; in `wboot_handoff`; with a pointer read that no call has
-- set; or where a list has more nodes than the fuel.
pub data Outcome : Type 0 where
  exited : EfiStatus → Outcome
  handed_off : Handoff → Outcome
  unset_pointer : Outcome
  out_of_fuel : Outcome

-- Bytes at an address.
abbrev pub with_bytes : Ptr → List ℕ → Memory → Memory
with_bytes p [] m = m
with_bytes p (b ∷ bytes) m = store (with_bytes (p + 1) bytes m) p b

abbrev pub logo : Text
logo = codes "\r\n\r\n    |_  _  __|_ \r\n\\/\\/|_)(_)(_)|_\r\n\r\n"

-- The 64 bits of an INTN.
abbrev pub intn_word : ℤ → ℕ
intn_word (pos n) = n
intn_word (negsuc n) = u64_mod - suc n

-- The machine: the firmware, zstd, the displays, the system table, the sizes of two structs, the
-- setup data and the memory that are there at the end, and the fuel for the list of setup data.
pub record Platform : Type 0 where
  pub fw : Firmware
  pub zstd : Zstd
  pub display : Display
  pub sizes : Sizes
  pub system_table : ℕ
  pub setup_store : SetupStore
  pub memory : Memory
  pub fuel : ℕ

-- `efi_memmap | ((UINT64)efi_memmap_hi << 32)`; the halves have no bit in common.
abbrev pub map_address : EfiInfo → ℕ
map_address efi = efi.efi_memmap + efi.efi_memmap_hi * u32_mod

-- `efi_memmap_size / efi_memdesc_size`
abbrev pub nr_desc : EfiInfo → ℕ
nr_desc efi = efi.efi_memmap_size / efi.efi_memdesc_size

-- The descriptors that the boot parameters point at: those of the map that `wboot_exit_bs` left
-- at `memmap`, as many as its size makes; the model has no other descriptors.
abbrev pub described : Handover → List MemoryDescriptor
described h =
    if map_address h.params.efi_info == h.memmap
    then take (nr_desc h.params.efi_info) h.descs
    else []

-- What the translation writes to the boot parameters: `e820_entries`, where it is set, and
-- `hdr.setup_data`.
abbrev pub translated_params : BootParams → Translated → BootParams
translated_params params t = record params {
  e820_entries = elim t.e820_entries [ none ↦ params.e820_entries | some n ↦ n ];
  hdr = record (params.hdr) { setup_data = t.setup_data };
}

module _ (p : Platform) where
  entered : Loaded → Option ExtBuffer → Handover → Translated → Option (ℕ × Memory) → Io Outcome
  entered l ext h t none = pure out_of_fuel
  entered l ext h t (some (entry, memory)) =
      print (codes "[wboot] handing off to kernel entry point at %p\r\n") (word entry ∷ [])
      >> pure (
          handed_off (record {
            loaded = l;
            ext = ext;
            handover = h;
            translated = t;
            params = translated_params h.params t;
            entry = entry;
            memory = memory;
          }))

  translated : Loaded → Option ExtBuffer → Handover → Option Translated → Io Outcome
  translated l ext h none = pure out_of_fuel
  translated l ext h (some t) =
      if p.fw.efi_error t.status
      then perror (codes "[wboot] error translating memory map") t.status >> pure (exited t.status)
      else entered l ext h t
          (get_kernel_entry l.kernel.ptr (with_bytes l.kernel.ptr l.kernel.bytes p.memory))

  left_services : Loaded → Option ExtBuffer → EfiStatus → ExitResult → Io Outcome
  left_services l ext status none =
      print (codes "[wboot] error exiting boot services\r\n") [] >> pure (exited status)
  left_services l ext status (some h) = do
    print (codes "[wboot] exited boot services, acquired memory map at %p\r\n") (word h.memmap ∷ [])
    print (codes "[wboot] translating EFI memory map to e820\r\n") []
    translated l ext h (
        wboot_translate_memmap setup_header_size p.fuel (ext_ptr ext) (ext_size ext) (described h)
          h.params.hdr.setup_data p.setup_store)

  allocated_e820 : Loaded → BootParams → E820Result → Io Outcome
  allocated_e820 l params (status, ext) =
      if p.fw.efi_error status
      then perror (codes "[wboot] error allocating e820ext") status >> pure (exited status)
      else print (codes "[wboot] exiting boot services!\r\n") []
        >> (wboot_exit_bs p.fw p.system_table params >>= left_services l ext status)

  set_up_graphics : Loaded → GraphicsResult → Io Outcome
  set_up_graphics l (status, params) =
      if p.fw.efi_error status
      then perror (codes "[wboot] error setting up graphics") status >> pure (exited status)
      else print (codes "[wboot] allocating e820 memory map\r\n") []
        >> (wboot_allocate_e820 p.fw >>= allocated_e820 l params)

  prepared : Loaded → EfiStatus → Option ParamsAt → Io Outcome
  prepared l status none =
      print (codes "[wboot] error preparing boot params\r\n") [] >> pure (exited status)
  prepared l status (some x) =
      print (codes "[wboot] setting up graphics\r\n") []
      >> (wboot_setup_graphics p.fw p.display l.config x.params >>= set_up_graphics l)

  pub loaded_initramfs : WbootConfig → SetupHeader → Decompressed → InitramfsResult → Io Outcome
  loaded_initramfs config header kernel (status, none) =
      if p.fw.efi_error status then pure (exited status) else pure unset_pointer
  loaded_initramfs config header kernel (status, some image) =
      let l : Loaded = record {
        config = config;
        header = header;
        kernel = kernel;
        initramfs = image;
      } in
      if p.fw.efi_error status
      then pure (exited status)
      else print (codes "[wboot] preparing boot params\r\n") []
        >> (wboot_prepare_bootparams p.fw config.cmdline header image.ptr (length image.bytes)
            >>= prepared l status)

  decompressed : WbootConfig → SetupHeader → Ptr × DecompressResult → Io Outcome
  decompressed config header (dctx, (status, none)) =
      if p.fw.efi_error status then pure (exited status) else pure unset_pointer
  decompressed config header (dctx, (status, some kernel)) =
      if p.fw.efi_error status
      then pure (exited status)
      else print (codes "[wboot] reading initramfs into memory\r\n") []
        >> (wboot_load_initramfs p.fw config >>= loaded_initramfs config header kernel)

  -- `dctx` is NULL before the first call.
  read_header : WbootConfig → Ptr → HeaderRead → Io Outcome
  read_header config kernel_file (status, none) =
      if p.fw.efi_error status then pure (exited status) else pure unset_pointer
  read_header config kernel_file (status, some header) =
      if p.fw.efi_error status
      then pure (exited status)
      else print (codes "[wboot] decompressing kernel\r\n") []
        >> (wboot_decompress_kernel p.fw p.zstd header kernel_file 0 >>= decompressed config header)

  opened : WbootConfig → EfiStatus × Ptr → Io Outcome
  opened config (status, kernel_file) =
      if p.fw.efi_error status
      then pure (exited status)
      else print (codes "[wboot] reading kernel setup header\r\n") []
        >> (wboot_read_setup_header p.fw kernel_file >>= read_header config kernel_file)

  -- The messages on the configuration.
  show_config : WbootConfig → Io (Unit {0})
  show_config config = do
    print (codes "[wboot] config kernel = %s\r\n") (wide config.kernel_path.text ∷ [])
    print (codes "[wboot] config initrd = %s\r\n") (wide config.initrd_path.text ∷ [])
    print (codes "[wboot] config cmdline = %-s\r\n") (narrow config.cmdline.text ∷ [])
    print (codes "[wboot] config mode = %ux%u, format=%d, depth=%u\r\n") (
        word config.mode_width
        ∷ word config.mode_height
        ∷ word (intn_word config.mode_format)
        ∷ word config.mode_depth
        ∷ [])

  located : Located → Io Outcome
  located (status, none) =
      if p.fw.efi_error status then pure (exited status) else pure unset_pointer
  located (status, some x) =
      if p.fw.efi_error status
      then pure (exited status)
      else show_config x.config
        >> (print (codes "[wboot] opening kernel file\r\n") []
            >> (wboot_open_kernel p.fw x.config >>= opened x.config))

  -- `efi_main`
  unfoldable pub efi_main : Io Outcome
  unfolding located opened read_header decompressed loaded_initramfs prepared set_up_graphics
      allocated_e820 left_services translated entered show_config wboot_locate_config
      wboot_open_kernel wboot_read_setup_header wboot_decompress_kernel wboot_load_initramfs
      wboot_prepare_bootparams wboot_setup_graphics wboot_allocate_e820 wboot_exit_bs
      wboot_translate_memmap get_kernel_entry
  efi_main = do
    print logo []
    print (codes "[wboot] hello from wboot!\r\n") []
    print (codes "[wboot] locating config...\r\n") []
    wboot_locate_config p.fw p.sizes >>= located
