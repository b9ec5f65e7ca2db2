-- ===== src/Loader/Decompress.antt =====
-- `wboot_decompress_kernel` of src/phase3/wboot.c, with zstd as a parameter.
pub mod Account
pub mod Elf
use wboot.Prelude.{
  ℕ, ◌+◌, ◌*◌, ◌/◌, Bool, true, false, not, ◌||◌, List, [], ◌∷◌, Option, none, some, Text, codes,
  ◌==◌, ltb, if◌then◌else◌, length, take,
}
use wboot.Stdlib.Printf.{word, wide, narrow}
use wboot.Stdlib.Alloc.{Io, pure, ◌>>=◌, ◌>>◌, print, perror, strerror, get_errno, malloc, free}
use wboot.Efi.{
  Ptr, Events, Firmware, EfiStatus, success, invalid_parameter, out_of_resources, PageRequest,
  any_pages, at_address,
}
use wboot.Efi.Files.{read_file}
use wboot.Efi.Pages.{page_size, set_position, allocate_pages, free_pages}
use wboot.Linux.{SetupHeader, number_at}

-- What a call of zstd gives: a result, or the name of an error.
pub data ZstdResult (A : Type 0) : Type 0 where
  done : A → ZstdResult A
  failed : Text → ZstdResult A

-- The calls of zstd that the source makes.
pub record Zstd : Type 0 where
  -- `ZSTD_createDCtx`
  pub create_context : Events → Ptr
  -- `ZSTD_findFrameCompressedSize`
  pub find_frame_size : List ℕ → ZstdResult ℕ
  -- `ZSTD_decompressDCtx`, to a buffer of a capacity
  pub decompress : ℕ → List ℕ → ZstdResult (List ℕ)

-- `*decompressed_kernel`, and the bytes that stand there.
pub record Decompressed : Type 0 where
  pub ptr : Ptr
  pub bytes : List ℕ

abbrev pub DecompressResult : Type 0
DecompressResult = EfiStatus × Option Decompressed

abbrev pub zstd_magic : ℕ
zstd_magic = 0xFD2FB528

abbrev pub elf_magic : ℕ
elf_magic = 0x464C457F

-- `(decompressed_kernel_capacity + EFI_PAGE_SIZE - 1) / EFI_PAGE_SIZE`
abbrev pub pages_of : ℕ → ℕ
pages_of size = (size + 4095) / page_size

-- `payload_start`: the sectors of the setup code, none standing for 4, behind the boot sector.
unfoldable pub payload_start : SetupHeader → ℕ
payload_start header =
    let sects = if header.setup_sects == 0 then 4 else header.setup_sects in
    (1 + sects) * 512 + header.payload_offset

-- The first four bytes; of fewer bytes, those that there are.
abbrev pub magic_of : List ℕ → ℕ
magic_of = number_at 0 4

module _ (fw : Firmware) (zstd : Zstd) (header : SetupHeader) (kernel_file : Ptr) where
  -- `free(compressed_kernel)` and a return
  drop_payload : Ptr → DecompressResult → Io DecompressResult
  drop_payload p result = free fw p >> pure result

  -- `FreePages`, `free(compressed_kernel)` and a return
  drop_kernel : Ptr → Ptr → Io DecompressResult
  drop_kernel p addr =
      free_pages addr (pages_of header.init_size) >> drop_payload p (invalid_parameter, none)

  check_elf : Ptr → Ptr → List ℕ → Io DecompressResult
  check_elf p addr bytes =
      if ltb (length bytes) 4 || not (magic_of bytes == elf_magic)
      then print
          (codes
            "[decompress_kernel] error: decompressed kernel does not have ELF magic (invalid kernel format?) expected 0x464C457F, got 0x%x\r\n")
          (word (magic_of bytes) ∷ [])
        >> drop_kernel p addr
      else drop_payload p (success, some (record { ptr = addr; bytes = bytes }))

  decompressed : Ptr → Ptr → ZstdResult (List ℕ) → Io DecompressResult
  decompressed p addr (done bytes) = check_elf p addr bytes
  decompressed p addr (failed name) =
      print (codes "[decompress_kernel] error decompressing kernel: %-s\r\n") (narrow name ∷ [])
      >> drop_kernel p addr

  decompress_to : Ptr → List ℕ → Ptr → Io DecompressResult
  decompress_to p frame addr = decompressed p addr (zstd.decompress header.init_size frame)

  -- The fallback to any address.
  any_allocated : Ptr → List ℕ → EfiStatus × Ptr → Io DecompressResult
  any_allocated p frame x =
      if fw.efi_error x.0
      then print
          (codes "[decompress_kernel] error allocating pages for decompressed kernel: %s\r\n")
          (wide (strerror x.0) ∷ [])
        >> drop_payload p (x.0, none)
      else decompress_to p frame x.1

  allocate_any : Ptr → List ℕ → Io DecompressResult
  allocate_any p frame =
      allocate_pages fw any_pages (pages_of header.init_size) >>= any_allocated p frame

  preferred_allocated : Ptr → List ℕ → EfiStatus × Ptr → Io DecompressResult
  preferred_allocated p frame x =
      if fw.efi_error x.0
      then print
          (codes
            "warning: couldn't allocate pages for decompressed kernel at preferred address 0x%x: %s\r\n")
          (word header.pref_address ∷ wide (strerror x.0) ∷ [])
        >> allocate_any p frame
      else decompress_to p frame x.1

  allocate_preferred : Ptr → List ℕ → Io DecompressResult
  allocate_preferred p frame =
      allocate_pages fw (at_address header.pref_address) (pages_of header.init_size)
      >>= preferred_allocated p frame

  place_kernel : Ptr → List ℕ → Io DecompressResult
  place_kernel p frame =
      if not (header.pref_address == 0) then allocate_preferred p frame else allocate_any p frame

  with_frame : Ptr → List ℕ → ZstdResult ℕ → Io DecompressResult
  with_frame p bytes (done size) = place_kernel p (take size bytes)
  with_frame p bytes (failed name) =
      print (codes "[decompress_kernel] error finding zstd compressed frame size: %-s\r\n")
        (narrow name ∷ [])
      >> drop_payload p (invalid_parameter, none)

  check_zstd : Ptr → List ℕ → Io DecompressResult
  check_zstd p bytes =
      if ltb header.payload_length 4 || not (magic_of bytes == zstd_magic)
      then print
          (codes
            "[decompress_kernel] error: compressed kernel does not have zstd magic (different compression format or not compressed at all?) expected 0xFD2FB528, got 0x%x\r\n")
          (word (magic_of bytes) ∷ [])
        >> drop_payload p (invalid_parameter, none)
      else with_frame p bytes (zstd.find_frame_size bytes)

  payload_read : Ptr → EfiStatus × List ℕ → Io DecompressResult
  payload_read p x =
      if fw.efi_error x.0
      then perror (codes "[decompress_kernel] error reading compressed kernel\r\n") x.0
        >> drop_payload p (x.0, none)
      else if not (length x.1 == header.payload_length)
      then print
          (codes
            "[decompress_kernel] error: expected to read %u bytes for compressed kernel, but only read %u\r\n")
          (word header.payload_length ∷ word (length x.1) ∷ [])
        >> drop_payload p (invalid_parameter, none)
      else check_zstd p x.1

  seek_payload : Ptr → EfiStatus → Io DecompressResult
  seek_payload p status =
      if fw.efi_error status
      then perror (codes "[decompress_kernel] error setting kernel file position\r\n") status
        >> drop_payload p (status, none)
      else read_file fw kernel_file header.payload_length >>= payload_read p

  load_payload : Ptr → Io DecompressResult
  load_payload p = set_position fw kernel_file (payload_start header) >>= seek_payload p

  no_payload : EfiStatus → Io DecompressResult
  no_payload errno =
      perror (codes "[decompress_kernel] error allocating memory for compressed kernel\r\n") errno
      >> pure (out_of_resources, none)

  payload_allocated : Ptr → Io DecompressResult
  payload_allocated p = if p == 0 then get_errno >>= no_payload else load_payload p

  decompress_payload : Io DecompressResult
  decompress_payload = malloc fw header.payload_length >>= payload_allocated

  -- The static `dctx`: made once, and kept.
  context_of : Ptr → Events → Ptr
  context_of dctx events = if dctx == 0 then zstd.create_context events else dctx

  with_context : Ptr → Io DecompressResult
  with_context dctx =
      if dctx == 0
      then print (codes "[decompress_kernel] error creating ZSTD decompression context\r\n") []
        >> pure (out_of_resources, none)
      else decompress_payload

  -- `wboot_decompress_kernel`, with `dctx` before and after the call.
  unfoldable pub wboot_decompress_kernel : Ptr → Io (Ptr × DecompressResult)
  unfolding context_of with_context decompress_payload payload_allocated no_payload load_payload
      seek_payload payload_read check_zstd with_frame place_kernel allocate_preferred
      preferred_allocated allocate_any any_allocated decompress_to decompressed check_elf
      drop_kernel drop_payload payload_start number_at set_position read_file allocate_pages
      free_pages
  wboot_decompress_kernel dctx m =
      let dctx' = context_of dctx m.events in let x = with_context dctx' m in ((dctx', x.0), x.1)
