-- ===== src/Loader/Decompress/Account.antt =====
-- The account of `wboot_decompress_kernel` of src/phase3/wboot.c with the firmware.
use wboot.Prelude.{
  ℕ, ◌+◌, ◌≡◌, refl, arith, false, not, ◌||◌, none, some, List, ◌==◌, ltb, length, take,
  if◌then◌else◌,
}
use wboot.Efi.{
  Ptr, Firmware, EfiStatus, success, invalid_parameter, out_of_resources, any_pages, at_address,
}
use wboot.Efi.Files.{read_file, read_file-Balanced}
use wboot.Efi.Pages.{set_position, set_position-Balanced}
use wboot.Stdlib.Alloc.{Machine, Io, pure}
use wboot.Stdlib.Alloc.Balance.{Resource, refers, refers_pages, IsReal, Balanced}
use wboot.Stdlib.Alloc.Owes.{
  Owes, Owes-run, Owes-pure, Owes-eq, Owes-if, Owes-bind, Owes-print, Owes-perror, Owes-free,
  Owes-free_pages, Owes-malloc, Owes-allocate_pages, Owes-null, Owes-refused, Owes-get_errno,
}
use wboot.Linux.{SetupHeader}
use wboot.Loader.Decompress.{
  Zstd, ZstdResult, done, failed, DecompressResult, zstd_magic, elf_magic, pages_of, magic_of,
  drop_payload, drop_kernel, check_elf, decompressed, decompress_to, any_allocated, allocate_any,
  preferred_allocated, allocate_preferred, place_kernel, with_frame, check_zstd, payload_read,
  seek_payload, load_payload, payload_allocated, no_payload, decompress_payload, payload_start,
  with_context, wboot_decompress_kernel, context_of,
}

module _ (fw : Firmware) (zstd : Zstd) (header : SetupHeader) (kernel_file : Ptr) (r : Resource)
    (real : IsReal r) where
  -- What a result refers to: the pages of the kernel.
  abbrev pub kernel_refs : DecompressResult → ℕ
  kernel_refs (status, none) = 0
  kernel_refs (status, some d) = refers_pages r d.ptr (pages_of header.init_size)

  abbrev pub Decompresses : ℕ → Io DecompressResult → Type 0
  Decompresses = Owes fw r real kernel_refs

  drop_payload-Owes :
      (p : Ptr) (result : DecompressResult) (total : ℕ)
      → total ≡ kernel_refs result + refers r p
      → Decompresses total (drop_payload fw zstd header kernel_file p result)
  unfolding drop_payload
  drop_payload-Owes p result total e =
      Owes-free fw r real kernel_refs p (pure result) (kernel_refs result) total e
        (Owes-pure fw r real kernel_refs result _ refl)

  drop_kernel-Owes :
      (p addr : Ptr)
      → Decompresses
          (refers r p + refers_pages r addr (pages_of header.init_size))
          (drop_kernel fw zstd header kernel_file p addr)
  unfolding drop_kernel
  drop_kernel-Owes p addr =
      Owes-free_pages fw r real kernel_refs addr (pages_of header.init_size) (refers r p) _
        (drop_payload fw zstd header kernel_file p (invalid_parameter, none)) refl
        (drop_payload-Owes p (invalid_parameter, none) _ (omega arith))

  check_elf-Owes :
      (p addr : Ptr) (bytes : List ℕ)
      → Decompresses
          (refers r p + refers_pages r addr (pages_of header.init_size))
          (check_elf fw zstd header kernel_file p addr bytes)
  unfolding check_elf
  check_elf-Owes p addr bytes =
      Owes-if fw r real kernel_refs (ltb (length bytes) 4 || not (magic_of bytes == elf_magic)) _ _
        _
        (λ e.
          Owes-print fw r real kernel_refs _ _ (drop_kernel fw zstd header kernel_file p addr) _
            (drop_kernel-Owes p addr))
        (λ e.
          drop_payload-Owes p (success, some (record { ptr = addr; bytes = bytes })) _
            (omega arith))

  decompressed-Owes :
      (p addr : Ptr) (x : ZstdResult (List ℕ))
      → Decompresses
          (refers r p + refers_pages r addr (pages_of header.init_size))
          (decompressed fw zstd header kernel_file p addr x)
  unfolding decompressed
  decompressed-Owes p addr (done bytes) = check_elf-Owes p addr bytes
  decompressed-Owes p addr (failed name) =
      Owes-print fw r real kernel_refs _ _ (drop_kernel fw zstd header kernel_file p addr) _
        (drop_kernel-Owes p addr)

  -- A return without a kernel gives the payload back.
  refuse-Owes :
      (p : Ptr) (status : EfiStatus)
      → Decompresses (refers r p) (drop_payload fw zstd header kernel_file p (status, none))
  refuse-Owes p status = drop_payload-Owes p (status, none) (refers r p) (omega arith)

  decompress_to-Owes :
      (p : Ptr) (frame : List ℕ) (addr : Ptr)
      → Decompresses
          (refers r p + refers_pages r addr (pages_of header.init_size))
          (decompress_to fw zstd header kernel_file p frame addr)
  unfolding decompress_to
  decompress_to-Owes p frame addr =
      decompressed-Owes p addr (zstd.decompress header.init_size frame)

  any_allocated-Owes :
      (p : Ptr) (frame : List ℕ) (x : EfiStatus × Ptr)
      → Decompresses
          (refers r p
            + (if fw.efi_error x.0 then 0 else refers_pages r x.1 (pages_of header.init_size)))
          (any_allocated fw zstd header kernel_file p frame x)
  unfolding any_allocated
  any_allocated-Owes p frame x =
      Owes-refused fw r real kernel_refs (fw.efi_error x.0)
        (refers_pages r x.1 (pages_of header.init_size)) _ _ (refers r p)
        (Owes-print fw r real kernel_refs _ _
          (drop_payload fw zstd header kernel_file p (x.0, none)) _ (refuse-Owes p x.0))
        (decompress_to-Owes p frame x.1)

  allocate_any-Owes :
      (p : Ptr) (frame : List ℕ)
      → Decompresses (refers r p) (allocate_any fw zstd header kernel_file p frame)
  unfolding allocate_any
  allocate_any-Owes p frame =
      Owes-allocate_pages fw r real kernel_refs any_pages (pages_of header.init_size) (refers r p)
        (any_allocated fw zstd header kernel_file p frame) (any_allocated-Owes p frame)

  preferred_allocated-Owes :
      (p : Ptr) (frame : List ℕ) (x : EfiStatus × Ptr)
      → Decompresses
          (refers r p
            + (if fw.efi_error x.0 then 0 else refers_pages r x.1 (pages_of header.init_size)))
          (preferred_allocated fw zstd header kernel_file p frame x)
  unfolding preferred_allocated
  preferred_allocated-Owes p frame x =
      Owes-refused fw r real kernel_refs (fw.efi_error x.0)
        (refers_pages r x.1 (pages_of header.init_size)) _ _ (refers r p)
        (Owes-print fw r real kernel_refs _ _ (allocate_any fw zstd header kernel_file p frame) _
          (allocate_any-Owes p frame))
        (decompress_to-Owes p frame x.1)

  allocate_preferred-Owes :
      (p : Ptr) (frame : List ℕ)
      → Decompresses (refers r p) (allocate_preferred fw zstd header kernel_file p frame)
  unfolding allocate_preferred
  allocate_preferred-Owes p frame =
      Owes-allocate_pages fw r real kernel_refs (at_address header.pref_address)
        (pages_of header.init_size) (refers r p)
        (preferred_allocated fw zstd header kernel_file p frame) (preferred_allocated-Owes p frame)

  with_frame-Owes :
      (p : Ptr) (bytes : List ℕ) (x : ZstdResult ℕ)
      → Decompresses (refers r p) (with_frame fw zstd header kernel_file p bytes x)
  unfolding with_frame place_kernel
  with_frame-Owes p bytes (done size) =
      Owes-if fw r real kernel_refs (not (header.pref_address == 0)) _ _ _
        (λ e. allocate_preferred-Owes p (take size bytes))
        (λ e. allocate_any-Owes p (take size bytes))
  with_frame-Owes p bytes (failed name) =
      Owes-print fw r real kernel_refs _ _
        (drop_payload fw zstd header kernel_file p (invalid_parameter, none)) _
        (refuse-Owes p invalid_parameter)

  check_zstd-Owes :
      (p : Ptr) (bytes : List ℕ)
      → Decompresses (refers r p) (check_zstd fw zstd header kernel_file p bytes)
  unfolding check_zstd
  check_zstd-Owes p bytes =
      Owes-if fw r real kernel_refs
        (ltb header.payload_length 4 || not (magic_of bytes == zstd_magic)) _ _ _
        (λ e.
          Owes-print fw r real kernel_refs _ _
            (drop_payload fw zstd header kernel_file p (invalid_parameter, none)) _
            (refuse-Owes p invalid_parameter))
        (λ e. with_frame-Owes p bytes (zstd.find_frame_size bytes))

  payload_read-Owes :
      (p : Ptr) (x : EfiStatus × List ℕ)
      → Decompresses (refers r p) (payload_read fw zstd header kernel_file p x)
  unfolding payload_read
  payload_read-Owes p x =
      Owes-if fw r real kernel_refs (fw.efi_error x.0) _ _ _
        (λ e.
          Owes-perror fw r real kernel_refs _ _
            (drop_payload fw zstd header kernel_file p (x.0, none)) _ (refuse-Owes p x.0))
        (λ e.
          Owes-if fw r real kernel_refs (not (length x.1 == header.payload_length)) _ _ _
            (λ e.
              Owes-print fw r real kernel_refs _ _
                (drop_payload fw zstd header kernel_file p (invalid_parameter, none)) _
                (refuse-Owes p invalid_parameter))
            (λ e. check_zstd-Owes p x.1))

  seek_payload-Owes :
      (p : Ptr) (status : EfiStatus)
      → Decompresses (refers r p) (seek_payload fw zstd header kernel_file p status)
  unfolding seek_payload
  seek_payload-Owes p status =
      Owes-if fw r real kernel_refs (fw.efi_error status) _ _ _
        (λ e.
          Owes-perror fw r real kernel_refs _ _
            (drop_payload fw zstd header kernel_file p (status, none)) _ (refuse-Owes p status))
        (λ e.
          Owes-bind fw r real kernel_refs (read_file fw kernel_file header.payload_length)
            (payload_read fw zstd header kernel_file p) (refers r p) (λ x. refers r p)
            (λ m h. read_file-Balanced fw r (refers r p) m h kernel_file header.payload_length)
            (payload_read-Owes p))

  load_payload-Owes :
      (p : Ptr) → Decompresses (refers r p) (load_payload fw zstd header kernel_file p)
  unfolding load_payload
  load_payload-Owes p =
      Owes-bind fw r real kernel_refs (set_position fw kernel_file (payload_start header))
        (seek_payload fw zstd header kernel_file p) (refers r p) (λ x. refers r p)
        (λ m h. set_position-Balanced fw r (refers r p) m h kernel_file (payload_start header))
        (seek_payload-Owes p)

  payload_allocated-Owes :
      (p : Ptr) → Decompresses (0 + refers r p) (payload_allocated fw zstd header kernel_file p)
  unfolding payload_allocated no_payload
  payload_allocated-Owes p =
      Owes-null fw r real kernel_refs p _ _ 0
        (Owes-get_errno fw r real kernel_refs 0 (no_payload fw zstd header kernel_file) (λ e.
          Owes-perror fw r real kernel_refs _ _ (pure (out_of_resources, none)) 0
            (Owes-pure fw r real kernel_refs (out_of_resources, none) 0 refl)))
        (Owes-eq fw r real kernel_refs (refers r p) _ _ (omega arith) (load_payload-Owes p))

  with_context-Owes : (dctx : Ptr) → Decompresses 0 (with_context fw zstd header kernel_file dctx)
  unfolding with_context decompress_payload
  with_context-Owes dctx =
      Owes-if fw r real kernel_refs (dctx == 0) _ _ 0
        (λ e.
          Owes-print fw r real kernel_refs _ _ (pure (out_of_resources, none)) 0
            (Owes-pure fw r real kernel_refs (out_of_resources, none) 0 refl))
        (λ e.
          Owes-malloc fw r real kernel_refs header.payload_length 0
            (payload_allocated fw zstd header kernel_file) payload_allocated-Owes)

  -- Whatever happens in `wboot_decompress_kernel`, with boot services up: the buffer of the payload
  -- is given back exactly once, and the pages of the kernel are out exactly where it succeeds.
  pub wboot_decompress_kernel-Balanced :
      (dctx : Ptr) (m : Machine)
      → m.bs_exited ≡ false
      → let ((dctx', result), m') = wboot_decompress_kernel fw zstd header kernel_file dctx m in
        Balanced r 0 m (kernel_refs result) m'
  unfolding wboot_decompress_kernel
  wboot_decompress_kernel-Balanced dctx m h =
      let dctx' = context_of fw zstd header kernel_file dctx m.events in
      Owes-run fw r real kernel_refs 0 (with_context fw zstd header kernel_file dctx')
        (with_context-Owes dctx') m h
