-- ===== src/Loader/Decompress/Elf.antt =====
-- What `wboot_decompress_kernel` of src/phase3/wboot.c says of the kernel that it returns.
use wboot.Prelude.{
  ℕ, ◌*◌, ◌≡◌, ◌≤◌, refl, arith, true, not, ◌||◌, none, some, List, ◌==◌, ltb, length, take,
}
use wboot.Efi.{
  Ptr, Events, Firmware, EfiStatus, success, invalid_parameter, out_of_resources, PageRequest,
  any_pages, at_address,
}
use wboot.Efi.Files.{read_file}
use wboot.Efi.Pages.{set_position, allocate_pages, free_pages}
use wboot.Efi.Uefi.{IsUefi, Gave}
use wboot.Stdlib.Alloc.{Machine, pure, get_errno, free, malloc, print, perror}
use wboot.Stdlib.Alloc.Ends.{
  Ends, Ends_run, Ends-each, Ends-pure, Ends-bind, Ends-if, Ends-then, Ends-chain,
}
use wboot.Linux.{SetupHeader, number_at}
use wboot.Loader.Decompress.{
  Zstd, ZstdResult, done, failed, DecompressResult, zstd_magic, elf_magic, pages_of, magic_of,
  drop_payload, drop_kernel, check_elf, decompressed, decompress_to, any_allocated, allocate_any,
  preferred_allocated, allocate_preferred, place_kernel, with_frame, check_zstd, payload_read,
  seek_payload, load_payload, payload_allocated, no_payload, decompress_payload, payload_start,
  with_context, wboot_decompress_kernel, context_of,
}

-- zstd writes no more than the capacity that it is given.
pub record IsZstd (zstd : Zstd) : Type 0 where
  pub fits :
      (capacity : ℕ) (frame bytes : List ℕ)
      → zstd.decompress capacity frame ≡ done bytes
      → length bytes ≤ capacity

module _ (fw : Firmware) (zstd : Zstd) (header : SetupHeader) (kernel_file : Ptr) where
  -- AllocatePages gave pages at the address, and as many bytes fit into them.
  abbrev pub HasPages : Ptr → ℕ → Type 0
  HasPages addr size =
      (request : PageRequest) × (n : ℕ) × Gave fw (λ events. fw.allocate_pages events request n)
        addr
      × (size ≤ n * 4096)

  -- An error without a kernel, or a kernel that begins as an ELF file and fits `init_size` and the
  -- pages at its address.
  abbrev pub IsKernel : DecompressResult → Type 0
  IsKernel (status, none) = fw.efi_error status ≡ true
  IsKernel (status, some d) =
      (status ≡ success)
      × (number_at 0 4 d.bytes ≡ 0x464C457F)
      × (4 ≤ length d.bytes)
      × (length d.bytes ≤ header.init_size)
      × HasPages d.ptr (length d.bytes)

  module _ (uefi : IsUefi fw) (z : IsZstd zstd) where
    drop_payload-Ends :
        (p : Ptr) (result : DecompressResult)
        → IsKernel result
        → Ends IsKernel (drop_payload fw zstd header kernel_file p result)
    unfolding drop_payload
    drop_payload-Ends p result h =
        Ends-then IsKernel (free fw p) (pure result) (Ends-pure IsKernel result h)

    drop_kernel-Ends :
        (p addr : Ptr) → Ends IsKernel (drop_kernel fw zstd header kernel_file p addr)
    unfolding drop_kernel
    drop_kernel-Ends p addr =
        Ends-then IsKernel (free_pages addr (pages_of header.init_size)) _
          (drop_payload-Ends p (invalid_parameter, none) uefi.invalid_parameter_error)

    check_elf-Ends :
        (p addr : Ptr) (request : PageRequest) (bytes : List ℕ)
        → length bytes ≤ header.init_size
        → Gave fw (λ events. fw.allocate_pages events request (pages_of header.init_size)) addr
        → Ends IsKernel (check_elf fw zstd header kernel_file p addr bytes)
    unfolding check_elf
    check_elf-Ends p addr request bytes fits pages =
        Ends-if IsKernel (ltb (length bytes) 4 || not (magic_of bytes == elf_magic)) _ _
          (λ e.
            Ends-then IsKernel (print _ _) (drop_kernel fw zstd header kernel_file p addr)
              (drop_kernel-Ends p addr))
          (λ e.
            drop_payload-Ends p (success, some (record { ptr = addr; bytes = bytes }))
              (
                refl,
                ground (arith, e),
                ground (arith, e),
                fits,
                (request, pages_of header.init_size, pages, omega (arith, fits)),
              ))

    decompressed-Ends :
        (p addr : Ptr) (request : PageRequest) (x : ZstdResult (List ℕ)) (frame : List ℕ)
        → Gave fw (λ events. fw.allocate_pages events request (pages_of header.init_size)) addr
        → zstd.decompress header.init_size frame ≡ x
        → Ends IsKernel (decompressed fw zstd header kernel_file p addr x)
    unfolding decompressed
    decompressed-Ends p addr request (done bytes) frame pages e =
        check_elf-Ends p addr request bytes (z.fits header.init_size frame bytes e) pages
    decompressed-Ends p addr request (failed name) frame pages e =
        Ends-then IsKernel (print _ _) (drop_kernel fw zstd header kernel_file p addr)
          (drop_kernel-Ends p addr)

    decompress_to-Ends :
        (p : Ptr) (frame : List ℕ) (addr : Ptr) (request : PageRequest)
        → Gave fw (λ events. fw.allocate_pages events request (pages_of header.init_size)) addr
        → Ends IsKernel (decompress_to fw zstd header kernel_file p frame addr)
    unfolding decompress_to
    decompress_to-Ends p frame addr request pages =
        decompressed-Ends p addr request (zstd.decompress header.init_size frame) frame pages refl

    -- An answer of AllocatePages, asked for the pages of `init_size`.
    abbrev Answers : PageRequest → EfiStatus × Ptr → Type 0
    Answers request x =
        (events : Events) × (fw.allocate_pages events request (pages_of header.init_size) ≡ x)

    allocated-Answers :
        (request : PageRequest)
        → Ends (Answers request) (allocate_pages fw request (pages_of header.init_size))
    unfolding allocate_pages
    allocated-Answers request =
        Ends-each (Answers request) (allocate_pages fw request (pages_of header.init_size))
          (λ m. (m.events, refl))

    any_allocated-Ends :
        (p : Ptr) (frame : List ℕ) (x : EfiStatus × Ptr)
        → Answers any_pages x
        → Ends IsKernel (any_allocated fw zstd header kernel_file p frame x)
    unfolding any_allocated
    any_allocated-Ends p frame x (events, answer) =
        Ends-if IsKernel (fw.efi_error x.0) _ _
          (λ e.
            Ends-then IsKernel (print _ _) (drop_payload fw zstd header kernel_file p (x.0, none))
              (drop_payload-Ends p (x.0, none) e))
          (λ e.
            decompress_to-Ends p frame x.1 any_pages
              (record { events = events; status = x.0; answer = answer; succeeded = e }))

    allocate_any-Ends :
        (p : Ptr) (frame : List ℕ) → Ends IsKernel (allocate_any fw zstd header kernel_file p frame)
    unfolding allocate_any
    allocate_any-Ends p frame =
        Ends-chain IsKernel (Answers any_pages)
          (allocate_pages fw any_pages (pages_of header.init_size))
          (any_allocated fw zstd header kernel_file p frame) (allocated-Answers any_pages)
          (any_allocated-Ends p frame)

    preferred_allocated-Ends :
        (p : Ptr) (frame : List ℕ) (x : EfiStatus × Ptr)
        → Answers (at_address header.pref_address) x
        → Ends IsKernel (preferred_allocated fw zstd header kernel_file p frame x)
    unfolding preferred_allocated
    preferred_allocated-Ends p frame x (events, answer) =
        Ends-if IsKernel (fw.efi_error x.0) _ _
          (λ e.
            Ends-then IsKernel (print _ _) (allocate_any fw zstd header kernel_file p frame)
              (allocate_any-Ends p frame))
          (λ e.
            decompress_to-Ends p frame x.1 (at_address header.pref_address)
              (record { events = events; status = x.0; answer = answer; succeeded = e }))

    with_frame-Ends :
        (p : Ptr) (bytes : List ℕ) (x : ZstdResult ℕ)
        → Ends IsKernel (with_frame fw zstd header kernel_file p bytes x)
    unfolding with_frame place_kernel allocate_preferred
    with_frame-Ends p bytes (done size) =
        Ends-if IsKernel (not (header.pref_address == 0)) _ _
          (λ e.
            Ends-chain IsKernel (Answers (at_address header.pref_address))
              (allocate_pages fw (at_address header.pref_address) (pages_of header.init_size))
              (preferred_allocated fw zstd header kernel_file p (take size bytes))
              (allocated-Answers (at_address header.pref_address))
              (preferred_allocated-Ends p (take size bytes)))
          (λ e. allocate_any-Ends p (take size bytes))
    with_frame-Ends p bytes (failed name) =
        Ends-then IsKernel (print _ _)
          (drop_payload fw zstd header kernel_file p (invalid_parameter, none))
          (drop_payload-Ends p (invalid_parameter, none) uefi.invalid_parameter_error)

    check_zstd-Ends :
        (p : Ptr) (bytes : List ℕ) → Ends IsKernel (check_zstd fw zstd header kernel_file p bytes)
    unfolding check_zstd
    check_zstd-Ends p bytes =
        Ends-if IsKernel (ltb header.payload_length 4 || not (magic_of bytes == zstd_magic)) _ _
          (λ e.
            Ends-then IsKernel (print _ _)
              (drop_payload fw zstd header kernel_file p (invalid_parameter, none))
              (drop_payload-Ends p (invalid_parameter, none) uefi.invalid_parameter_error))
          (λ e. with_frame-Ends p bytes (zstd.find_frame_size bytes))

    payload_read-Ends :
        (p : Ptr) (x : EfiStatus × List ℕ)
        → Ends IsKernel (payload_read fw zstd header kernel_file p x)
    unfolding payload_read
    payload_read-Ends p x =
        Ends-if IsKernel (fw.efi_error x.0) _ _
          (λ e.
            Ends-then IsKernel (perror _ _) (drop_payload fw zstd header kernel_file p (x.0, none))
              (drop_payload-Ends p (x.0, none) e))
          (λ e.
            Ends-if IsKernel (not (length x.1 == header.payload_length)) _ _
              (λ e.
                Ends-then IsKernel (print _ _)
                  (drop_payload fw zstd header kernel_file p (invalid_parameter, none))
                  (drop_payload-Ends p (invalid_parameter, none) uefi.invalid_parameter_error))
              (λ e. check_zstd-Ends p x.1))

    seek_payload-Ends :
        (p : Ptr) (status : EfiStatus)
        → Ends IsKernel (seek_payload fw zstd header kernel_file p status)
    unfolding seek_payload
    seek_payload-Ends p status =
        Ends-if IsKernel (fw.efi_error status) _ _
          (λ e.
            Ends-then IsKernel (perror _ _)
              (drop_payload fw zstd header kernel_file p (status, none))
              (drop_payload-Ends p (status, none) e))
          (λ e.
            Ends-bind IsKernel (read_file fw kernel_file header.payload_length)
              (payload_read fw zstd header kernel_file p) (payload_read-Ends p))

    payload_allocated-Ends :
        (p : Ptr) → Ends IsKernel (payload_allocated fw zstd header kernel_file p)
    unfolding payload_allocated no_payload load_payload
    payload_allocated-Ends p =
        Ends-if IsKernel (p == 0) _ _
          (λ e. Ends-bind IsKernel get_errno (no_payload fw zstd header kernel_file) (λ errno.
            Ends-then IsKernel (perror _ _) (pure (out_of_resources, none))
              (Ends-pure IsKernel (out_of_resources, none) uefi.out_of_resources_error)))
          (λ e.
            Ends-bind IsKernel (set_position fw kernel_file (payload_start header))
              (seek_payload fw zstd header kernel_file p) (seek_payload-Ends p))

    with_context-Ends : (dctx : Ptr) → Ends IsKernel (with_context fw zstd header kernel_file dctx)
    unfolding with_context decompress_payload
    with_context-Ends dctx =
        Ends-if IsKernel (dctx == 0) _ _
          (λ e.
            Ends-then IsKernel (print _ _) (pure (out_of_resources, none))
              (Ends-pure IsKernel (out_of_resources, none) uefi.out_of_resources_error))
          (λ e.
            Ends-bind IsKernel (malloc fw header.payload_length)
              (payload_allocated fw zstd header kernel_file) payload_allocated-Ends)

    -- `wboot_decompress_kernel` returns an error and no kernel, or success and a kernel that begins
    -- with the ELF magic, is no longer than the header's `init_size`, and fits the pages that
    -- AllocatePages gave at its address. The firmware and zstd keep what they promise.
    pub wboot_decompress_kernel-IsKernel :
        (dctx : Ptr) (m : Machine)
        → IsKernel (wboot_decompress_kernel fw zstd header kernel_file dctx m).0.1
    unfolding wboot_decompress_kernel
    wboot_decompress_kernel-IsKernel dctx m =
        let dctx' = context_of fw zstd header kernel_file dctx m.events in
        Ends_run IsKernel (with_context fw zstd header kernel_file dctx') (with_context-Ends dctx')
          m
