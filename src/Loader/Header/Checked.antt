-- ===== src/Loader/Header/Checked.antt =====
-- What `wboot_read_setup_header` of src/phase3/wboot.c accepts.
use wboot.Prelude.{
  ℕ, ◌≡◌, refl, arith, true, false, not, Bool-cases, inl, inr, ◌∷◌, none, some, List, codes, ◌==◌,
  text_eq, length,
}
use wboot.Efi.{Ptr, Events, position_set, Firmware, EfiStatus, success, invalid_parameter}
use wboot.Efi.Files.{read_file}
use wboot.Efi.Pages.{set_position}
use wboot.Efi.Uefi.{IsUefi}
use wboot.Stdlib.Alloc.{Machine, pure, print, perror}
use wboot.Stdlib.Alloc.Ends.{Ends, Ends_run, Ends-pure, Ends-if, Ends-then}
use wboot.Linux.{SetupHeader, header_of, setup_header_size}
use wboot.Linux.Layout.{header_bytes, as_bytes, header_bytes-header_of}
use wboot.Loader.Header.{
  HeaderRead, boot_magic, check_header, check_read, header_sought, wboot_read_setup_header,
}

module _ (fw : Firmware) (file : Ptr) where
  -- SetPosition to 497 in the file succeeded and was followed by this read of it.
  pub record Answered (bytes : List ℕ) : Type 0 where
    pub earlier : Events
    pub status : EfiStatus
    pub sought : fw.efi_error (fw.set_position earlier file 497) ≡ false
    pub answer :
        let events = position_set file 497 (fw.set_position earlier file 497) ∷ earlier in
        fw.read_file events file 123 ≡ (status, bytes)
    pub succeeded : fw.efi_error status ≡ false

  -- The packed fields of the header are the 123 bytes of such a read.
  pub record IsHeaderOf (header : SetupHeader) : Type 0 where
    pub bytes : List ℕ
    pub answered : Answered bytes
    pub whole : length bytes ≡ 123
    pub laid_out : header_bytes header ≡ as_bytes bytes

  pub answered_at :
      (earlier : Events) (x : EfiStatus × List ℕ)
      → fw.efi_error (fw.set_position earlier file 497) ≡ false
      → fw.read_file (position_set file 497 (fw.set_position earlier file 497) ∷ earlier) file 123
        ≡ x
      → fw.efi_error x.0 ≡ false
      → Answered x.1
  answered_at earlier x sought answer ok = record {
    earlier = earlier;
    status = x.0;
    sought = sought;
    answer = answer;
    succeeded = ok;
  }

module _ (fw : Firmware) (uefi : IsUefi fw) (file : Ptr) where
  -- An error and no header, or success and the header that a whole read of it makes, with the two
  -- magic numbers.
  abbrev pub IsKernelHeader : HeaderRead → Type 0
  IsKernelHeader (status, none) = fw.efi_error status ≡ true
  IsKernelHeader (status, some header) =
      (status ≡ success)
      × (header.boot_flag ≡ 0xAA55)
      × (text_eq header.header (codes "HdrS") ≡ true)
      × IsHeaderOf fw file header

  check_header-Ends :
      (bytes : List ℕ)
      → Answered fw file bytes
      → length bytes ≡ setup_header_size
      → Ends IsKernelHeader (check_header fw (header_of bytes))
  unfolding check_header
  check_header-Ends bytes answered whole =
      Ends-if IsKernelHeader (not ((header_of bytes).boot_flag == boot_magic)) _ _
        (λ e.
          Ends-then IsKernelHeader (print _ _) (pure (invalid_parameter, none))
            (Ends-pure IsKernelHeader (invalid_parameter, none) uefi.invalid_parameter_error))
        (λ e.
          Ends-if IsKernelHeader (not (text_eq (header_of bytes).header (codes "HdrS"))) _ _
            (λ k.
              Ends-then IsKernelHeader (print _ _) (pure (invalid_parameter, none))
                (Ends-pure IsKernelHeader (invalid_parameter, none) uefi.invalid_parameter_error))
            (λ k.
              Ends-pure IsKernelHeader (success, some (header_of bytes))
                (
                  refl,
                  ground (arith, e),
                  ground (arith, k),
                  record {
                    bytes = bytes;
                    answered = answered;
                    whole = whole;
                    laid_out = header_bytes-header_of bytes whole;
                  },
                )))

  check_read-Ends :
      (x : EfiStatus × List ℕ)
      → (fw.efi_error x.0 ≡ false → Answered fw file x.1)
      → Ends IsKernelHeader (check_read fw x)
  unfolding check_read
  check_read-Ends x answered =
      Ends-if IsKernelHeader (fw.efi_error x.0) _ _
        (λ e.
          Ends-then IsKernelHeader (perror _ _) (pure (x.0, none))
            (Ends-pure IsKernelHeader (x.0, none) e))
        (λ e.
          Ends-if IsKernelHeader (not (length x.1 == setup_header_size)) _ _
            (λ k.
              Ends-then IsKernelHeader (print _ _) (pure (invalid_parameter, none))
                (Ends-pure IsKernelHeader (invalid_parameter, none) uefi.invalid_parameter_error))
            (λ k. check_header-Ends x.1 (answered e) (ground (arith, k))))

  header_sought-Ends :
      (status : EfiStatus) (m : Machine)
      → (fw.efi_error status ≡ false
          → (earlier : Events) × (fw.set_position earlier file 497 ≡ status)
            × (m.events ≡ position_set file 497 status ∷ earlier))
      → IsKernelHeader (header_sought fw file status m).0
  unfolding header_sought read_file
  header_sought-Ends status m at = elim (Bool-cases (fw.efi_error status)) [
    | inl e ↦ rw e e
    | inr e ↦
        let (earlier, same, now) = at e in
        let x = (read_file fw file setup_header_size m).0 in
        rw e (
          Ends_run IsKernelHeader (check_read fw x)
            (check_read-Ends x
              (λ ok. answered_at fw file earlier x (rw same e) (rw (same, ← now) refl) ok))
            (read_file fw file setup_header_size m).1)
  ]

  -- `wboot_read_setup_header` returns an error and no header, or success and a header with 0xAA55 and
  -- "HdrS" whose packed fields, in the order and the widths of `setup_header_t`, are the 123 bytes
  -- that Read gave for the file right behind a SetPosition to 497. The firmware keeps what it
  -- promises.
  pub wboot_read_setup_header-IsKernelHeader :
      (m : Machine) → IsKernelHeader (wboot_read_setup_header fw file m).0
  unfolding wboot_read_setup_header set_position
  wboot_read_setup_header-IsKernelHeader m =
      let x = set_position fw file 497 m in header_sought-Ends x.0 x.1 (λ e. (m.events, refl, refl))
