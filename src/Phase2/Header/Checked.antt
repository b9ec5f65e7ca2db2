-- ===== src/Phase2/Header/Checked.antt =====
-- What `wboot_read_setup_header` of src/phase2/wboot.c accepts: what that of phase 3 does.
use wboot.Prelude.{
  ℕ, ◌≡◌, refl, arith, true, false, not, Bool-cases, inl, inr, ◌∷◌, none, some, List, codes, ◌==◌,
  text_eq, length,
}
use wboot.Efi.{Ptr, Events, position_set, Firmware, EfiStatus, success, invalid_parameter}
use wboot.Efi.Files.{read_file}
use wboot.Efi.Pages.{set_position}
use wboot.Efi.Uefi.{IsUefi}
use wboot.Stdlib.Alloc.{Machine, pure, print, perror}
use wboot.Stdlib.Alloc.Ends.{Ends, Ends_run, Ends-pure, Ends-if, Ends-then}
use wboot.Linux.{header_of, setup_header_size}
use wboot.Loader.Header.{HeaderRead, boot_magic}
use wboot.Loader.Header.Checked.{Answered, answered_at, IsKernelHeader}
use wboot.Linux.Layout.{header_bytes-header_of}
use wboot.Phase2.Header.{
  test_magic, header_bytes_read, header_position_set, wboot_read_setup_header,
}

module _ (fw : Firmware) (uefi : IsUefi fw) (file : Ptr) where
  abbrev Good : HeaderRead → Type 0
  Good = IsKernelHeader fw uefi file

  refused-Ends : (status : EfiStatus) → fw.efi_error status ≡ true → Ends Good (pure (status, none))
  refused-Ends status h = Ends-pure Good (status, none) h

  test_magic-Ends :
      (bytes : List ℕ)
      → Answered fw file bytes
      → length bytes ≡ setup_header_size
      → Ends Good (test_magic fw (header_of bytes))
  unfolding test_magic
  test_magic-Ends bytes answered whole =
      Ends-if Good (not ((header_of bytes).boot_flag == boot_magic)) _ _
        (λ e.
          Ends-then Good (print _ _) _
            (refused-Ends invalid_parameter uefi.invalid_parameter_error))
        (λ e.
          Ends-if Good (not (text_eq (header_of bytes).header (codes "HdrS"))) _ _
            (λ k.
              Ends-then Good (print _ _) _
                (refused-Ends invalid_parameter uefi.invalid_parameter_error))
            (λ k.
              Ends-pure Good (success, some (header_of bytes))
                (
                  refl,
                  ground (arith, e),
                  ground (arith, k),
                  record {
                    bytes = bytes;
                    answered = answered;
                    whole = whole;
                    laid_out = header_bytes-header_of bytes whole;
                  },
                )))

  header_bytes_read-Ends :
      (x : EfiStatus × List ℕ)
      → (fw.efi_error x.0 ≡ false → Answered fw file x.1)
      → Ends Good (header_bytes_read fw x)
  unfolding header_bytes_read
  header_bytes_read-Ends x answered =
      Ends-if Good (fw.efi_error x.0) _ _ (λ e. Ends-then Good (perror _ _) _ (refused-Ends x.0 e))
        (λ e.
          Ends-if Good (not (length x.1 == setup_header_size)) _ _
            (λ k.
              Ends-then Good (print _ _) _
                (refused-Ends invalid_parameter uefi.invalid_parameter_error))
            (λ k. test_magic-Ends x.1 (answered e) (ground (arith, k))))

  header_position_set-Ends :
      (status : EfiStatus) (m : Machine)
      → (fw.efi_error status ≡ false
          → (earlier : Events) × (fw.set_position earlier file 497 ≡ status)
            × (m.events ≡ position_set file 497 status ∷ earlier))
      → Good (header_position_set fw file status m).0
  unfolding header_position_set read_file
  header_position_set-Ends status m at = elim (Bool-cases (fw.efi_error status)) [
    | inl e ↦ rw e e
    | inr e ↦
        let (earlier, same, now) = at e in
        let x = (read_file fw file setup_header_size m).0 in
        rw e (
          Ends_run Good (header_bytes_read fw x)
            (header_bytes_read-Ends x
              (λ ok. answered_at fw file earlier x (rw same e) (rw (same, ← now) refl) ok))
            (read_file fw file setup_header_size m).1)
  ]

  -- `wboot_read_setup_header` of phase 2 returns an error and no header, or success and a header with
  -- both magic numbers whose packed fields are the bytes of a whole read at 497.
  pub wboot_read_setup_header-Good : (m : Machine) → Good (wboot_read_setup_header fw file m).0
  unfolding wboot_read_setup_header set_position
  wboot_read_setup_header-Good m =
      let x = set_position fw file 497 m in
      header_position_set-Ends x.0 x.1 (λ e. (m.events, refl, refl))
