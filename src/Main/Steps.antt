-- ===== src/Main/Steps.antt =====
-- The steps of `efi_main` of src/phase3/main.c, from the load of the initial file system to the hand-off.
use wboot.Prelude.{
  ℕ, ◌+◌, ◌≡◌, ◌≤◌, refl, sym, subst, ap, ◌∙◌, inl, inr, Bool, true, false, Option, none, some,
  if◌then◌else◌, length,
}
use wboot.Stdlib.Memory.{Memory}
use wboot.Stdlib.Alloc.{Machine, pure, ◌>>=◌, print, perror}
use wboot.Stdlib.Alloc.Ends.{Ends, Ends_run, Ends-each, Ends-pure, Ends-if, Ends-then, Ends-chain}
use wboot.Efi.{EfiStatus, buffer_too_small}
use wboot.Config.{WbootConfig}
use wboot.Linux.{SetupHeader, number_at}
use wboot.Linux.BootParams.{BootParams}
use wboot.Loader.Decompress.{Decompressed}
use wboot.Loader.Initramfs.{InitramfsResult}
use wboot.Loader.Initramfs.Whole.{IsInitramfs}
use wboot.Loader.BootParams.{ParamsAt}
use wboot.Loader.BootParams.Kept.{HasLoaderHeader, wboot_prepare_bootparams-HasLoaderHeader}
use wboot.Loader.AllocateE820.{ExtBuffer, E820Result, wboot_allocate_e820}
use wboot.Loader.AllocateE820.Room.{ext_ptr, ext_size}
use wboot.Loader.ExitBs.{Handover, ExitResult, wboot_exit_bs}
use wboot.Loader.ExitBs.Kept.{KeepsHeader, wboot_exit_bs-KeepsHeader}
use wboot.Graphics.Setup.{GraphicsResult, wboot_setup_graphics}
use wboot.Graphics.Setup.Kept.{HasHeader, wboot_setup_graphics-HasHeader}
use wboot.Memmap.{Translated, wboot_translate_memmap}
use wboot.Memmap.Counted.{Counted, translate-Counted}
use wboot.Kernel.{read_word, get_kernel_entry}
use wboot.Kernel.Segments.{get_kernel_entry-e_entry}
use wboot.Main.{
  Platform, Loaded, exited, handed_off, unset_pointer, out_of_fuel, with_bytes, translated_params,
  entered, translated, left_services, allocated_e820, set_up_graphics, prepared, loaded_initramfs,
}
use wboot.Main.Bootable.{IsHeader, IsLoaded, header_for, IsAllocated, HasLeft, points_at, IsEnd}

-- The entry that is returned is the number at offset 24 of the kernel's header.
abbrev ReadEntry : ℕ → Option (ℕ × Memory) → Type 0
ReadEntry kernel none = Unit
ReadEntry kernel (some (entry, m)) = entry ≡ read_word 8 (kernel + 24) m

get_kernel_entry-ReadEntry :
    (kernel : ℕ) (m : Memory) → ReadEntry kernel (get_kernel_entry kernel m)
get_kernel_entry-ReadEntry kernel m =
    let (m', eq) = get_kernel_entry-e_entry kernel m in subst (ReadEntry kernel) (sym eq) refl

params-Counted :
    (efi_error : EfiStatus → Bool) (params : BootParams) (t : Translated)
    → efi_error buffer_too_small ≡ true
    → efi_error t.status ≡ false
    → Counted (some t)
    → some (translated_params params t).e820_entries ≡ t.e820_entries
params-Counted efi_error params t small fine (inl same) = absurd (cc)
params-Counted efi_error params t small fine (inr (n, same)) = rw same refl

module _ (p : Platform) where
  -- What holds behind the translation, of the map that it was given.
  record IsTranslated (l : Loaded) (ext : Option ExtBuffer) (h : Handover) (x : Option Translated)
      : Type 0 where
    good : IsLoaded p l
    allocated : IsAllocated p ext
    left : HasLeft p (header_for p l) h
    told : h.params.hdr ≡ header_for p l
    from_map :
        wboot_translate_memmap 123 p.fuel
          (ext_ptr ext)
          (ext_size ext)
          (points_at p h.params.efi_info h)
          (header_for p l).setup_data
          p.setup_store
        ≡ x
    counts : Counted x

  entered-Ends :
      (l : Loaded) (ext : Option ExtBuffer) (h : Handover) (t : Translated)
      (x : Option (ℕ × Memory))
      → IsTranslated l ext h (some t)
      → p.fw.efi_error t.status ≡ false
      → some (translated_params h.params t).e820_entries ≡ t.e820_entries
      → get_kernel_entry l.kernel.ptr (with_bytes l.kernel.ptr l.kernel.bytes p.memory) ≡ x
      → ReadEntry l.kernel.ptr x
      → Ends (IsEnd p) (entered p l ext h t x)
  unfolding entered
  entered-Ends l ext h t none done fine counted same read = Ends-pure (IsEnd p) out_of_fuel tt
  entered-Ends l ext h t (some (entry, memory)) done fine counted same read =
      Ends-then (IsEnd p) (print _ _) _ (
        Ends-pure (IsEnd p)
          (handed_off (record {
            loaded = l;
            ext = ext;
            handover = h;
            translated = t;
            params = translated_params h.params t;
            entry = entry;
            memory = memory;
          }))
          (record {
            all_loaded = done.good;
            ext_allocated = done.allocated;
            left = done.left;
            map_translated = done.from_map;
            no_error = fine;
            told = ap (λ (s : SetupHeader). record s { setup_data = t.setup_data }) done.told;
            counted = counted;
            placed = same;
            entry_read = read;
          }))

  translated-Ends :
      (l : Loaded) (ext : Option ExtBuffer) (h : Handover) (x : Option Translated)
      → p.fw.efi_error buffer_too_small ≡ true
      → IsTranslated l ext h x
      → Ends (IsEnd p) (translated p l ext h x)
  unfolding translated
  translated-Ends l ext h none too_small done = Ends-pure (IsEnd p) out_of_fuel tt
  translated-Ends l ext h (some t) too_small done =
      Ends-if (IsEnd p) (p.fw.efi_error t.status) _ _
        (λ e.
          Ends-then (IsEnd p) (perror _ _) (pure (exited t.status))
            (Ends-pure (IsEnd p) (exited t.status) tt))
        (λ e.
          let memory = with_bytes l.kernel.ptr l.kernel.bytes p.memory in
          entered-Ends l ext h t _ done e
            (params-Counted p.fw.efi_error h.params t too_small e done.counts) refl
            (get_kernel_entry-ReadEntry l.kernel.ptr memory))

  left_services-Ends :
      (l : Loaded) (ext : Option ExtBuffer) (status : EfiStatus) (params : BootParams)
      (x : ExitResult) (m : Machine)
      → p.fw.efi_error buffer_too_small ≡ true
      → IsLoaded p l
      → IsAllocated p ext
      → params.hdr ≡ header_for p l
      → (wboot_exit_bs p.fw p.system_table params m).0 ≡ x
      → KeepsHeader p.fw p.system_table params x
      → Ends (IsEnd p) (left_services p l ext status x)
  unfolding left_services
  left_services-Ends l ext status params none m small good allocated told was kept =
      Ends-then (IsEnd p) (print _ _) (pure (exited status))
        (Ends-pure (IsEnd p) (exited status) tt)
  left_services-Ends l ext status params (some h) m small good allocated told was kept =
      Ends-then (IsEnd p) (print _ _) _ (
        Ends-then (IsEnd p) (print _ _) _ (
          translated-Ends l ext h _ small (record {
            good = good;
            allocated = allocated;
            left = (m, params, told, was);
            told = kept ∙ told;
            from_map =
                ap
                  (λ (s : SetupHeader).
                    wboot_translate_memmap 123 p.fuel (ext_ptr ext) (ext_size ext)
                      (points_at p h.params.efi_info h) s.setup_data p.setup_store)
                  (sym (kept ∙ told));
            counts =
                translate-Counted 123 p.fuel (ext_ptr ext) (ext_size ext)
                  (points_at p h.params.efi_info h) h.params.hdr.setup_data p.setup_store;
          })))

  allocated_e820-Ends :
      (l : Loaded) (params : BootParams) (x : E820Result) (m : Machine)
      → p.fw.efi_error buffer_too_small ≡ true
      → IsLoaded p l
      → params.hdr ≡ header_for p l
      → (wboot_allocate_e820 p.fw m).0 ≡ x
      → Ends (IsEnd p) (allocated_e820 p l params x)
  unfolding allocated_e820
  allocated_e820-Ends l params x m small good told was =
      Ends-if (IsEnd p) (p.fw.efi_error x.0) _ _
        (λ e.
          Ends-then (IsEnd p) (perror _ _) (pure (exited x.0))
            (Ends-pure (IsEnd p) (exited x.0) tt))
        (λ e. Ends-then (IsEnd p) (print _ _) _ (
          Ends-each (IsEnd p)
            (wboot_exit_bs p.fw p.system_table params >>= left_services p l x.1 x.0)
            (λ m'.
              let left = wboot_exit_bs p.fw p.system_table params m' in
              Ends_run (IsEnd p) (left_services p l x.1 x.0 left.0)
                (left_services-Ends l x.1 x.0 params left.0 m' small good (m, x.0, was, e) told refl
                  (Ends_run (KeepsHeader p.fw p.system_table params)
                    (wboot_exit_bs p.fw p.system_table params)
                    (wboot_exit_bs-KeepsHeader p.fw p.system_table params) m'))
                left.1)))

  set_up_graphics-Ends :
      (l : Loaded) (x : GraphicsResult)
      → p.fw.efi_error buffer_too_small ≡ true
      → IsLoaded p l
      → x.1.hdr ≡ header_for p l
      → Ends (IsEnd p) (set_up_graphics p l x)
  unfolding set_up_graphics
  set_up_graphics-Ends l x small good told =
      Ends-if (IsEnd p) (p.fw.efi_error x.0) _ _
        (λ e.
          Ends-then (IsEnd p) (perror _ _) (pure (exited x.0))
            (Ends-pure (IsEnd p) (exited x.0) tt))
        (λ e. Ends-then (IsEnd p) (print _ _) _ (
          Ends-each (IsEnd p) (wboot_allocate_e820 p.fw >>= allocated_e820 p l x.1) (λ m.
            let y = wboot_allocate_e820 p.fw m in
            Ends_run (IsEnd p) (allocated_e820 p l x.1 y.0)
              (allocated_e820-Ends l x.1 y.0 m small good told refl) y.1)))

  prepared-Ends :
      (l : Loaded) (status : EfiStatus) (x : Option ParamsAt)
      → p.fw.efi_error buffer_too_small ≡ true
      → IsLoaded p l
      → HasLoaderHeader p.fw l.config.cmdline l.header l.initramfs.ptr (length l.initramfs.bytes) x
      → Ends (IsEnd p) (prepared p l status x)
  unfolding prepared
  prepared-Ends l status none small good told =
      Ends-then (IsEnd p) (print _ _) (pure (exited status))
        (Ends-pure (IsEnd p) (exited status) tt)
  prepared-Ends l status (some x) small good told = Ends-then (IsEnd p) (print _ _) _ (
      Ends-chain (IsEnd p) (HasHeader p.fw p.display l.config (header_for p l))
        (wboot_setup_graphics p.fw p.display l.config x.params) (set_up_graphics p l)
        (wboot_setup_graphics-HasHeader p.fw p.display l.config (header_for p l) x.params told)
        (λ y h. set_up_graphics-Ends l y small good h))

  -- A result without a pointer, of a call that failed.
  pub refused-Ends :
      (status : EfiStatus)
      → p.fw.efi_error status ≡ true
      → Ends (IsEnd p) (if p.fw.efi_error status then pure (exited status) else pure unset_pointer)
  refused-Ends status h = rw h (Ends-pure (IsEnd p) (exited status) tt)

  pub initramfs_loaded-Ends :
      (config : WbootConfig) (header : SetupHeader) (kernel : Decompressed) (x : InitramfsResult)
      → p.fw.efi_error buffer_too_small ≡ true
      → IsHeader p config header
      → number_at 0 4 kernel.bytes ≡ 0x464C457F
      → length kernel.bytes ≤ header.init_size
      → IsInitramfs p.fw config x
      → Ends (IsEnd p) (loaded_initramfs p config header kernel x)
  unfolding loaded_initramfs
  initramfs_loaded-Ends config header kernel (status, none) small good elf fits h =
      refused-Ends status h
  initramfs_loaded-Ends config header kernel (status, some image) small good elf fits (ok, whole) =
      let l : Loaded = record {
        config = config;
        header = header;
        kernel = kernel;
        initramfs = image;
      } in
      Ends-if (IsEnd p) (p.fw.efi_error status) _ _ (λ e. Ends-pure (IsEnd p) (exited status) tt)
        (λ e. Ends-then (IsEnd p) (print _ _) _ (
          Ends-chain (IsEnd p) _ _ (prepared p l status)
            (wboot_prepare_bootparams-HasLoaderHeader p.fw config.cmdline header image.ptr
              (length image.bytes))
            (λ y told.
              prepared-Ends l status y small
                (record {
                  header_read = good;
                  kernel_elf = elf;
                  kernel_fits = fits;
                  image_whole = whole;
                })
                told)))
