-- ===== src/Loader/BootParams/Account.antt =====
-- The account of `wboot_prepare_bootparams` of src/phase3/wboot.c with the firmware.
use wboot.Prelude.{ℕ, ◌+◌, ◌≡◌, refl, arith, false, Option, none, some}
use wboot.Efi.{Ptr, Firmware}
use wboot.Stdlib.Alloc.{Machine, pure, HeapText}
use wboot.Stdlib.Alloc.Balance.{Resource, refers, IsReal, Balanced}
use wboot.Stdlib.Alloc.Owes.{
  Owes, Owes-run, Owes-pure, Owes-print, Owes-malloc, Owes-null, Owes-get_errno,
}
use wboot.Linux.{SetupHeader}
use wboot.Linux.BootParams.{BootParams, boot_params_size}
use wboot.Loader.BootParams.{
  ParamsAt, no_params, params_allocated, params_for, wboot_prepare_bootparams,
}

module _ (fw : Firmware) (r : Resource) (real : IsReal r) where
  abbrev pub params_refs : Option ParamsAt → ℕ
  params_refs none = 0
  params_refs (some p) = refers r p.ptr

  params_allocated-Owes :
      (params : BootParams) (p : Ptr)
      → Owes fw r real params_refs (0 + refers r p) (params_allocated fw params p)
  unfolding params_allocated no_params
  params_allocated-Owes params p =
      Owes-null fw r real params_refs p _ _ 0
        (Owes-get_errno fw r real params_refs 0 (no_params fw) (λ errno.
          Owes-print fw r real params_refs _ _ (pure none) 0
            (Owes-pure fw r real params_refs none 0 refl)))
        (Owes-pure fw r real params_refs (some (record { ptr = p; params = params })) _
          (omega arith))

  -- With boot services up, `wboot_prepare_bootparams` keeps no buffer but the parameters that it
  -- returns.
  pub wboot_prepare_bootparams-Balanced :
      (cmdline : HeapText) (header : SetupHeader) (initramfs : Ptr) (size : ℕ) (m : Machine)
      → m.bs_exited ≡ false
      → let (result, m') = wboot_prepare_bootparams fw cmdline header initramfs size m in
        Balanced r 0 m (params_refs result) m'
  unfolding wboot_prepare_bootparams
  wboot_prepare_bootparams-Balanced cmdline header initramfs size m h =
      let params = params_for header cmdline initramfs size in
      Owes-run fw r real params_refs 0 _
        (Owes-malloc fw r real params_refs boot_params_size 0 (params_allocated fw params)
          (params_allocated-Owes params))
        m h
