-- ===== src/Config/Line/Effect.antt =====
-- What a line of `wboot.conf` (src/phase3/wboot_config.c) changes.
use wboot.Prelude.{
  ℕ, ◌≡◌, ◌≢◌, ◌⊎◌, inr, refl, sym, ap, arith, Bool, true, false, Option, none, some, subst, Text,
  codes, if◌then◌else◌,
}
use wboot.Efi.{Firmware}
use wboot.Stdlib.Text.Compare.{IsCString}
use wboot.Stdlib.Text.Tokens.{words}
use wboot.Stdlib.Alloc.{Machine, Io, ◌>>=◌, HeapText, duplicate, strdup8}
use wboot.Config.{WbootConfig, ConfigParseState, strdup8_to16, same_text}
use wboot.Config.Values.{same_text_iff}
use wboot.Config.Line.{
  Parsed, LineResult, set_kernel, set_initrd, set_cmdline, set_mode, set_key, parse_config_mode,
}
use wboot.Config.Line.Mode.{Mode, with_mode, mode_of, parse_config_mode-mode_of}

-- The text at a pointer that is not NULL.
abbrev pub HoldsText : Text → HeapText → Type 0
HoldsText t h = (h.text ≡ t) × (h.ptr ≢ 0)

module _ (key value : Text) (config : WbootConfig) (state : ConfigParseState) where
  -- An accepted line sets the field of its key and that field's flag, and changes nothing else; a
  -- refused one changes nothing.
  abbrev pub Sets : LineResult → Type 0
  Sets (false, config', state') = (config' ≡ config) × (state' ≡ state)
  Sets (true, config', state') =
      ((key ≡ codes "kernel")
        × HoldsText value config'.kernel_path
        × (config' ≡ record config { kernel_path = config'.kernel_path })
        × (state' ≡ record state { has_kernel = true }))
      ⊎ ((key ≡ codes "initrd")
          × HoldsText value config'.initrd_path
          × (config' ≡ record config { initrd_path = config'.initrd_path })
          × (state' ≡ record state { has_initrd = true }))
      ⊎ ((key ≡ codes "cmdline")
          × HoldsText value config'.cmdline
          × (config' ≡ record config { cmdline = config'.cmdline })
          × (state' ≡ record state { has_cmdline = true }))
      ⊎ ((key ≡ codes "mode")
          × (with_mode config (mode_of (words (codes " \t") value)) ≡ (true, config'))
          × (state' ≡ record state { has_mode = true }))

module _ (fw : Firmware) (config : WbootConfig) (state : ConfigParseState) where
  duplicate_lem :
      (size : ℕ) (src : Text) (m : Machine)
      → (duplicate fw size src m).0.ptr ≢ 0
      → (duplicate fw size src m).0.text ≡ src
  unfolding duplicate
  duplicate_lem size src m h = ground arith

  set_kernel-Sets :
      (value : Text) (kernel : HeapText) (m : Machine)
      → (kernel.ptr ≢ 0 → kernel.text ≡ value)
      → Sets (codes "kernel") value config state (set_kernel fw config state kernel m).0
  unfolding set_kernel
  set_kernel-Sets value kernel m h = ground arith

  set_initrd-Sets :
      (value : Text) (initrd : HeapText) (m : Machine)
      → (initrd.ptr ≢ 0 → initrd.text ≡ value)
      → Sets (codes "initrd") value config state (set_initrd fw config state initrd m).0
  unfolding set_initrd
  set_initrd-Sets value initrd m h = ground arith

  set_cmdline-Sets :
      (value : Text) (cmdline : HeapText) (m : Machine)
      → (cmdline.ptr ≢ 0 → cmdline.text ≡ value)
      → Sets (codes "cmdline") value config state (set_cmdline fw config state cmdline m).0
  unfolding set_cmdline
  set_cmdline-Sets value cmdline m h = ground arith

  set_mode-Sets :
      (value : Text) (line_no : ℕ) (m : Machine)
      → Sets
          (codes "mode")
          value
          config
          state
          ((parse_config_mode config value line_no >>= set_mode state) m).0
  set_mode-Sets value line_no m =
      through (parse_config_mode config value line_no m)
        (parse_config_mode-mode_of config value line_no m)
    where
      through :
          (r : Parsed × Machine)
          → r.0 ≡ with_mode config (mode_of (words (codes " \t") value))
          → Sets (codes "mode") value config state (set_mode state r.0 r.1).0
      through ((true, config'), m') e = unfold set_mode in inr (inr (inr (refl, sym e, refl)))
      through ((false, config'), m') e =
          unfold set_mode in (refused (mode_of (words (codes " \t") value)) e, refl)
        where
          refused : (v : Option Mode) → (false, config') ≡ with_mode config v → config' ≡ config
          refused none e = ap (λ (r : Parsed). r.1) e
          refused (some v) e = absurd (cc)

  Sets-if :
      (b : Bool) (key k value : Text) (m : Machine) (c d : Io LineResult)
      → (b ≡ true → key ≡ k)
      → Sets k value config state (c m).0
      → Sets key value config state (d m).0
      → Sets key value config state ((if b then c else d) m).0
  Sets-if true key k value m c d e h other =
      subst (λ (j : Text). Sets j value config state (c m).0) (sym (e refl)) h
  Sets-if false key k value m c d e h other = other

  -- The keys are told apart by `strcmp8`: an accepted value sets what its key says.
  pub set_key-Sets :
      (key value : Text) (line_no : ℕ) (m : Machine)
      → IsCString key
      → Sets key value config state (set_key fw config state key value line_no m).0
  unfolding set_key strdup8_to16 strdup8
  set_key-Sets key value line_no m nul_free =
      Sets-if (same_text key (codes "kernel")) key _ value m _ _
        (same_text_iff key (codes "kernel") nul_free (omega arith)).0
        (set_kernel-Sets value _ _ (duplicate_lem _ value m))
        (Sets-if (same_text key (codes "initrd")) key _ value m _ _
          (same_text_iff key (codes "initrd") nul_free (omega arith)).0
          (set_initrd-Sets value _ _ (duplicate_lem _ value m))
          (Sets-if (same_text key (codes "cmdline")) key _ value m _ _
            (same_text_iff key (codes "cmdline") nul_free (omega arith)).0
            (set_cmdline-Sets value _ _ (duplicate_lem _ value m))
            (Sets-if (same_text key (codes "mode")) key _ value m _ _
              (same_text_iff key (codes "mode") nul_free (omega arith)).0
              (set_mode-Sets value line_no m) (refl, refl))))
