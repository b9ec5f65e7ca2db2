-- ===== src/Config/Line/Ownership.antt =====
-- The account of a line of `wboot.conf` (src/phase3/wboot_config.c) with the heap.
use wboot.Prelude.{
  ℕ, ◌+◌, ◌≡◌, refl, arith, Bool, true, false, Text, codes, [], ◌∷◌, ◌==◌, if◌then◌else◌,
}
use wboot.Efi.{Firmware}
use wboot.Stdlib.Alloc.{Machine, Io, ◌>>=◌, HeapText, strdup8, duplicate, perror}
use wboot.Stdlib.Alloc.Balance.{
  Balanced, Resource, refers, IsReal, free-Balanced, duplicate-Balanced, Balanced-trans,
}
use wboot.Config.{WbootConfig, ConfigParseState, strdup8_to16, same_text, trim_trailing_ws}
use wboot.Config.Line.{
  Parsed, LineResult, set_kernel, set_initrd, set_cmdline, set_mode, set_key, set_value,
  set_trimmed, missing_value, skip_ws, split_key, parse_entry, parse_config_line, parse_config_mode,
}

-- How often the config's fields refer to the resource.
abbrev pub owned : Resource → WbootConfig → ℕ
owned r config =
    refers r config.kernel_path.ptr + refers r config.initrd_path.ptr + refers r config.cmdline.ptr

-- A call that leaves a line's result: its config owns what is out.
abbrev pub KeepsResult : Resource → ℕ → Machine → LineResult × Machine → Type 0
KeepsResult r before m ((ok, config', state'), m') = Balanced r before m (owned r config') m'

module _ (fw : Firmware) (config : WbootConfig) (state : ConfigParseState) (r : Resource)
    (real : IsReal r) where
  -- Whatever a call returns, the config that it leaves owns what is still out.
  set_kernel-Balanced :
      (kernel : HeapText) (m : Machine)
      → m.bs_exited ≡ false
      → let ((ok, config', state'), m') = set_kernel fw config state kernel m in
        Balanced r (owned r config + refers r kernel.ptr) m (owned r config') m'
  unfolding set_kernel perror
  set_kernel-Balanced kernel m h = ground (
    arith,
    free-Balanced fw r (owned r (record config { kernel_path = kernel })) m h config.kernel_path.ptr
        real,
  )

  set_initrd-Balanced :
      (initrd : HeapText) (m : Machine)
      → m.bs_exited ≡ false
      → let ((ok, config', state'), m') = set_initrd fw config state initrd m in
        Balanced r (owned r config + refers r initrd.ptr) m (owned r config') m'
  unfolding set_initrd perror
  set_initrd-Balanced initrd m h = ground (
    arith,
    free-Balanced fw r (owned r (record config { initrd_path = initrd })) m h config.initrd_path.ptr
        real,
  )

  set_cmdline-Balanced :
      (cmdline : HeapText) (m : Machine)
      → m.bs_exited ≡ false
      → let ((ok, config', state'), m') = set_cmdline fw config state cmdline m in
        Balanced r (owned r config + refers r cmdline.ptr) m (owned r config') m'
  unfolding set_cmdline perror
  set_cmdline-Balanced cmdline m h = ground (
    arith,
    free-Balanced fw r (owned r (record config { cmdline = cmdline })) m h config.cmdline.ptr real,
  )

  abbrev Keeps : ℕ → Machine → LineResult × Machine → Type 0
  Keeps = KeepsResult r

  abbrev KeepsParsed : Machine → Parsed × Machine → Type 0
  KeepsParsed m ((ok, config'), m') = Balanced r (owned r config) m (owned r config') m'

  parse_config_mode-Keeps :
      (value : Text) (line_no : ℕ) (m : Machine)
      → m.bs_exited ≡ false
      → KeepsParsed m (parse_config_mode config value line_no m)
  unfolding parse_config_mode
  parse_config_mode-Keeps value line_no m h = ground arith

  -- The copy of the value, and what the key does with it.
  duplicate-Keeps :
      (size : ℕ) (src : Text) (m : Machine) (f : HeapText → Io LineResult)
      → m.bs_exited ≡ false
      → ((copy : HeapText) (m' : Machine)
          → m'.bs_exited ≡ false
          → Keeps (owned r config + refers r copy.ptr) m' (f copy m'))
      → Keeps (owned r config) m ((duplicate fw size src >>= f) m)
  duplicate-Keeps size src m f h k =
      let copied = duplicate-Balanced fw r (owned r config) m h size src real in
      Balanced-trans copied
        (k (duplicate fw size src m).0 (duplicate fw size src m).1 copied.still_running)

  Keeps-if :
      (b : Bool) (before : ℕ) (m : Machine) (c d : Io LineResult)
      → Keeps before m (c m)
      → Keeps before m (d m)
      → Keeps before m ((if b then c else d) m)
  Keeps-if true before m c d h k = h
  Keeps-if false before m c d h k = k

  set_mode-Keeps :
      (value : Text) (line_no : ℕ) (m : Machine)
      → m.bs_exited ≡ false
      → Keeps (owned r config) m ((parse_config_mode config value line_no >>= set_mode state) m)
  set_mode-Keeps value line_no m h =
      through (parse_config_mode config value line_no m) (parse_config_mode-Keeps value line_no m h)
    where
      through :
          (parsed : Parsed × Machine)
          → KeepsParsed m parsed
          → Keeps (owned r config) m (set_mode state parsed.0 parsed.1)
      through ((true, config'), m') k = unfold set_mode in k
      through ((false, config'), m') k = unfold set_mode in k

  set_key-Keeps :
      (key value : Text) (line_no : ℕ) (m : Machine)
      → m.bs_exited ≡ false
      → Keeps (owned r config) m (set_key fw config state key value line_no m)
  unfolding set_key strdup8_to16 strdup8
  set_key-Keeps key value line_no m h =
      Keeps-if (same_text key (codes "kernel")) _ m _ _
        (duplicate-Keeps _ value m (set_kernel fw config state) h set_kernel-Balanced)
        (Keeps-if (same_text key (codes "initrd")) _ m _ _
          (duplicate-Keeps _ value m (set_initrd fw config state) h set_initrd-Balanced)
          (Keeps-if (same_text key (codes "cmdline")) _ m _ _
            (duplicate-Keeps _ value m (set_cmdline fw config state) h set_cmdline-Balanced)
            (Keeps-if (same_text key (codes "mode")) _ m _ _ (set_mode-Keeps value line_no m h)
              (record { accounts = refl; still_running = h }))))

  set_value-Keeps :
      (key value : Text) (line_no : ℕ) (m : Machine)
      → m.bs_exited ≡ false
      → Keeps (owned r config) m (set_value fw config state key value line_no m)
  unfolding set_value set_trimmed missing_value
  set_value-Keeps key [] line_no m h = record { accounts = refl; still_running = h }
  set_value-Keeps key (blank ∷ value) line_no m h = trimmed (trim_trailing_ws (skip_ws value))
    where
      trimmed :
          (value : Text)
          → Keeps (owned r config) m (set_trimmed fw config state key value line_no m)
      trimmed [] = record { accounts = refl; still_running = h }
      trimmed (c ∷ value) = set_key-Keeps key (c ∷ value) line_no m h

  parse_entry-Keeps :
      (line : Text) (line_no : ℕ) (m : Machine)
      → m.bs_exited ≡ false
      → Keeps (owned r config) m (parse_entry fw config state line line_no m)
  unfolding parse_entry
  parse_entry-Keeps [] line_no m h = record { accounts = refl; still_running = h }
  parse_entry-Keeps (c ∷ line) line_no m h =
      Keeps-if (c == b'#') _ m _ _ (record { accounts = refl; still_running = h })
        (set_value-Keeps (split_key (c ∷ line)).0 (split_key (c ∷ line)).1 line_no m h)

  -- A line loses no buffer and frees none twice, whether it is accepted or not: of every buffer, what
  -- the pool lent and did not get back is what the config's fields hold; it opens no file.
  pub parse_config_line-Keeps :
      (line : Text) (line_no : ℕ) (m : Machine)
      → m.bs_exited ≡ false
      → Keeps (owned r config) m (parse_config_line fw config state line line_no m)
  parse_config_line-Keeps line line_no m h =
      unfold parse_config_line in (parse_entry-Keeps (skip_ws line) line_no m h)
