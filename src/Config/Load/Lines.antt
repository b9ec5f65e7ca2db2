-- ===== src/Config/Load/Lines.antt =====
-- The loop over the lines in `wboot_load_config` of src/phase3/wboot_config.c: its end, and its account.
use wboot.Prelude.{
  ℕ, zero, suc, ◌+◌, ◌≡◌, ◌≤◌, ◌<◌, refl, arith, false, Option, none, some, Text, codes, length,
}
use wboot.Efi.{Firmware}
use wboot.Stdlib.Text.{strtok_r}
use wboot.Stdlib.Text.Tokens.{NextWord, strtok_r-NextWord, saved_length}
use wboot.Stdlib.Alloc.{Machine}
use wboot.Stdlib.Alloc.Balance.{Resource, IsReal}
use wboot.Config.{WbootConfig, ConfigParseState}
use wboot.Config.Line.{LineResult, parse_config_line}
use wboot.Config.Line.Ownership.{owned, KeepsResult, parse_config_line-Keeps}
use wboot.Config.Load.{Sizes, parse_lines}

module _ (fw : Firmware) (sizes : Sizes) (r : Resource) (real : IsReal r) where
  -- The loop comes to its end, and the config owns what is out.
  abbrev pub KeepsLines : ℕ → Machine → Option LineResult × Machine → Type 0
  KeepsLines before m (none, m') = ⊥
  KeepsLines before m (some result, m') = KeepsResult r before m (result, m')

  -- How many passes the loop can still take.
  abbrev passes_left : Option Text × Option Text → ℕ
  passes_left (none, saveptr) = 0
  passes_left (some line, saveptr) = suc (saved_length (codes "\n") saveptr)

  NextWord-passes_left :
      (s : Text) (t : Option Text × Option Text)
      → NextWord (codes "\n") s t
      → passes_left t ≤ length s
  NextWord-passes_left s (none, saveptr) h = ground arith
  NextWord-passes_left s (some line, saveptr) (e, h) = h

  passes_left-strtok_r :
      (saveptr : Option Text)
      → passes_left (strtok_r none (codes "\n") saveptr) ≤ saved_length (codes "\n") saveptr
  unfolding strtok_r
  passes_left-strtok_r none = ground arith
  passes_left-strtok_r (some s) =
      NextWord-passes_left s (strtok_r none (codes "\n") (some s))
        (strtok_r-NextWord (codes "\n") s none)

  fewer :
      (saveptr : Option Text) (fuel : ℕ)
      → suc (saved_length (codes "\n") saveptr) < suc fuel
      → passes_left (strtok_r none (codes "\n") saveptr) < fuel
  fewer saveptr fuel h = let k = passes_left-strtok_r saveptr in omega arith

  pub parse_lines-Keeps :
      (fuel : ℕ) (config : WbootConfig) (state : ConfigParseState) (t : Option Text × Option Text)
      (line_no : ℕ) (m : Machine)
      → passes_left t < fuel
      → m.bs_exited ≡ false
      → KeepsLines (owned r config) m (parse_lines fw sizes fuel config state t line_no m)
  unfolding parse_lines
  parse_lines-Keeps zero config state t line_no m lt h = omega arith
  parse_lines-Keeps (suc fuel) config state (none, saveptr) line_no m lt h = record {
    accounts = refl;
    still_running = h;
  }
  parse_lines-Keeps (suc fuel) config state (some line, saveptr) line_no m lt h = ground (
    arith,
    parse_config_line-Keeps fw config state r real line line_no m h,
    parse_lines-Keeps fuel (parse_config_line fw config state line line_no m).0.1
        (parse_config_line fw config state line line_no m).0.2 (strtok_r none (codes "\n") saveptr)
        (line_no + 1) (parse_config_line fw config state line line_no m).1 (fewer saveptr fuel lt),
  )

  pub first_passes : (s : Text) → passes_left (strtok_r (some s) (codes "\n") none) < length s + 1
  first_passes s =
      let k =
        NextWord-passes_left s (strtok_r (some s) (codes "\n") none)
          (strtok_r-NextWord (codes "\n") s none) in
      omega arith
