-- ===== src/Config/Load/Finish.antt =====
-- The account of what follows the loop over the lines in src/phase3/wboot_config.c.
use wboot.Prelude.{
  ℕ, ◌+◌, ◌≡◌, arith, Bool, true, false, not, Option, none, some, List, [], ◌∷◌, Text, codes,
  length,
}
use wboot.Efi.{Ptr, Firmware}
use wboot.Efi.Files.{close_file, close_file-Balanced}
use wboot.Stdlib.Text.{strtok_r}
use wboot.Stdlib.Alloc.{Machine, free}
use wboot.Stdlib.Alloc.Balance.{
  Resource, refers, refers_file, IsReal, Balanced, free-Balanced, Balanced-trans, Balanced-refl,
  print-Balanced,
}
use wboot.Config.{WbootConfig, ConfigParseState}
use wboot.Config.Line.{LineResult}
use wboot.Config.Line.Ownership.{owned, KeepsResult}
use wboot.Config.Load.{
  Sizes, initial_config, initial_state, c_string, parse_lines, free_config_fields, missing_line,
  missing_lines, required_lines, discard, complete, finish_load, drop_data, end_lines, parse_data,
}
use wboot.Config.Load.Lines.{KeepsLines, first_passes, parse_lines-Keeps}
use wboot.Config.Load.Account.{Loads-if, Loads}

module _ (fw : Firmware) (sizes : Sizes) (r : Resource) (real : IsReal r) where
  -- `free` on each of the three texts of a config gives back what it owns.
  free_config_fields-Balanced :
      (config : WbootConfig) (m : Machine)
      → m.bs_exited ≡ false
      → Balanced r (owned r config) m 0 (free_config_fields fw sizes config m).1
  unfolding free_config_fields
  free_config_fields-Balanced config m h =
      let kernel = free-Balanced fw r 0 m h config.kernel_path.ptr real in
      let initrd =
        free-Balanced fw r 0 (free fw config.kernel_path.ptr m).1 kernel.still_running
          config.initrd_path.ptr real in
      let cmdline =
        free-Balanced fw r 0 (free fw config.initrd_path.ptr (free fw config.kernel_path.ptr m).1).1
          initrd.still_running config.cmdline.ptr real in
      record { accounts = omega arith; still_running = cmdline.still_running }

  drop_file-Balanced :
      (config_data config_file : Ptr) (m : Machine)
      → m.bs_exited ≡ false
      → Balanced r
          (refers r config_data + refers_file r config_file)
          m
          0
          (close_file config_file (free fw config_data m).1).1
  drop_file-Balanced config_data config_file m h =
      let bytes = free-Balanced fw r 0 m h config_data real in
      let file =
        close_file-Balanced fw r 0 (free fw config_data m).1 bytes.still_running config_file in
      record { accounts = omega arith; still_running = file.still_running }

  discard-Loads :
      (config_ptr config_data config_file : Ptr) (config : WbootConfig) (m : Machine)
      → m.bs_exited ≡ false
      → Loads fw sizes r real
          (refers r config_ptr + refers r config_data + refers_file r config_file + owned r config)
          m
          (discard fw sizes config_ptr config_data config_file config m)
  unfolding discard
  discard-Loads config_ptr config_data config_file config m h =
      let dropped = drop_file-Balanced config_data config_file m h in
      let m' = (close_file config_file (free fw config_data m).1).1 in
      let fields = free_config_fields-Balanced config m' dropped.still_running in
      let last =
        free-Balanced fw r 0 (free_config_fields fw sizes config m').1 fields.still_running
          config_ptr real in
      record { accounts = omega arith; still_running = last.still_running }

  missing_line-Balanced :
      (k : ℕ) (present : Bool) (message : Text) (m : Machine)
      → m.bs_exited ≡ false
      → Balanced r k m k (missing_line fw sizes present message m).1
  unfolding missing_line
  missing_line-Balanced k true message m h = Balanced-refl r k m h
  missing_line-Balanced k false message m h = print-Balanced fw r k m h message []

  pub drop_data-Loads :
      (config_ptr config_data config_file : Ptr) (m : Machine)
      → m.bs_exited ≡ false
      → Loads fw sizes r real
          (refers r config_ptr + refers r config_data + refers_file r config_file)
          m
          (drop_data fw sizes config_ptr config_data config_file m)
  unfolding drop_data
  drop_data-Loads config_ptr config_data config_file m h =
      let dropped = drop_file-Balanced config_data config_file m h in
      let m' = (close_file config_file (free fw config_data m).1).1 in
      let last = free-Balanced fw r 0 m' dropped.still_running config_ptr real in
      record { accounts = omega arith; still_running = last.still_running }

  missing_lines-Balanced :
      (k : ℕ) (lines : List (Bool × Text)) (m : Machine)
      → m.bs_exited ≡ false
      → Balanced r k m k (missing_lines fw sizes lines m).1
  unfolding missing_lines
  missing_lines-Balanced k [] m h = Balanced-refl r k m h
  missing_lines-Balanced k ((present, message) ∷ lines) m h =
      let said = missing_line-Balanced k present message m h in
      Balanced-trans said (
        missing_lines-Balanced k lines (missing_line fw sizes present message m).1
          said.still_running)

  kept-Loads :
      (config_ptr config_data config_file : Ptr) (config : WbootConfig) (m : Machine)
      → m.bs_exited ≡ false
      → Balanced r
          (refers r config_ptr + refers r config_data + refers_file r config_file + owned r config)
          m
          (refers r config_ptr + owned r config)
          (close_file config_file (free fw config_data m).1).1
  kept-Loads config_ptr config_data config_file config m h =
      let dropped = drop_file-Balanced config_data config_file m h in
      record { accounts = omega arith; still_running = dropped.still_running }

  finish_accepted-Loads :
      (config_ptr config_data config_file : Ptr) (config : WbootConfig) (state : ConfigParseState)
      (m : Machine)
      → m.bs_exited ≡ false
      → Loads fw sizes r real
          (refers r config_ptr + refers r config_data + refers_file r config_file + owned r config)
          m
          (finish_load fw sizes config_ptr config_data config_file (true, config, state) m)
  unfolding finish_load
  finish_accepted-Loads config_ptr config_data config_file config state m h =
      let k =
        refers r config_ptr + refers r config_data + refers_file r config_file + owned r config in
      let lines = required_lines fw sizes state in
      let said = missing_lines-Balanced k lines m h in
      Loads-if fw sizes r real (not (complete fw sizes state)) _ _
        (Balanced-trans said (
          discard-Loads config_ptr config_data config_file config (missing_lines fw sizes lines m).1
            said.still_running))
        (kept-Loads config_ptr config_data config_file config m h)

  -- The end of the load, after lines that owned `before`.
  finish_load-Loads :
      (config_ptr config_data config_file : Ptr) (before : ℕ) (x : LineResult) (m m' : Machine)
      → KeepsResult r before m (x, m')
      → Loads fw sizes r real
          (refers r config_ptr + refers r config_data + refers_file r config_file + before)
          m
          (finish_load fw sizes config_ptr config_data config_file x m')
  unfolding finish_load
  finish_load-Loads config_ptr config_data config_file before (false, config', state) m m' h =
      let k = discard-Loads config_ptr config_data config_file config' m' h.still_running in
      record { accounts = omega arith; still_running = k.still_running }
  finish_load-Loads config_ptr config_data config_file before (true, config', state) m m' h =
      let k =
        finish_accepted-Loads config_ptr config_data config_file config' state m' h.still_running in
      record { accounts = omega arith; still_running = k.still_running }

  end_lines-Loads :
      (config_ptr config_data config_file : Ptr) (before : ℕ) (m : Machine)
      (x : Option LineResult × Machine)
      → KeepsLines fw sizes r real before m x
      → Loads fw sizes r real
          (refers r config_ptr + refers r config_data + refers_file r config_file + before)
          m
          (end_lines fw sizes config_ptr config_data config_file x.0 x.1)
  unfolding end_lines
  end_lines-Loads config_ptr config_data config_file before m (none, m') h = absurd h
  end_lines-Loads config_ptr config_data config_file before m (some result, m') h =
      finish_load-Loads config_ptr config_data config_file before result m m' h

  pub parse_data-Loads :
      (root config_ptr config_data config_file : Ptr) (bytes : Text) (m : Machine)
      → m.bs_exited ≡ false
      → Loads fw sizes r real
          (refers r config_ptr + refers r config_data + refers_file r config_file)
          m
          (parse_data fw sizes root config_ptr config_data config_file bytes m)
  unfolding parse_data
  parse_data-Loads root config_ptr config_data config_file bytes m h =
      let s = c_string bytes in
      let t = strtok_r (some s) (codes "\n") none in
      let kept =
        parse_lines-Keeps fw sizes r real (length s + 1) (initial_config root) initial_state t 1 m
          (first_passes fw sizes r real s) h in
      let k =
        end_lines-Loads config_ptr config_data config_file (owned r (initial_config root)) m
          (parse_lines fw sizes (length s + 1) (initial_config root) initial_state t 1 m) kept in
      record { accounts = omega (arith, real); still_running = k.still_running }
