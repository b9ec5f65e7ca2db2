-- ===== src/Config/Load.antt =====
-- `wboot_load_config` of src/phase3/wboot_config.c: the file `wboot.conf` of one volume.
pub mod Account
pub mod Lines
pub mod Finish
pub mod Ownership
use wboot.Prelude.{
  ℕ, zero, suc, ◌+◌, ◌*◌, ◌%◌, Bool, true, false, not, ◌&&◌, ◌||◌, Option, none, some, List, [],
  ◌∷◌, Text, codes, ◌==◌, if◌then◌else◌, length,
}
use wboot.Prelude.Int.{ℤ, negsuc}
use wboot.Prelude.Words.{u64_mod}
use wboot.Stdlib.Text.{strtok_r}
use wboot.Stdlib.Printf.{Arg, word}
use wboot.Stdlib.Alloc.{
  Machine, Io, pure, ◌>>=◌, ◌>>◌, print, perror, get_errno, null_text, malloc, free,
}
use wboot.Efi.{Ptr, Firmware, EfiStatus}
use wboot.Efi.Files.{open_file, get_info, read_file, close_file}
use wboot.Config.{WbootConfig, ConfigParseState}
use wboot.Config.Line.{LineResult, parse_config_line}

-- `sizeof(wboot_config_t)` and `sizeof(EFI_FILE_INFO)`: the sizes are the compiler's.
pub record Sizes : Type 0 where
  pub config : ℕ
  pub file_info : ℕ

-- What `wboot_load_config` returns: a pointer, and what it leads to; NULL is `none`.
pub record LoadedConfig : Type 0 where
  pub ptr : Ptr
  pub config : WbootConfig

-- The config before any line is read.
abbrev pub initial_config : Ptr → WbootConfig
initial_config root = record {
  kernel_path = null_text;
  initrd_path = null_text;
  cmdline = null_text;
  mode_width = 0;
  mode_height = 0;
  mode_format = negsuc 0;
  mode_depth = 0;
  root = root;
}

abbrev pub initial_state : ConfigParseState
initial_state = record {
  has_kernel = false;
  has_initrd = false;
  has_cmdline = false;
  has_mode = false;
}

-- The C string that a buffer of bytes begins with: the bytes before a NUL.
unfoldable pub c_string : List ℕ → Text
c_string [] = []
c_string (c ∷ bytes) = if c == 0 then [] else c ∷ c_string bytes

module _ (fw : Firmware) (sizes : Sizes) where
  -- `while (line != NULL)`, at a line and `saveptr`; `none` means that the fuel ran out.
  unfoldable pub parse_lines :
      ℕ → WbootConfig → ConfigParseState → Option Text × Option Text → ℕ → Io (Option LineResult)
  parse_lines zero config state r line_no = pure none
  parse_lines (suc fuel) config state (none, saveptr) line_no = pure (some (true, config, state))
  parse_lines (suc fuel) config state (some line, saveptr) line_no = do
    (accepted, config', state') ← parse_config_line fw config state line line_no
    let next = parse_lines fuel config' state' (strtok_r none (codes "\n") saveptr) (line_no + 1)
    if accepted then next else pure (some (false, config', state'))

  -- `free_config_fields`; the fields that it sets to NULL go with the config that is freed next.
  free_config_fields : WbootConfig → Io (Unit {0})
  free_config_fields config = do
    free fw config.kernel_path.ptr
    free fw config.initrd_path.ptr
    free fw config.cmdline.ptr

  missing_line : Bool → Text → Io (Unit {0})
  missing_line true message = pure tt
  missing_line false message = print message []

  -- The four `if (!state.has_…)`: what each asks for, and what it says.
  required_lines : ConfigParseState → List (Bool × Text)
  required_lines state =
      (state.has_kernel, codes "error parsing wboot.conf: missing required line 'kernel'\r\n")
      ∷ (state.has_initrd, codes "error parsing wboot.conf: missing required line 'initrd'\r\n")
      ∷ (state.has_cmdline, codes "error parsing wboot.conf: missing required line 'cmdline'\r\n")
      ∷ (state.has_mode, codes "error parsing wboot.conf: missing required line 'mode'\r\n")
      ∷ []

  missing_lines : List (Bool × Text) → Io (Unit {0})
  missing_lines [] = pure tt
  missing_lines ((present, message) ∷ lines) = missing_line present message >> missing_lines lines

  -- The end of a refused file: everything goes back.
  discard : Ptr → Ptr → Ptr → WbootConfig → Io (Option LoadedConfig)
  discard config_ptr config_data config_file config = do
    free fw config_data
    close_file config_file
    free_config_fields config
    free fw config_ptr
    pure none

  complete : ConfigParseState → Bool
  complete state = state.has_kernel && state.has_initrd && state.has_cmdline && state.has_mode

  -- Behind the loop.
  finish_load : Ptr → Ptr → Ptr → LineResult → Io (Option LoadedConfig)
  finish_load config_ptr config_data config_file (false, config, state) =
      discard config_ptr config_data config_file config
  finish_load config_ptr config_data config_file (true, config, state) =
      if not (complete state)
      then (do
        missing_lines (required_lines state)
        discard config_ptr config_data config_file config)
      else (do
        free fw config_data
        close_file config_file
        pure (some (record { ptr = config_ptr; config = config })))

  -- The loop's result; out of fuel, which the bytes' length rules out, the model stops.
  end_lines : Ptr → Ptr → Ptr → Option LineResult → Io (Option LoadedConfig)
  end_lines config_ptr config_data config_file none = pure none
  end_lines config_ptr config_data config_file (some result) =
      finish_load config_ptr config_data config_file result

  -- `Close(config_file)` and `free(config)`, where a step before the read has failed.
  close_both : Ptr → Ptr → Io (Option LoadedConfig)
  close_both config_ptr config_file = do close_file config_file; free fw config_ptr; pure none

  -- `printf(…)` and `free(config_data)`, `Close`, `free(config)` after a failed read.
  pub drop_data : Ptr → Ptr → Ptr → Io (Option LoadedConfig)
  drop_data config_ptr config_data config_file = do
    free fw config_data
    close_file config_file
    free fw config_ptr
    pure none

  -- The bytes that were read, as the lines of a C string.
  pub parse_data : Ptr → Ptr → Ptr → Ptr → List ℕ → Io (Option LoadedConfig)
  parse_data root config_ptr config_data config_file bytes = do
    let text = c_string bytes
    r ←
        parse_lines (length text + 1) (initial_config root) initial_state
          (strtok_r (some text) (codes "\n") none) 1
    end_lines config_ptr config_data config_file r

  read_data : Ptr → Ptr → Ptr → Ptr → ℕ → Io (Option LoadedConfig)
  read_data root config_ptr config_data config_file config_size = do
    (status, bytes) ← read_file fw config_file config_size
    if fw.efi_error status
        then (do
          perror (codes "error reading config file") status
          drop_data config_ptr config_data config_file)
        else if not (length bytes == config_size)
        then (do
          print (codes "error: expected to read %u bytes but read %u bytes\n")
              (word config_size ∷ word (length bytes) ∷ [])
          drop_data config_ptr config_data config_file)
        else parse_data root config_ptr config_data config_file bytes

  load_data : Ptr → Ptr → Ptr → ℕ → Io (Option LoadedConfig)
  load_data root config_ptr config_file config_size = do
    config_data ← malloc fw ((config_size + 1) % u64_mod)
    if config_data == 0
        then (do
          status ← get_errno
          perror (codes "error allocating memory for config data") status
          close_both config_ptr config_file)
        else read_data root config_ptr config_data config_file config_size

  load_info : Ptr → Ptr → Ptr → Ptr → Io (Option LoadedConfig)
  load_info root config_ptr config_file file_info = do
    (status, config_size) ← get_info fw config_file
    if fw.efi_error status
        then (do
          perror (codes "error getting config file info") status
          free fw file_info
          close_both config_ptr config_file)
        else (do free fw file_info; load_data root config_ptr config_file config_size)

  load_file : Ptr → Ptr → Ptr → Io (Option LoadedConfig)
  load_file root config_ptr config_file = do
    file_info ← malloc fw (sizes.file_info + 512 * 2)
    if file_info == 0
        then (do
          status ← get_errno
          perror (codes "error allocating memory for config file info") status
          close_both config_ptr config_file)
        else load_info root config_ptr config_file file_info

  load_volume : Ptr → Ptr → Io (Option LoadedConfig)
  load_volume root config_ptr = do
    (status, config_file) ← open_file fw root (codes "wboot.conf")
    if fw.efi_error status
        then (do free fw config_ptr; pure none)
        else load_file root config_ptr config_file

  -- `wboot_load_config`
  unfoldable pub wboot_load_config : Ptr → Io (Option LoadedConfig)
  unfolding load_volume load_file load_info load_data read_data parse_data end_lines drop_data
      close_both finish_load complete discard missing_lines required_lines missing_line
      free_config_fields parse_lines c_string parse_config_line strtok_r open_file get_info
      read_file close_file malloc free perror
  wboot_load_config root = do
    config_ptr ← malloc fw sizes.config
    if config_ptr == 0 then pure none else load_volume root config_ptr
