-- ===== src/Examples/Config.antt =====
-- Runs of src/phase3/wboot_config.c over a firmware that grants every request.
use wboot.Prelude.{
  ◌+◌, ◌*◌, ◌==◌, if◌then◌else◌, ◌≡◌, ◌≢◌, refl, ◌⊎◌, arith, Bool, true, false, some, [], ◌∷◌, ◌++◌,
  Text, codes, length,
}
use wboot.Prelude.Int.{negsuc}
use wboot.Stdlib.Text.Tokens.{words}
use wboot.Stdlib.Alloc.{Machine}
use wboot.Stdlib.Alloc.Balance.{Resource, pool, refers, IsReal}
use wboot.Efi.{Firmware, EfiStatus, success, buffer_too_small}
use wboot.Config.{WbootConfig, is_ws, trim_trailing_ws, parse_u32, parse_mode_format}
use wboot.Config.Values.{
  read_u32, fitting_i32, parse_u32-read_u32, parse_u32_wraps, parse_mode_format_lem,
}
use wboot.Config.Trim.{trim_trailing_ws_lem}
use wboot.Config.Line.{parse_config_mode, set_key, parse_config_line}
use wboot.Config.Line.Ownership.{owned, KeepsResult, parse_config_line-Keeps}
use wboot.Config.Line.Mode.{mode_of, with_mode, parse_config_mode-mode_of}
use wboot.Config.Line.Effect.{Sets}
use wboot.Config.Line.Entry.{
  Entry, IsEntry, line_of, parse_config_line-set_key, parse_config_line-Sets,
}
use wboot.Config.Load.{Sizes, initial_config, initial_state, wboot_load_config}
use wboot.Config.Load.Account.{Loads}
use wboot.Config.Load.Ownership.{wboot_load_config-Loads}
use wboot.Config.Locate.{wboot_locate_config}
use wboot.Config.Locate.Balance.{Locates, wboot_locate_config-Locates}

abbrev pub config_text : Text
config_text =
    codes "# wboot\nkernel  vmlinuz\ninitrd initrd.img\ncmdline root=/dev/sda1 \nmode 1024 768\n"

abbrev pub failed : EfiStatus → Bool
failed success = false
failed _ = true

-- The n-th request gets the address 4096 + n.
abbrev pub granting : Firmware
granting = record {
  efi_error = failed;
  status_number = λ status. 0;
  allocate_pool = λ events size. (success, 4096 + length events);
  free_pool = λ events p. success;
  open_file = λ events root path. (success, 7);
  get_info = λ events f. (success, length config_text);
  read_file = λ events f size. (success, config_text);
  locate_device_path_to_text = λ events. success;
  locate_file_systems = λ events n. (success, 11 ∷ 12 ∷ []);
  device_path = λ events handle. (success, 20 + handle);
  file_system = λ events handle. (success, 30 + handle);
  convert_device_path = λ events path. (4000 + path, codes "PciRoot(0)");
  open_volume = λ events fs. (success, 40 + fs);
  set_position = λ events f position. success;
  get_info_size = λ events f. (buffer_too_small, 80);
  allocate_pages = λ events request n. (success, 65536 * (1 + length events));
  get_memory_map = λ events size. record {
    status = if size == 0 then buffer_too_small else success;
    size = 96;
    key = length events;
    desc_size = 48;
    desc_ver = 1;
    descs = [];
  };
  exit_boot_services = λ events key. success;
}

abbrev pub sizes : Sizes
sizes = record { config = 64; file_info = 80 }

abbrev pub fresh : Machine
fresh = record { bs_exited = false; errno = success; events = [] }

abbrev pub first_buffer : Resource
first_buffer = pool 4096

pub first_buffer-IsReal : IsReal first_buffer
unfolding refers
first_buffer-IsReal = refl

abbrev pub config : WbootConfig
config = initial_config 3

parse_u32-read_u32_example :
    parse_u32 (some (codes "1024" ++ codes "x")) ≡ read_u32 (codes "1024") (codes "x")
parse_u32-read_u32_example =
    parse_u32-read_u32 (codes "1024") (codes "x") (ground arith) (ground arith)

parse_u32_wraps_example : parse_u32 (some (codes "18446744073709551617")) ≡ some 1
parse_u32_wraps_example =
    parse_u32_wraps (codes "18446744073709551617") 1 1 (ground arith) (omega arith) (omega arith)
      refl

parse_mode_format_lem_example :
    ((codes "7" ≡ codes "-1") × (parse_mode_format (some (codes "7")) ≡ some (negsuc 0)))
    ⊎ ((codes "7" ≢ codes "-1")
        × (parse_mode_format (some (codes "7")) ≡ fitting_i32 (parse_u32 (some (codes "7")))))
parse_mode_format_lem_example = parse_mode_format_lem (codes "7") (ground arith)

trim_trailing_ws_lem_example :
    trim_trailing_ws ((codes "vmlinu" ++ b'z' ∷ []) ++ codes " \t") ≡ codes "vmlinu" ++ b'z' ∷ []
unfolding is_ws
trim_trailing_ws_lem_example =
    trim_trailing_ws_lem (codes "vmlinu") (codes " \t") b'z' (ground arith) (ground arith)

parse_config_line-Keeps_example :
    KeepsResult first_buffer
      (owned first_buffer config)
      fresh
      (parse_config_line granting config initial_state (codes "kernel vmlinuz") 1 fresh)
parse_config_line-Keeps_example =
    parse_config_line-Keeps granting config initial_state first_buffer first_buffer-IsReal
      (codes "kernel vmlinuz") 1 fresh refl

parse_config_mode-mode_of_example :
    (parse_config_mode config (codes "1024 768 32") 4 fresh).0
    ≡ with_mode config (mode_of (words (codes " \t") (codes "1024 768 32")))
parse_config_mode-mode_of_example = parse_config_mode-mode_of config (codes "1024 768 32") 4 fresh

wboot_load_config-Loads_example :
    Loads granting sizes first_buffer first_buffer-IsReal 0 fresh
      (wboot_load_config granting sizes 3 fresh)
wboot_load_config-Loads_example =
    wboot_load_config-Loads granting sizes first_buffer first_buffer-IsReal 3 fresh refl

-- What the run returns: the texts are those of the file.
wboot_load_config_run :
    (wboot_load_config granting sizes 3 fresh).0
    ≡ some (record {
      ptr = 4096;
      config = record {
        kernel_path = record { ptr = 4103; text = codes "vmlinuz" };
        initrd_path = record { ptr = 4104; text = codes "initrd.img" };
        cmdline = record { ptr = 4105; text = codes "root=/dev/sda1" };
        mode_width = 1024;
        mode_height = 768;
        mode_format = negsuc 0;
        mode_depth = 0;
        root = 3;
      };
    })
unfolding wboot_load_config
wboot_load_config_run = refl

abbrev mode_entry : Entry
mode_entry = record {
  lead = codes " ";
  key_first = b'm';
  key_rest = codes "ode";
  blank = b' ';
  mid = codes " ";
  value_front = codes "102";
  last = b'4';
  trail = codes "\t";
}

mode_entry-IsEntry : IsEntry mode_entry
unfolding is_ws
mode_entry-IsEntry = record {
  lead_blank = ground arith;
  key_plain = ground arith;
  no_comment = ground arith;
  blank_is = refl;
  mid_blank = ground arith;
  value_plain = refl;
  last_plain = refl;
  trail_blank = ground arith;
}

parse_config_line-set_key_example :
    parse_config_line granting config initial_state (line_of mode_entry) 4 fresh
    ≡ set_key granting config initial_state (codes "mode") (codes "1024") 4 fresh
parse_config_line-set_key_example =
    parse_config_line-set_key granting config initial_state 4 fresh mode_entry mode_entry-IsEntry

parse_config_line-Sets_example :
    Sets
      (codes "mode")
      (codes "1024")
      config
      initial_state
      (parse_config_line granting config initial_state (line_of mode_entry) 4 fresh).0
parse_config_line-Sets_example =
    parse_config_line-Sets granting config initial_state mode_entry 4 fresh mode_entry-IsEntry
      (ground arith)

wboot_locate_config-Locates_example :
    Locates granting sizes first_buffer first_buffer-IsReal fresh
      (wboot_locate_config granting sizes fresh)
wboot_locate_config-Locates_example =
    wboot_locate_config-Locates granting sizes first_buffer first_buffer-IsReal fresh refl
