-- ===== src/Config/Line.antt =====
-- `parse_config_mode` and `parse_config_line` of src/phase3/wboot_config.c.
pub mod Ownership
pub mod Mode
pub mod Effect
pub mod Entry
use wboot.Prelude.{
  ℕ, ◌+◌, Bool, true, false, not, ◌&&◌, ◌||◌, Option, none, some, List, [], ◌∷◌, Text, codes, ◌==◌,
  if◌then◌else◌,
}
use wboot.Prelude.Int.{ℤ, negsuc}
use wboot.Stdlib.Text.{head_unit, strlen8, strcmp8, strtok_r, strtoul}
use wboot.Stdlib.Printf.{Arg, narrow, word}
use wboot.Stdlib.Alloc.{
  Machine, Io, pure, ◌>>=◌, ◌>>◌, print, perror, HeapText, free, strdup8, duplicate,
}
use wboot.Efi.{Ptr, Firmware, out_of_resources}
use wboot.Config.{
  trim_loop, equals_zero, checked_u32, checked_i32, WbootConfig, ConfigParseState, is_ws,
  trim_trailing_ws, same_text, parse_u32, parse_mode_format, strdup8_to16,
}

-- The five tokens of a mode line; a NULL stays NULL.
pub record ModeTokens : Type 0 where
  pub width_str : Option Text
  pub height_str : Option Text
  pub format_str : Option Text
  pub depth_str : Option Text
  pub extra : Option Text

abbrev blanks : Text
blanks = codes " \t"

unfoldable pub mode_tokens : Text → ModeTokens
mode_tokens value =
    let (width, save1) = strtok_r (some value) blanks none in
    let (height, save2) = strtok_r none blanks save1 in
    let (format, save3) = strtok_r none blanks save2 in
    let (depth, save4) = strtok_r none blanks save3 in
    let (extra, save5) = strtok_r none blanks save4 in
    record {
      width_str = width;
      height_str = height;
      format_str = format;
      depth_str = depth;
      extra = extra;
    }

abbrev is_null : Option Text → Bool
is_null none = true
is_null (some s) = false

-- A value that is parsed only if there is a token: the default stands for no token.
abbrev optional {ℓ} : {A : Type ℓ} → Option Text → A → Option A → Option A
optional none default parsed = some default
optional (some s) default parsed = parsed

abbrev text_of : Option Text → Text
text_of none = []
text_of (some s) = s

-- The result, and the config that the pointer then leads to.
abbrev pub Parsed : Type 0
Parsed = Bool × WbootConfig

abbrev fail : WbootConfig → Text → List Arg → Io Parsed
fail config format args = print format args >> pure (false, config)

-- `parse_config_mode` behind its calls of `strtok_r`.
pub set_mode_values : WbootConfig → ModeTokens → ℕ → Io Parsed
set_mode_values config t line_no =
    if is_null t.width_str || is_null t.height_str || not (is_null t.extra)
    then fail config
        (codes
          "error parsing wboot.conf line %u: mode must be 'mode <width> <height> [format] [depth]'\r\n")
        (word line_no ∷ [])
    else elim (parse_u32 t.width_str) [
      | none ↦
          fail config (codes "error parsing wboot.conf line %u: invalid mode width/height\r\n")
            (word line_no ∷ [])
      | some width ↦ elim (parse_u32 t.height_str) [
        | none ↦
            fail config (codes "error parsing wboot.conf line %u: invalid mode width/height\r\n")
              (word line_no ∷ [])
        | some height ↦ elim (optional t.format_str (negsuc 0) (parse_mode_format t.format_str)) [
          | none ↦
              fail config (codes "error parsing wboot.conf line %u: invalid mode format '%-s'\r\n")
                (word line_no ∷ narrow (text_of t.format_str) ∷ [])
          | some format ↦ elim (optional t.depth_str 0 (parse_u32 t.depth_str)) [
            | none ↦
                fail config (codes "error parsing wboot.conf line %u: invalid mode depth '%-s'\r\n")
                  (word line_no ∷ narrow (text_of t.depth_str) ∷ [])
            | some depth ↦ pure (
              true,
              record config {
                mode_width = width;
                mode_height = height;
                mode_format = format;
                mode_depth = depth;
              },
            )
          ]
        ]
      ]
    ]

-- `parse_config_mode`
unfoldable pub parse_config_mode : WbootConfig → Text → ℕ → Io Parsed
unfolding set_mode_values
parse_config_mode config value line_no = set_mode_values config (mode_tokens value) line_no

-- `while (is_ws(*line)) line++`
unfoldable pub skip_ws : Text → Text
unfolding is_ws
skip_ws [] = []
skip_ws (c ∷ line) = if is_ws c then skip_ws line else c ∷ line

-- `while (*value != '\0' && !is_ws(*value)) value++`: the key, and the text at `value`.
unfoldable pub split_key : Text → Text × Text
unfolding is_ws
split_key [] = ([], [])
split_key (c ∷ line) =
    let (key, value) = split_key line in if is_ws c then ([], c ∷ line) else (c ∷ key, value)

-- The result, and what the two pointers then lead to.
abbrev pub LineResult : Type 0
LineResult = Bool × WbootConfig × ConfigParseState

-- What follows the call of `parse_config_mode`.
set_mode : ConfigParseState → Parsed → Io LineResult
set_mode state (true, config') = pure (true, config', record state { has_mode = true })
set_mode state (false, config') = pure (false, config', state)

module _ (fw : Firmware) (config : WbootConfig) (state : ConfigParseState) where
  -- `if (kernel == NULL)` and what follows it
  set_kernel : HeapText → Io LineResult
  set_kernel kernel =
      if kernel.ptr == 0
      then (do
        perror (codes "error allocating kernel path") out_of_resources
        pure (false, config, state))
      else (do
        free fw config.kernel_path.ptr
        pure (true, record config { kernel_path = kernel }, record state { has_kernel = true }))

  set_initrd : HeapText → Io LineResult
  set_initrd initrd =
      if initrd.ptr == 0
      then (do
        perror (codes "error allocating initrd path") out_of_resources
        pure (false, config, state))
      else (do
        free fw config.initrd_path.ptr
        pure (true, record config { initrd_path = initrd }, record state { has_initrd = true }))

  set_cmdline : HeapText → Io LineResult
  set_cmdline cmdline =
      if cmdline.ptr == 0
      then (do
        perror (codes "error allocating cmdline") out_of_resources
        pure (false, config, state))
      else (do
        free fw config.cmdline.ptr
        pure (true, record config { cmdline = cmdline }, record state { has_cmdline = true }))

  -- The chain of `strcmp8` on the key.
  pub set_key : Text → Text → ℕ → Io LineResult
  set_key key value line_no =
      if same_text key (codes "kernel")
      then strdup8_to16 fw value >>= set_kernel
      else if same_text key (codes "initrd")
      then strdup8_to16 fw value >>= set_initrd
      else if same_text key (codes "cmdline")
      then strdup8 fw value >>= set_cmdline
      else if same_text key (codes "mode")
      then parse_config_mode config value line_no >>= set_mode state
      else (do
        print (codes "error parsing wboot.conf line %u: unknown key '%-s'\r\n")
            (word line_no ∷ narrow key ∷ [])
        pure (false, config, state))

  missing_value : Text → ℕ → Io LineResult
  missing_value line line_no = do
    print (codes "error parsing wboot.conf line %u: missing value for key '%-s'\r\n")
        (word line_no ∷ narrow line ∷ [])
    pure (false, config, state)

  -- Behind the cut at the first blank: `value` is trimmed at both ends.
  set_trimmed : Text → Text → ℕ → Io LineResult
  set_trimmed key [] line_no = missing_value key line_no
  set_trimmed key (c ∷ value) line_no = set_key key (c ∷ value) line_no

  set_value : Text → Text → ℕ → Io LineResult
  set_value key [] line_no = missing_value key line_no
  set_value key (blank ∷ value) line_no = set_trimmed key (trim_trailing_ws (skip_ws value)) line_no

  -- A line that does not begin with a blank.
  pub parse_entry : Text → ℕ → Io LineResult
  parse_entry [] line_no = pure (true, config, state)
  parse_entry (c ∷ line) line_no =
      if c == b'#'
      then pure (true, config, state)
      else (let (key, value) = split_key (c ∷ line) in set_value key value line_no)

  -- `parse_config_line`
  unfoldable pub parse_config_line : Text → ℕ → Io LineResult
  unfolding parse_entry set_value set_trimmed missing_value set_key set_mode set_cmdline set_initrd
      set_kernel skip_ws split_key trim_trailing_ws trim_loop is_ws strlen8 same_text equals_zero
      strcmp8 checked_u32 checked_i32 strtoul parse_config_mode mode_tokens strtok_r parse_u32
      parse_mode_format strdup8_to16 strdup8 duplicate perror free
  parse_config_line line line_no = parse_entry (skip_ws line) line_no
