-- ===== src/Config.antt =====
-- src/phase3/wboot_config.c and wboot_config.h: reading `wboot.conf`. The data, the parsers of
-- numbers and the pieces of a line; a line is in Config.Line, a whole file in Config.Load.
pub mod Values
pub mod Trim
pub mod Line
pub mod Load
pub mod Locate
use wboot.Prelude.{
  ℕ, zero, suc, ◌+◌, ◌*◌, Bool, true, false, not, ◌&&◌, ◌||◌, Option, none, some, [], ◌∷◌, Text,
  codes, ltb, ◌==◌, if◌then◌else◌, get_elem?, take,
}
use wboot.Prelude.Int.{ℤ, pos, negsuc}
use wboot.Stdlib.Text.{strlen8, strcmp8, strtok_r, strtoul}
use wboot.Stdlib.Alloc.{HeapText, Machine, Io, duplicate}
use wboot.Efi.{Ptr, Firmware}

-- `wboot_config_t`
pub record WbootConfig : Type 0 where
  pub kernel_path : HeapText
  pub initrd_path : HeapText
  pub cmdline : HeapText
  pub mode_width : ℕ
  pub mode_height : ℕ
  pub mode_format : ℤ
  pub mode_depth : ℕ
  pub root : Ptr

-- `config_parse_state_t`
pub record ConfigParseState : Type 0 where
  pub has_kernel : Bool
  pub has_initrd : Bool
  pub has_cmdline : Bool
  pub has_mode : Bool

unfoldable pub is_ws : ℕ → Bool
is_ws c = c == b' ' || c == b'\t' || c == b'\r'

-- `while (len > 0 && is_ws(str[len - 1])) { str[len - 1] = '\0'; len--; }`
unfoldable pub trim_loop : ℕ → Text → Text
trim_loop zero str = str
trim_loop (suc len) str =
    let shorter = trim_loop len (take len str) in
    elim (get_elem? str len) [ none ↦ str | some c ↦ if is_ws c then shorter else str ]

unfoldable pub trim_trailing_ws : Text → Text
trim_trailing_ws str = trim_loop (strlen8 str) str

-- `strcmp8(…) == 0`
unfoldable pub equals_zero : ℤ → Bool
equals_zero (pos n) = n == 0
equals_zero (negsuc n) = false

unfoldable pub same_text : Text → Text → Bool
same_text s t = equals_zero (strcmp8 s t)

-- `*end != '\0' || parsed > 0xFFFFFFFFU`; the value of `*out`, where the result is TRUE.
unfoldable pub checked_u32 : ℕ × Text → Option ℕ
checked_u32 (parsed, []) = if ltb 0xFFFFFFFF parsed then none else some parsed
checked_u32 (parsed, c ∷ end) = none

unfoldable pub parse_u32 : Option Text → Option ℕ
parse_u32 none = none
parse_u32 (some []) = none
parse_u32 (some (c ∷ value)) = checked_u32 (strtoul (c ∷ value) 10)

unfoldable pub checked_i32 : Option ℕ → Option ℤ
checked_i32 none = none
checked_i32 (some parsed) = if ltb 0x7FFFFFFF parsed then none else some (pos parsed)

unfoldable pub parse_mode_format : Option Text → Option ℤ
parse_mode_format none = none
parse_mode_format (some []) = none
parse_mode_format (some (c ∷ value)) =
    if same_text (c ∷ value) (codes "-1")
    then some (negsuc 0)
    else checked_i32 (parse_u32 (some (c ∷ value)))

module _ (fw : Firmware) where
  -- `strdup8_to16`
  unfoldable pub strdup8_to16 : Text → Io HeapText
  strdup8_to16 src = duplicate fw ((strlen8 src + 1) * 2) src
