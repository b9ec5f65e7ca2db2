-- ===== src/Examples/Graphics.antt =====
-- Runs of src/phase3/wboot_graphics.c over one display with two modes.
use wboot.Prelude.{ℕ, ◌+◌, ◌==◌, ◌≡◌, refl, arith, if◌then◌else◌, none, [], ◌∷◌}
use wboot.Efi.{EfiStatus, success, not_found, unsupported}
use wboot.Linux.BootParams.{zero_screen_info}
use wboot.Config.{WbootConfig}
use wboot.Graphics.{blue_green_red_reserved, bit_mask, PixelBitmask, ModeInfo, GopMode, Display}
use wboot.Graphics.Mode.{choose_mode_res}
use wboot.Graphics.Mode.Choice.{IsChoice, choose_mode_res-IsChoice}
use wboot.Graphics.Primary.{find_handle_with_primary_gop}
use wboot.Graphics.Primary.Search.{
  Answers, first_or, is_console, is_usable, no_gop, find_handle_with_primary_gop-first_or,
}
use wboot.Graphics.Screen.{setup_screen_info}
use wboot.Graphics.Screen.Geometry.{Layout, IsScreenOf, setup_screen_info-IsScreenOf}
use wboot.Examples.Config.{config, fresh}

abbrev masks : PixelBitmask
masks = record { red_mask = 63488; green_mask = 2016; blue_mask = 31; reserved_mask = 4278190080 }

-- 640 x 480, and 1024 x 768 from mode 1 on.
abbrev info_of : ℕ → ModeInfo
info_of n = record {
  horizontal_resolution = if n == 0 then 640 else 1024;
  vertical_resolution = if n == 0 then 480 else 768;
  pixel_format = blue_green_red_reserved;
  pixel_information = masks;
  pixels_per_scan_line = if n == 0 then 640 else 1024;
}

abbrev current : GopMode
current = record { max_mode = 2; mode = 0; info = info_of 0; frame_buffer_base = 34359738368 }

abbrev mode_answer : ℕ → EfiStatus × ModeInfo
mode_answer n = (success, info_of n)

-- Only the second of two handles has a text output.
abbrev answers : Answers
answers = record {
  output = λ h. (success, 80 + h);
  text = λ h. if h == 12 then success else unsupported;
  mode = λ gop. current;
}

abbrev pub one_display : Display
one_display = record {
  locate_handles = λ events. (success, 11 ∷ 12 ∷ []);
  graphics_output = λ events h. (success, 80 + h);
  text_output = λ events h. if h == 12 then success else unsupported;
  active_edid = λ events h. (not_found, record { size_of_edid = 0; edid = none });
  discovered_edid = λ events h. (not_found, record { size_of_edid = 0; edid = none });
  gop_mode = λ events gop. current;
  query_mode = λ events gop n. mode_answer n;
  set_mode = λ events gop n. success;
}

abbrev wide_config : WbootConfig
wide_config = record config { mode_width = 1024; mode_height = 768 }

choose_mode_res_run : (choose_mode_res one_display 92 wide_config fresh).0 ≡ 1
unfolding choose_mode_res
choose_mode_res_run = refl

choose_mode_res-IsChoice_example :
    IsChoice wide_config mode_answer current (choose_mode_res one_display 92 wide_config fresh).0
choose_mode_res-IsChoice_example =
    choose_mode_res-IsChoice one_display 92 wide_config mode_answer (λ events n. refl) fresh

find_handle_with_primary_gop-first_or_example :
    (find_handle_with_primary_gop one_display (11 ∷ 12 ∷ []) fresh).0
    ≡ first_or answers
        (is_console answers)
        (11 ∷ 12 ∷ [])
        (first_or answers (is_usable answers) (11 ∷ 12 ∷ []) no_gop)
find_handle_with_primary_gop-first_or_example =
    find_handle_with_primary_gop-first_or one_display answers (λ events h. refl) (λ events h. refl)
      (λ events gop. refl) (11 ∷ 12 ∷ []) fresh (ground arith)

-- 5, 6 and 5 bits of colour and 8 reserved ones.
abbrev masked : GopMode
masked = record current { info = record (info_of 1) { pixel_format = bit_mask } }

abbrev masked_layout : Layout
masked_layout = record {
  red = record { pos = 11; size = 5 };
  green = record { pos = 5; size = 6 };
  blue = record { pos = 0; size = 5 };
  reserved = record { pos = 24; size = 8 };
}

setup_screen_info-IsScreenOf_example :
    IsScreenOf masked masked_layout (setup_screen_info zero_screen_info masked)
setup_screen_info-IsScreenOf_example =
    setup_screen_info-IsScreenOf masked masked_layout (omega arith) (omega arith) (omega arith) (
      (refl, omega arith, omega arith),
      (refl, omega arith, omega arith),
      (refl, omega arith, omega arith),
      (refl, omega arith, omega arith),
    )
