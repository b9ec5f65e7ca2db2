-- ===== src/Graphics/Screen.antt =====
-- `setup_screen_info` and `setup_edid_info` of src/phase3/wboot_graphics.c.
pub mod Geometry
use wboot.Prelude.{ℕ, ◌+◌, ◌*◌, ◌/◌, ◌%◌, Option, none, some, List, take, ltb, ◌==◌, if◌then◌else◌}
use wboot.Prelude.Words.{u16_mod, u32_mod}
use wboot.Linux.BootParams.{
  ScreenInfo, EdidInfo, edid_size, zeros, video_type_efi, capability_skip_quirks,
  capability_64bit_base,
}
use wboot.Loader.BootParams.{low_half, high_half}
use wboot.Graphics.{PixelFormat, bit_mask, red_green_blue_reserved, ModeInfo, GopMode}
use wboot.Graphics.Bits.{bit_or, find_bits}

-- The mode's size and the address of the frame buffer.
unfoldable pub place_screen : ScreenInfo → GopMode → ScreenInfo
unfolding bit_or
place_screen si mode = record si {
  orig_video_is_vga = video_type_efi;
  lfb_width = mode.info.horizontal_resolution % u16_mod;
  lfb_height = mode.info.vertical_resolution % u16_mod;
  lfb_base = low_half mode.frame_buffer_base;
  ext_lfb_base = high_half mode.frame_buffer_base;
  capabilities =
      if high_half mode.frame_buffer_base == 0
      then si.capabilities
      else bit_or 32 si.capabilities capability_64bit_base;
  pages = 1;
}

-- The fields of the colours; `lfb_linelength` is cut to 16 bits.
unfoldable pub mask_screen : ScreenInfo → ModeInfo → ScreenInfo
unfolding find_bits
mask_screen si info =
    let p = info.pixel_information in
    let red = find_bits p.red_mask in
    let green = find_bits p.green_mask in
    let blue = find_bits p.blue_mask in
    let rsvd = find_bits p.reserved_mask in
    let depth = red.size + green.size + blue.size + rsvd.size in
    record si {
      red_pos = red.pos;
      red_size = red.size;
      green_pos = green.pos;
      green_size = green.size;
      blue_pos = blue.pos;
      blue_size = blue.size;
      rsvd_pos = rsvd.pos;
      rsvd_size = rsvd.size;
      lfb_depth = depth;
      lfb_linelength = (((info.pixels_per_scan_line * depth) % u32_mod) / 8) % u16_mod;
    }

abbrev pub red_place : PixelFormat → ℕ
red_place red_green_blue_reserved = 0
red_place _ = 16

abbrev pub blue_place : PixelFormat → ℕ
blue_place red_green_blue_reserved = 16
blue_place _ = 0

unfoldable pub byte_screen : ScreenInfo → ModeInfo → PixelFormat → ScreenInfo
byte_screen si info format = record si {
  red_pos = red_place format;
  blue_pos = blue_place format;
  green_pos = 8;
  rsvd_pos = 24;
  red_size = 8;
  green_size = 8;
  blue_size = 8;
  rsvd_size = 8;
  lfb_depth = 32;
  lfb_linelength = (info.pixels_per_scan_line * 4) % u16_mod;
}

unfoldable pub colour_screen : ScreenInfo → ModeInfo → PixelFormat → ScreenInfo
unfolding mask_screen byte_screen
colour_screen si info bit_mask = mask_screen si info
colour_screen si info format = byte_screen si info format

abbrev pub finish_screen : ScreenInfo → ScreenInfo
finish_screen si = record si {
  lfb_size = (si.lfb_linelength * si.lfb_height) % u32_mod;
  capabilities = bit_or 32 si.capabilities capability_skip_quirks;
}

unfoldable pub setup_screen_info : ScreenInfo → GopMode → ScreenInfo
unfolding place_screen colour_screen
setup_screen_info si mode =
    finish_screen (colour_screen (place_screen si mode) mode.info mode.info.pixel_format)

-- `min`
abbrev pub min : ℕ → ℕ → ℕ
min a b = if ltb a b then a else b

-- `memset` of the whole record, or `memcpy` of at most 128 bytes, which are 128 there.
unfoldable pub setup_edid_info : ℕ → Option (List ℕ) → EdidInfo
setup_edid_info gop_size_of_edid none = zeros edid_size
setup_edid_info gop_size_of_edid (some gop_edid) =
    if ltb gop_size_of_edid edid_size
    then zeros edid_size
    else take (min gop_size_of_edid edid_size) gop_edid
