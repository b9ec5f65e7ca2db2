-- ===== src/Graphics/Screen/Geometry.antt =====
-- What `setup_screen_info` of src/phase3/wboot_graphics.c tells the kernel of the screen.
use wboot.Prelude.{
  ℕ, zero, suc, ◌∙◌, ◌+◌, ◌<◌, ◌≤◌, ◌≡◌, refl, arith, ◌==◌, Bool-cases, inl, inr, if◌then◌else◌, ap,
}
use wboot.Prelude.Words.{u16_mod, u64_mod}
use wboot.Linux.BootParams.{ScreenInfo, zero_screen_info}
use wboot.Loader.BootParams.{high_half}
use wboot.Loader.BootParams.Address.{joined, joined-halves}
use wboot.Graphics.{
  PixelFormat, PixelBitmask, bit_mask, red_green_blue_reserved, blue_green_red_reserved, blt_only,
  other_format, ModeInfo, GopMode,
}
use wboot.Graphics.Bits.{BitField, find_bits, ones, shifted, find_bits-field, bit_or}
use wboot.Graphics.Screen.{place_screen, mask_screen, byte_screen, colour_screen, setup_screen_info}

-- The bits of a pixel. With masks, each colour has `size` bits behind `pos` others.
abbrev pub field_mask : BitField → ℕ
field_mask f = shifted f.pos (ones f.size)

-- Where the colours are in a pixel.
pub record Layout : Type 0 where
  pub red : BitField
  pub green : BitField
  pub blue : BitField
  pub reserved : BitField

abbrev pub depth_of : Layout → ℕ
depth_of l = l.red.size + l.green.size + l.blue.size + l.reserved.size

-- A field of at least one bit in 32.
abbrev pub IsField : ℕ → BitField → Type 0
IsField mask f = (mask ≡ field_mask f) × (1 ≤ f.size) × (f.pos + f.size ≤ 32)

-- The layout that a format means.
abbrev pub IsLayout : PixelFormat → PixelBitmask → Layout → Type 0
IsLayout bit_mask p l =
    IsField p.red_mask l.red
    × IsField p.green_mask l.green
    × IsField p.blue_mask l.blue
    × IsField p.reserved_mask l.reserved
IsLayout red_green_blue_reserved p l = l ≡ record {
  red = record { pos = 0; size = 8 };
  green = record { pos = 8; size = 8 };
  blue = record { pos = 16; size = 8 };
  reserved = record { pos = 24; size = 8 };
}
IsLayout _ p l = l ≡ record {
  red = record { pos = 16; size = 8 };
  green = record { pos = 8; size = 8 };
  blue = record { pos = 0; size = 8 };
  reserved = record { pos = 24; size = 8 };
}

-- The layout that the screen information gives.
abbrev pub layout_in : ScreenInfo → Layout
layout_in si = record {
  red = record { pos = si.red_pos; size = si.red_size };
  green = record { pos = si.green_pos; size = si.green_size };
  blue = record { pos = si.blue_pos; size = si.blue_size };
  reserved = record { pos = si.rsvd_pos; size = si.rsvd_size };
}

pub record IsScreenOf (mode : GopMode) (l : Layout) (si : ScreenInfo) : Type 0 where
  pub base : joined si.lfb_base si.ext_lfb_base ≡ mode.frame_buffer_base
  pub wide_base : si.capabilities ≡ (if high_half mode.frame_buffer_base == 0 then 1 else 3)
  pub width : si.lfb_width ≡ mode.info.horizontal_resolution
  pub height : si.lfb_height ≡ mode.info.vertical_resolution
  pub layout : layout_in si ≡ l
  pub depth : si.lfb_depth ≡ depth_of l

find_bits_fits :
    (pos size : ℕ)
    → 1 ≤ size
    → pos + size ≤ 32
    → find_bits (shifted pos (ones size)) ≡ record { pos = pos; size = size }
find_bits_fits pos zero some_bit fits = ground (arith, some_bit)
find_bits_fits pos (suc size) some_bit fits = find_bits-field pos size fits

find_bits-IsField : (mask : ℕ) (f : BitField) → IsField mask f → find_bits mask ≡ f
find_bits-IsField mask f (same, some_bit, fits) =
    ap find_bits same ∙ find_bits_fits f.pos f.size some_bit fits

colour_screen-Layout :
    (si : ScreenInfo) (info : ModeInfo) (format : PixelFormat) (l : Layout)
    → IsLayout format info.pixel_information l
    → let si' = colour_screen si info format in (layout_in si' ≡ l) × (si'.lfb_depth ≡ depth_of l)
unfolding colour_screen mask_screen byte_screen
colour_screen-Layout si info bit_mask l (r, g, b, v) =
    let p = info.pixel_information in
    let red = find_bits-IsField p.red_mask l.red r in
    let green = find_bits-IsField p.green_mask l.green g in
    let blue = find_bits-IsField p.blue_mask l.blue b in
    let rsvd = find_bits-IsField p.reserved_mask l.reserved v in
    rw (red, green, blue, rsvd) (refl, refl)
colour_screen-Layout si info red_green_blue_reserved l h = rw h (refl, refl)
colour_screen-Layout si info blue_green_red_reserved l h = rw h (refl, refl)
colour_screen-Layout si info blt_only l h = rw h (refl, refl)
colour_screen-Layout si info (other_format n) l h = rw h (refl, refl)

-- What the colours leave alone.
record Placed (mode : GopMode) (si : ScreenInfo) : Type 0 where
  base : joined si.lfb_base si.ext_lfb_base ≡ mode.frame_buffer_base
  flag : bit_or 32 si.capabilities 1 ≡ (if high_half mode.frame_buffer_base == 0 then 1 else 3)
  width : si.lfb_width ≡ mode.info.horizontal_resolution
  height : si.lfb_height ≡ mode.info.vertical_resolution

place_screen-Placed :
    (mode : GopMode)
    → mode.frame_buffer_base < u64_mod
    → mode.info.horizontal_resolution < u16_mod
    → mode.info.vertical_resolution < u16_mod
    → Placed mode (place_screen zero_screen_info mode)
unfolding place_screen
place_screen-Placed mode h k l =
    let high = high_half mode.frame_buffer_base == 0 in
    record {
      base = joined-halves mode.frame_buffer_base h;
      flag = elim (Bool-cases high) [ inl e ↦ rw e refl | inr e ↦ rw e refl ];
      width = omega arith;
      height = omega arith;
    }

colour_screen-Placed :
    (mode : GopMode) (si : ScreenInfo) (info : ModeInfo) (format : PixelFormat)
    → Placed mode si
    → Placed mode (colour_screen si info format)
unfolding colour_screen mask_screen byte_screen
colour_screen-Placed mode si info bit_mask h = record {
  base = h.base;
  flag = h.flag;
  width = h.width;
  height = h.height;
}
colour_screen-Placed mode si info red_green_blue_reserved h = record {
  base = h.base;
  flag = h.flag;
  width = h.width;
  height = h.height;
}
colour_screen-Placed mode si info blue_green_red_reserved h = record {
  base = h.base;
  flag = h.flag;
  width = h.width;
  height = h.height;
}
colour_screen-Placed mode si info blt_only h = record {
  base = h.base;
  flag = h.flag;
  width = h.width;
  height = h.height;
}
colour_screen-Placed mode si info (other_format n) h = record {
  base = h.base;
  flag = h.flag;
  width = h.width;
  height = h.height;
}

-- `setup_screen_info` tells the kernel the size of the mode, the 64-bit address of the frame buffer
-- with the flag of one at 4 GB or above, and the places and sizes of the colours: those of the
-- format, or those of the masks, each of which is contiguous and not empty. The address is 64-bit
-- and the size is 16-bit.
pub setup_screen_info-IsScreenOf :
    (mode : GopMode) (l : Layout)
    → mode.frame_buffer_base < u64_mod
    → mode.info.horizontal_resolution < u16_mod
    → mode.info.vertical_resolution < u16_mod
    → IsLayout mode.info.pixel_format mode.info.pixel_information l
    → IsScreenOf mode l (setup_screen_info zero_screen_info mode)
unfolding setup_screen_info
setup_screen_info-IsScreenOf mode l h k j layout =
    let placed = place_screen zero_screen_info mode in
    let (same, depth) = colour_screen-Layout placed mode.info mode.info.pixel_format l layout in
    let all =
      colour_screen-Placed mode placed mode.info mode.info.pixel_format
        (place_screen-Placed mode h k j) in
    record {
      base = all.base;
      wide_base = all.flag;
      width = all.width;
      height = all.height;
      layout = same;
      depth = depth;
    }
