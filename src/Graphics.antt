-- ===== src/Graphics.antt =====
-- Graphics of src/phase3/wboot_graphics.c: the names of UEFI that it uses, and the calls that it makes
-- of the firmware's displays. None of this file is the program's code.
pub mod Bits
pub mod Mode
pub mod Primary
pub mod Screen
pub mod Setup
use wboot.Prelude.{ℕ, ◌+◌, Bool, true, false, Option, List}
use wboot.Efi.{Ptr, Events, EfiStatus, service_called, mode_set}
use wboot.Stdlib.Alloc.{Io, emit}

-- EFI_GRAPHICS_PIXEL_FORMAT; `other_format n` is the number PixelFormatMax + n.
pub data PixelFormat : Type 0 where
  red_green_blue_reserved blue_green_red_reserved bit_mask blt_only : PixelFormat
  other_format : ℕ → PixelFormat

abbrev pub format_number : PixelFormat → ℕ
format_number red_green_blue_reserved = 0
format_number blue_green_red_reserved = 1
format_number bit_mask = 2
format_number blt_only = 3
format_number (other_format n) = 4 + n

-- EFI_PIXEL_BITMASK
pub record PixelBitmask : Type 0 where
  pub red_mask : ℕ
  pub green_mask : ℕ
  pub blue_mask : ℕ
  pub reserved_mask : ℕ

-- EFI_GRAPHICS_OUTPUT_MODE_INFORMATION
pub record ModeInfo : Type 0 where
  pub horizontal_resolution : ℕ
  pub vertical_resolution : ℕ
  pub pixel_format : PixelFormat
  pub pixel_information : PixelBitmask
  pub pixels_per_scan_line : ℕ

-- EFI_GRAPHICS_OUTPUT_PROTOCOL_MODE, with its `Info`.
pub record GopMode : Type 0 where
  pub max_mode : ℕ
  pub mode : ℕ
  pub info : ModeInfo
  pub frame_buffer_base : ℕ

-- EFI_EDID_ACTIVE_PROTOCOL and EFI_EDID_DISCOVERED_PROTOCOL; NULL is `none`.
pub record Edid : Type 0 where
  pub size_of_edid : ℕ
  pub edid : Option (List ℕ)

-- The firmware's answers, by the events so far, the newest first.
pub record Display : Type 0 where
  -- `LocateHandleBuffer` of the graphics outputs
  pub locate_handles : Events → EfiStatus × List Ptr
  -- `HandleProtocol` for a handle's graphics output, its text output and its two EDIDs
  pub graphics_output : Events → Ptr → EfiStatus × Ptr
  pub text_output : Events → Ptr → EfiStatus
  pub active_edid : Events → Ptr → EfiStatus × Edid
  pub discovered_edid : Events → Ptr → EfiStatus × Edid
  -- what `gop->Mode` points at
  pub gop_mode : Events → Ptr → GopMode
  -- `gop->QueryMode(gop, m, …)`
  pub query_mode : Events → Ptr → ℕ → EfiStatus × ModeInfo
  -- `gop->SetMode(gop, m)`
  pub set_mode : Events → Ptr → ℕ → EfiStatus

module _ (display : Display) where
  unfoldable pub locate_handles : Io (EfiStatus × List Ptr)
  locate_handles m =
      let answer = display.locate_handles m.events in (answer, (emit (service_called answer.0) m).1)

  unfoldable pub graphics_output : Ptr → Io (EfiStatus × Ptr)
  graphics_output h m =
      let answer = display.graphics_output m.events h in
      (answer, (emit (service_called answer.0) m).1)

  unfoldable pub text_output : Ptr → Io EfiStatus
  text_output h m =
      let status = display.text_output m.events h in (status, (emit (service_called status) m).1)

  unfoldable pub active_edid : Ptr → Io (EfiStatus × Edid)
  active_edid h m =
      let answer = display.active_edid m.events h in (answer, (emit (service_called answer.0) m).1)

  unfoldable pub discovered_edid : Ptr → Io (EfiStatus × Edid)
  discovered_edid h m =
      let answer = display.discovered_edid m.events h in
      (answer, (emit (service_called answer.0) m).1)

  -- A read of `gop->Mode`, which is no call.
  unfoldable pub gop_mode : Ptr → Io GopMode
  gop_mode gop m = (display.gop_mode m.events gop, m)

  unfoldable pub query_mode : Ptr → ℕ → Io (EfiStatus × ModeInfo)
  query_mode gop n m =
      let answer = display.query_mode m.events gop n in
      (answer, (emit (service_called answer.0) m).1)

  unfoldable pub switch_mode : Ptr → ℕ → Io EfiStatus
  switch_mode gop n m =
      let status = display.set_mode m.events gop n in (status, (emit (mode_set gop n status) m).1)
