-- ===== src/Graphics/Setup.antt =====
-- `wboot_setup_graphics` of src/phase3/wboot_graphics.c.
pub mod Kept
use wboot.Prelude.{ℕ, not, Option, none, some, List, ◌==◌, if◌then◌else◌}
use wboot.Stdlib.Alloc.{Io, pure, ◌>>=◌, ◌>>◌}
use wboot.Efi.{Ptr, Firmware, EfiStatus, success, not_found}
use wboot.Efi.Uefi.{is_success}
use wboot.Config.{WbootConfig}
use wboot.Linux.BootParams.{BootParams, edid_size, zeros, zero_screen_info}
use wboot.Graphics.{Display, Edid, GopMode, locate_handles, active_edid, discovered_edid, gop_mode}
use wboot.Graphics.Mode.{set_mode}
use wboot.Graphics.Primary.{FoundGop, find_handle_with_primary_gop}
use wboot.Graphics.Screen.{setup_screen_info, setup_edid_info}

-- The two `memset`s.
abbrev pub clear_graphics : BootParams → BootParams
clear_graphics params = record params {
  screen_info = zero_screen_info;
  edid_info = zeros edid_size;
}

abbrev pub no_edid : Edid
no_edid = record { size_of_edid = 0; edid = none }

-- The status, and the boot parameters, which change on errors too.
abbrev pub GraphicsResult : Type 0
GraphicsResult = EfiStatus × BootParams

module _ (fw : Firmware) (display : Display) (config : WbootConfig) where
  -- The EDID of the second protocol, where there is one.
  second_edid : EfiStatus × Edid → Io Edid
  second_edid (status, edid) = pure (if is_success status then edid else no_edid)

  first_edid : Ptr → EfiStatus × Edid → Io Edid
  first_edid handle (status, edid) =
      if is_success status then pure edid else discovered_edid display handle >>= second_edid

  with_edid : BootParams → Edid → Io GraphicsResult
  with_edid params edid =
      pure (success, record params { edid_info = setup_edid_info edid.size_of_edid edid.edid })

  with_screen : BootParams → Ptr → GopMode → Io GraphicsResult
  with_screen params handle mode = active_edid display handle >>= λ x.
      first_edid handle x
      >>= with_edid (record params { screen_info = setup_screen_info params.screen_info mode })

  with_primary : BootParams → FoundGop → Io GraphicsResult
  with_primary params found =
      if found.handle == 0
      then pure (not_found, params)
      else set_mode display found.gop config fw
        >> (gop_mode display found.gop >>= with_screen params found.handle)

  with_handles : BootParams → EfiStatus × List Ptr → Io GraphicsResult
  with_handles params (status, handles) =
      if not (is_success status)
      then pure (status, params)
      else find_handle_with_primary_gop display handles >>= with_primary params

  -- `wboot_setup_graphics`; the buffer of the handles is never freed.
  unfoldable pub wboot_setup_graphics : BootParams → Io GraphicsResult
  unfolding with_handles with_primary with_screen with_edid first_edid second_edid locate_handles
      active_edid discovered_edid gop_mode set_mode find_handle_with_primary_gop setup_screen_info
      setup_edid_info
  wboot_setup_graphics params = locate_handles display >>= with_handles (clear_graphics params)
