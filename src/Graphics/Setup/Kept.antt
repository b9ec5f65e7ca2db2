-- ===== src/Graphics/Setup/Kept.antt =====
-- What `wboot_setup_graphics` of src/phase3/wboot_graphics.c leaves alone.
use wboot.Prelude.{◌≡◌, not, List, ◌==◌}
use wboot.Stdlib.Alloc.{◌>>=◌}
use wboot.Stdlib.Alloc.Ends.{Ends, Ends-pure, Ends-bind, Ends-if, Ends-then}
use wboot.Efi.{Ptr, Firmware, EfiStatus, not_found, success}
use wboot.Efi.Uefi.{is_success}
use wboot.Config.{WbootConfig}
use wboot.Linux.{SetupHeader}
use wboot.Linux.BootParams.{BootParams}
use wboot.Graphics.{Display, GopMode, locate_handles, active_edid, gop_mode}
use wboot.Graphics.Mode.{set_mode}
use wboot.Graphics.Primary.{FoundGop, find_handle_with_primary_gop}
use wboot.Graphics.Screen.{setup_screen_info, setup_edid_info}
use wboot.Graphics.Setup.{
  GraphicsResult, clear_graphics, first_edid, with_edid, with_screen, with_primary, with_handles,
  wboot_setup_graphics,
}

module _ (fw : Firmware) (display : Display) (config : WbootConfig) (hdr : SetupHeader) where
  abbrev pub HasHeader : GraphicsResult → Type 0
  HasHeader (status, params) = params.hdr ≡ hdr

  with_screen-Ends :
      (params : BootParams) (handle : Ptr) (mode : GopMode)
      → params.hdr ≡ hdr
      → Ends HasHeader (with_screen fw display config params handle mode)
  unfolding with_screen with_edid
  with_screen-Ends params handle mode h =
      let params' : BootParams = record params {
        screen_info = setup_screen_info params.screen_info mode;
      } in
      Ends-bind HasHeader (active_edid display handle)
        (λ x. first_edid fw display config handle x >>= with_edid fw display config params')
        (λ x.
          Ends-bind HasHeader (first_edid fw display config handle x)
            (with_edid fw display config params')
            (λ edid.
              Ends-pure HasHeader
                (
                  success,
                  record params' { edid_info = setup_edid_info edid.size_of_edid edid.edid },
                )
                h))

  with_primary-Ends :
      (params : BootParams) (found : FoundGop)
      → params.hdr ≡ hdr
      → Ends HasHeader (with_primary fw display config params found)
  unfolding with_primary
  with_primary-Ends params found h =
      Ends-if HasHeader (found.handle == 0) _ _ (λ e. Ends-pure HasHeader (not_found, params) h)
        (λ e.
          Ends-then HasHeader (set_mode display found.gop config fw)
            (gop_mode display found.gop >>= with_screen fw display config params found.handle)
            (Ends-bind HasHeader (gop_mode display found.gop)
              (with_screen fw display config params found.handle)
              (λ mode. with_screen-Ends params found.handle mode h)))

  with_handles-Ends :
      (params : BootParams) (x : EfiStatus × List Ptr)
      → params.hdr ≡ hdr
      → Ends HasHeader (with_handles fw display config params x)
  unfolding with_handles
  with_handles-Ends params x h =
      Ends-if HasHeader (not (is_success x.0)) _ _ (λ e. Ends-pure HasHeader (x.0, params) h)
        (λ e.
          Ends-bind HasHeader (find_handle_with_primary_gop display x.1)
            (with_primary fw display config params) (λ found. with_primary-Ends params found h))

  -- `wboot_setup_graphics` does not change the header in the boot parameters.
  pub wboot_setup_graphics-HasHeader :
      (params : BootParams)
      → params.hdr ≡ hdr
      → Ends HasHeader (wboot_setup_graphics fw display config params)
  unfolding wboot_setup_graphics
  wboot_setup_graphics-HasHeader params h =
      Ends-bind HasHeader (locate_handles display)
        (with_handles fw display config (clear_graphics params))
        (λ x. with_handles-Ends (clear_graphics params) x h)
