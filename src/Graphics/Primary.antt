-- ===== src/Graphics/Primary.antt =====
-- `find_handle_with_primary_gop` of src/phase3/wboot_graphics.c.
pub mod Search
use wboot.Prelude.{ℕ, Bool, true, false, not, List, [], ◌∷◌, ◌==◌, if◌then◌else◌}
use wboot.Stdlib.Alloc.{Io, pure, ◌>>=◌}
use wboot.Efi.{Ptr, EfiStatus}
use wboot.Efi.Uefi.{is_success}
use wboot.Graphics.{Display, GopMode, graphics_output, text_output, gop_mode}
use wboot.Graphics.Mode.{is_unusable}

-- The handle that is returned and `*found_gop`; NULL is 0.
pub record FoundGop : Type 0 where
  pub handle : Ptr
  pub gop : Ptr

-- `if (!first_gop_handle)`
abbrev pub keep_first : FoundGop → FoundGop → FoundGop
keep_first first found = if first.handle == 0 then found else first

module _ (display : Display) where
  -- The end of the loop's body, with the status of the handle's text output.
  consoled : FoundGop → FoundGop → (FoundGop → Io FoundGop) → EfiStatus → Io FoundGop
  consoled first found rest status =
      if is_success status then pure found else rest (keep_first first found)

  with_mode : FoundGop → FoundGop → (FoundGop → Io FoundGop) → GopMode → Io FoundGop
  with_mode first found rest mode =
      if is_unusable mode.info.pixel_format
      then rest first
      else text_output display found.handle >>= consoled first found rest

  with_gop : Ptr → FoundGop → (FoundGop → Io FoundGop) → EfiStatus × Ptr → Io FoundGop
  with_gop h first rest (status, gop) =
      if not (is_success status)
      then rest first
      else gop_mode display gop >>= with_mode first (record { handle = h; gop = gop }) rest

  -- The loop over the handles.
  search_gops : List Ptr → FoundGop → Io FoundGop
  search_gops [] first = pure first
  search_gops (h ∷ handles) first =
      graphics_output display h >>= with_gop h first (search_gops handles)

  unfoldable pub find_handle_with_primary_gop : List Ptr → Io FoundGop
  unfolding search_gops with_gop with_mode consoled graphics_output text_output gop_mode
  find_handle_with_primary_gop handles = search_gops handles (record { handle = 0; gop = 0 })
