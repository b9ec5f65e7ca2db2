-- ===== src/Graphics/Mode.antt =====
-- The choice of the graphics mode in src/phase3/wboot_graphics.c: `match_auto`, `match_res`,
-- `choose_mode`, `choose_mode_auto`, `choose_mode_res` and `set_mode`.
pub mod Choice
use wboot.Prelude.{
  ℕ, zero, suc, ◌+◌, ◌*◌, ◌%◌, Bool, true, false, ◌&&◌, ◌||◌, not, List, [], ◌∷◌, codes, ltb, ◌==◌,
  if◌then◌else◌,
}
use wboot.Prelude.Int.{ℤ, pos, negsuc}
use wboot.Prelude.Words.{u32_mod}
use wboot.Stdlib.Printf.{word, wide}
use wboot.Stdlib.Alloc.{Io, pure, ◌>>=◌, ◌>>◌, print, strerror}
use wboot.Efi.{Ptr, Firmware, EfiStatus}
use wboot.Efi.Uefi.{is_success}
use wboot.Config.{WbootConfig}
use wboot.Graphics.{
  PixelFormat, blt_only, other_format, format_number, ModeInfo, GopMode, Display, gop_mode,
  query_mode, switch_mode,
}
use wboot.Graphics.Bits.{pixel_bpp}

-- `pf == PixelBltOnly || pf >= PixelFormatMax`
abbrev pub is_unusable : PixelFormat → Bool
is_unusable blt_only = true
is_unusable (other_format n) = true
is_unusable _ = false

-- `config->mode_format < 0 || config->mode_format == pf`
abbrev pub format_matches : ℤ → PixelFormat → Bool
format_matches (negsuc n) pf = true
format_matches (pos n) pf = n == format_number pf

unfoldable pub match_res : WbootConfig → ModeInfo → Bool
unfolding pixel_bpp
match_res config info =
    not (is_unusable info.pixel_format)
    && (config.mode_width == info.horizontal_resolution
        && (config.mode_height == info.vertical_resolution
            && (format_matches config.mode_format info.pixel_format
                && (config.mode_depth == 0
                    || config.mode_depth == pixel_bpp info.pixel_format info.pixel_information))))

-- `struct match`
pub record Match : Type 0 where
  pub mode : ℕ
  pub area : ℕ
  pub depth : ℕ

-- The return value and `*ctx`.
unfoldable pub match_auto : ModeInfo → ℕ → Match → Bool × Match
unfolding pixel_bpp
match_auto info mode m =
    let area = (info.horizontal_resolution * info.vertical_resolution) % u32_mod in
    let depth = pixel_bpp info.pixel_format info.pixel_information in
    if is_unusable info.pixel_format
    then (false, m)
    else if ltb m.area area || (area == m.area && ltb m.depth depth)
    then (false, record { mode = mode; area = area; depth = depth })
    else (false, m)

module _ (display : Display) (gop : Ptr) where
  -- The loop of `choose_mode`, from a mode on, with what `ctx` points at. Behind it the result is
  -- the number that `ctx` is.
  module _ {C : Type 0} (accepts : ModeInfo → ℕ → C → Bool × C) (ctx_number : ℕ) where
    unfoldable pub mode_queried : ℕ → C → (C → Io (ℕ × C)) → EfiStatus × ModeInfo → Io (ℕ × C)
    mode_queried m ctx rest (status, info) =
        let (found, ctx') = accepts info m ctx in
        if not (is_success status) then rest ctx else if found then pure (m, ctx') else rest ctx'

    unfoldable pub choose_from : ℕ → ℕ → C → Io (ℕ × C)
    unfolding mode_queried query_mode
    choose_from zero m ctx = pure (ctx_number, ctx)
    choose_from (suc left) m ctx =
        query_mode display gop m >>= mode_queried m ctx (choose_from left (m + 1))

    unfoldable pub choose_mode : C → Io (ℕ × C)
    unfolding choose_from gop_mode
    choose_mode ctx = gop_mode display gop >>= λ mode. choose_from mode.max_mode 0 ctx

  -- `choose_mode_auto`, which nothing calls; with the number that the address of `match` is.
  unfoldable pub choose_mode_auto : ℕ → Io ℕ
  unfolding match_auto choose_mode
  choose_mode_auto ctx_number =
      choose_mode match_auto ctx_number (record { mode = 0; area = 0; depth = 0 }) >>= λ x.
      pure x.1.mode

  module _ (config : WbootConfig) where
    unfoldable pub choose_mode_res : Io ℕ
    unfolding match_res choose_mode gop_mode
    choose_mode_res = gop_mode display gop >>= λ mode.
        if match_res config mode.info
        then pure mode.mode
        else choose_mode (λ info m ctx. (match_res config info, ctx)) mode.mode (tt {0}) >>= λ x.
            pure x.0

    mode_set : Firmware → ℕ → EfiStatus → Io (Unit {0})
    mode_set fw new_mode status =
        if fw.efi_error status
        then print (codes "    [set_mode] error setting graphics mode to %u: %s\r\n")
            (word new_mode ∷ wide (strerror status) ∷ [])
        else pure tt

    unfoldable pub set_mode : Firmware → Io (Unit {0})
    unfolding choose_mode_res switch_mode mode_set
    set_mode fw = gop_mode display gop >>= λ mode. choose_mode_res >>= λ new_mode.
        if new_mode == mode.mode
        then pure tt
        else switch_mode display gop new_mode >>= mode_set fw new_mode
