-- ===== src/Graphics/Primary/Search.antt =====
-- Which display `find_handle_with_primary_gop` of src/phase3/wboot_graphics.c finds.
use wboot.Prelude.{
  ◌≡◌, ◌≢◌, refl, arith, Bool, false, not, ◌&&◌, List, [], ◌∷◌, All, ◌==◌, Bool-cases, inl, inr,
  if◌then◌else◌, ap, ◌∙◌,
}
use wboot.Stdlib.Alloc.{Machine, Io, ◌>>=◌}
use wboot.Efi.{Ptr, Events, EfiStatus, service_called}
use wboot.Efi.Uefi.{is_success}
use wboot.Graphics.{Display, GopMode, graphics_output, text_output, gop_mode}
use wboot.Graphics.Mode.{is_unusable}
use wboot.Graphics.Primary.{
  FoundGop, keep_first, consoled, with_mode, with_gop, search_gops, find_handle_with_primary_gop,
}

abbrev pub no_gop : FoundGop
no_gop = record { handle = 0; gop = 0 }

-- The answers of a firmware that do not depend on earlier calls.
pub record Answers : Type 0 where
  pub output : Ptr → EfiStatus × Ptr
  pub text : Ptr → EfiStatus
  pub mode : Ptr → GopMode

-- A handle with a graphics output that has a frame buffer; and such a one with a text output.
abbrev pub is_usable : Answers → Ptr → Bool
is_usable a h =
    is_success (a.output h).0 && not (is_unusable (a.mode (a.output h).1).info.pixel_format)

abbrev pub is_console : Answers → Ptr → Bool
is_console a h = is_usable a h && is_success (a.text h)

-- The first handle that satisfies a test, or else a given one.
abbrev pub first_or : Answers → (Ptr → Bool) → List Ptr → FoundGop → FoundGop
first_or a f [] found = found
first_or a f (h ∷ handles) found =
    if f h then record { handle = h; gop = (a.output h).1 } else first_or a f handles found

module _ (display : Display) (a : Answers)
    (output : (events : Events) (h : Ptr) → display.graphics_output events h ≡ a.output h)
    (text : (events : Events) (h : Ptr) → display.text_output events h ≡ a.text h)
    (mode : (events : Events) (gop : Ptr) → display.gop_mode events gop ≡ a.mode gop) where
  step_lem :
      (h : Ptr) (first : FoundGop) (rest : FoundGop → Io FoundGop) (m : Machine)
      → let found : FoundGop = record { handle = h; gop = (a.output h).1 } in
        (m' : Machine) × ((graphics_output display h >>= with_gop display h first rest) m).0 ≡ (
          if is_console a h
          then found
          else (rest (if is_usable a h then keep_first first found else first) m').0)
  unfolding with_gop with_mode consoled graphics_output gop_mode text_output
  step_lem h first rest m =
      let m1 = (graphics_output display h m).1 in
      let m2 = (text_output display h m1).1 in
      let gop = (a.output h).1 in
      let known = output m.events h in
      let events = service_called (a.output h).0 ∷ m.events in
      let shape = mode events gop in
      elim (Bool-cases (is_success (a.output h).0)) [
        | inr e ↦ (m1, rw (known, e) refl)
        | inl e ↦ elim (Bool-cases (is_unusable (a.mode gop).info.pixel_format)) [
          | inl u ↦ (m1, rw (known, e, shape, u) refl)
          | inr u ↦ elim (Bool-cases (is_success (a.text h))) [
            | inl c ↦ (m2, rw (known, e, shape, u, text events h, c) refl)
            | inr c ↦ (m2, rw (known, e, shape, u, text events h, c) refl)
          ]
        ]
      ]

  -- The first usable handle counts where there was none before.
  abbrev fallback : List Ptr → FoundGop → FoundGop
  fallback handles first =
      if first.handle == 0 then first_or a (is_usable a) handles first else first

  fallback_nil : (first : FoundGop) → first ≡ fallback [] first
  fallback_nil first = elim (Bool-cases (first.handle == 0)) [
    | inl e ↦ rw e refl
    | inr e ↦ rw e refl
  ]

  fallback_cons :
      (h : Ptr) (handles : List Ptr) (first : FoundGop)
      → h ≢ 0
      → let found : FoundGop = record { handle = h; gop = (a.output h).1 } in
        fallback handles (if is_usable a h then keep_first first found else first)
        ≡ fallback (h ∷ handles) first
  fallback_cons h handles first real =
      let some_handle : (h == 0) ≡ false = ground (arith, real) in
      elim (Bool-cases (first.handle == 0)) [
        | inl e ↦ elim (Bool-cases (is_usable a h)) [
          | inl u ↦ rw (u, e, some_handle) refl
          | inr u ↦ rw (u, e) refl
        ]
        | inr e ↦ elim (Bool-cases (is_usable a h)) [
          | inl u ↦ rw (u, e, e) refl
          | inr u ↦ rw (u, e) refl
        ]
      ]

  search_gops-first_or :
      (handles : List Ptr) (first : FoundGop) (m : Machine)
      → All (λ h. h ≢ 0) handles
      → (search_gops display handles first m).0
        ≡ first_or a (is_console a) handles (fallback handles first)
  unfolding search_gops
  search_gops-first_or [] first m all = fallback_nil first
  search_gops-first_or (h ∷ handles) first m (real, others) =
      let found : FoundGop = record { handle = h; gop = (a.output h).1 } in
      let first' = if is_usable a h then keep_first first found else first in
      let (m', step) = step_lem h first (search_gops display handles) m in
      step
      ∙ ap (λ (x : FoundGop). if is_console a h then found else x)
          (search_gops-first_or handles first' m' others
            ∙ ap (first_or a (is_console a) handles) (fallback_cons h handles first real))

  -- `find_handle_with_primary_gop` returns the first handle that has a graphics output with a frame
  -- buffer and a text output; else the first that has such a graphics output; else NULL. No handle is
  -- NULL, and the firmware's answers do not depend on earlier calls.
  pub find_handle_with_primary_gop-first_or :
      (handles : List Ptr) (m : Machine)
      → All (λ h. h ≢ 0) handles
      → (find_handle_with_primary_gop display handles m).0
        ≡ first_or a (is_console a) handles (first_or a (is_usable a) handles no_gop)
  unfolding find_handle_with_primary_gop
  find_handle_with_primary_gop-first_or handles m h = search_gops-first_or handles no_gop m h
