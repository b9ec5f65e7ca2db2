-- ===== src/Graphics/Mode/Choice.antt =====
-- Which mode `choose_mode_res` of src/phase3/wboot_graphics.c chooses.
use wboot.Prelude.{
  ℕ, zero, suc, ◌+◌, ◌<◌, ◌≡◌, ◌⊎◌, inl, inr, refl, arith, Bool, true, false, ◌&&◌, ◌||◌,
  if◌then◌else◌, Bool-cases, ap, subst, ◌∙◌,
}
use wboot.Stdlib.Alloc.{Machine, Io}
use wboot.Efi.{Ptr, Events, EfiStatus}
use wboot.Efi.Uefi.{is_success}
use wboot.Config.{WbootConfig}
use wboot.Graphics.{ModeInfo, GopMode, Display, gop_mode, query_mode}
use wboot.Graphics.Mode.{match_res, mode_queried, choose_from, choose_mode, choose_mode_res}

-- Whether a number below `n` satisfies the test.
abbrev pub any_below : (ℕ → Bool) → ℕ → Bool
any_below f zero = false
any_below f (suc n) = any_below f n || f n

-- The first number below `n` that satisfies the test, or none does and it is the fallback.
abbrev pub IsFirst : (ℕ → Bool) → ℕ → ℕ → ℕ → Type 0
IsFirst f n fallback x =
    ((x < n) × (f x ≡ true) × (any_below f x ≡ false)) ⊎ ((x ≡ fallback) × (any_below f n ≡ false))

-- Whether the firmware's answer on a mode is one that the configuration asks for.
abbrev pub accepts : WbootConfig → (ℕ → EfiStatus × ModeInfo) → ℕ → Bool
accepts config answers n = is_success (answers n).0 && match_res config (answers n).1

-- The current mode where it is what the configuration asks for; else the first such mode; else the
-- current mode.
abbrev pub IsChoice : WbootConfig → (ℕ → EfiStatus × ModeInfo) → GopMode → ℕ → Type 0
IsChoice config answers mode x =
    ((match_res config mode.info ≡ true) × (x ≡ mode.mode))
    ⊎ ((match_res config mode.info ≡ false)
        × IsFirst (accepts config answers) mode.max_mode mode.mode x)

module _ (display : Display) (gop : Ptr) (config : WbootConfig) (answers : ℕ → EfiStatus × ModeInfo)
    (stable : (events : Events) (n : ℕ) → display.query_mode events gop n ≡ answers n) where
  abbrev match_mode : ModeInfo → ℕ → Unit {0} → Bool × Unit {0}
  match_mode info m ctx = (match_res config info, ctx)

  queried_lem :
      (number n : ℕ) (rest : Unit {0} → Io (ℕ × Unit {0})) (x : EfiStatus × ModeInfo) (m : Machine)
      → (mode_queried display gop match_mode number n tt rest x m).0.0
        ≡ (if is_success x.0 && match_res config x.1 then n else (rest tt m).0.0)
  unfolding mode_queried
  queried_lem number n rest (status, info) m = elim (Bool-cases (is_success status)) [
    | inl e ↦ elim (Bool-cases (match_res config info)) [
      | inl k ↦ rw (e, k) refl
      | inr k ↦ rw (e, k) refl
    ]
    | inr e ↦ rw e refl
  ]

  abbrev after : ℕ → Machine → Machine
  after n m = (query_mode display gop n m).1

  step_lem :
      (number left n : ℕ) (m : Machine)
      → (choose_from display gop match_mode number (suc left) n tt m).0.0 ≡ (
          if accepts config answers n
          then n
          else (choose_from display gop match_mode number left (n + 1) tt (after n m)).0.0)
  unfolding choose_from query_mode
  step_lem number left n m =
      let rest = (choose_from display gop match_mode number left (n + 1) tt (after n m)).0.0 in
      queried_lem number n (choose_from display gop match_mode number left (n + 1))
        (display.query_mode m.events gop n) (after n m)
      ∙ ap
          (λ (x : EfiStatus × ModeInfo). if is_success x.0 && match_res config x.1 then n else rest)
          (stable m.events n)

  choose_from-IsFirst :
      (number left n total : ℕ) (m : Machine)
      → n + left ≡ total
      → any_below (accepts config answers) n ≡ false
      → IsFirst
          (accepts config answers)
          total
          number
          (choose_from display gop match_mode number left n tt m).0.0
  unfolding choose_from
  choose_from-IsFirst number zero n total m sum h =
      let same : n ≡ total = omega arith in
      inr (refl, subst (λ (k : ℕ). any_below (accepts config answers) k ≡ false) same h)
  choose_from-IsFirst number (suc left) n total m sum h =
      let step = step_lem number left n m in
      elim (Bool-cases (accepts config answers n)) [
        | inl e ↦ rw (step, e) (inl (omega arith, e, h))
        | inr e ↦
            let none : any_below (accepts config answers) (suc n) ≡ false = rw (h, e) refl in
            let next : suc n ≡ n + 1 = omega arith in
            rw (step, e)
              (choose_from-IsFirst number left (n + 1) total (after n m) (omega arith)
                (subst (λ (k : ℕ). any_below (accepts config answers) k ≡ false) next none))
      ]

  -- `choose_mode_res` chooses the current mode where it is what the configuration asks for; else the
  -- first mode that is and of which the firmware gives the information; else the current mode. The
  -- firmware always gives the same information on a mode.
  pub choose_mode_res-IsChoice :
      (m : Machine)
      → IsChoice config answers
          (display.gop_mode m.events gop)
          (choose_mode_res display gop config m).0
  unfolding choose_mode_res gop_mode choose_mode
  choose_mode_res-IsChoice m =
      let mode = display.gop_mode m.events gop in
      elim (Bool-cases (match_res config mode.info)) [
        | inl e ↦ rw e (inl (refl, refl))
        | inr e ↦ rw e (
            inr (
              refl,
              choose_from-IsFirst mode.mode mode.max_mode 0 mode.max_mode m (omega arith) refl,
            ))
      ]
