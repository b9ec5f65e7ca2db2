-- ===== src/Config/Load/Account.antt =====
-- What a part of `wboot_load_config` (src/phase3/wboot_config.c) leaves with its caller.
use wboot.Prelude.{
  ℕ, ◌+◌, ◌≡◌, refl, ap, ◌∙◌, ==_iff, arith, Bool, true, false, Option, none, some, List, [], ◌∷◌,
  Text, codes, ◌==◌, if◌then◌else◌,
}
use wboot.Efi.{Ptr, Firmware, EfiStatus}
use wboot.Stdlib.Alloc.{Machine, Io, ◌>>=◌, ◌>>◌, print, get_errno, perror, strerror, malloc}
use wboot.Stdlib.Printf.{Arg, wide}
use wboot.Stdlib.Alloc.Balance.{
  Resource, refers, IsReal, Balanced, malloc-Balanced, Balanced-trans, print-Balanced,
}
use wboot.Config.Line.Ownership.{owned}
use wboot.Config.Load.{Sizes, LoadedConfig}

module _ (fw : Firmware) (sizes : Sizes) (r : Resource) (real : IsReal r) where
  -- What the result of the load refers to.
  abbrev pub loaded_refs : Option LoadedConfig → ℕ
  loaded_refs none = 0
  loaded_refs (some loaded) = refers r loaded.ptr + owned r loaded.config

  abbrev pub Loads : ℕ → Machine → Option LoadedConfig × Machine → Type 0
  Loads before m (loaded, m') = Balanced r before m (loaded_refs loaded) m'

  pub Loads-if :
      (c : Bool) (f g : Io (Option LoadedConfig)) {before : ℕ} {m : Machine}
      → Loads before m (f m)
      → Loads before m (g m)
      → Loads before m ((if c then f else g) m)
  Loads-if true f g h k = h
  Loads-if false f g h k = k

  pub Loads-when :
      (c : Bool) (f g : Io (Option LoadedConfig)) {before : ℕ} {m : Machine} (m' : Machine)
      → (c ≡ true → Loads before m (f m'))
      → (c ≡ false → Loads before m (g m'))
      → Loads before m ((if c then f else g) m')
  Loads-when true f g m' h k = h refl
  Loads-when false f g m' h k = k refl

  -- A call of `printf` before a call that loads.
  pub print-Loads :
      (format : Text) (args : List Arg) (next : Io (Option LoadedConfig)) (before : ℕ) (m : Machine)
      → m.bs_exited ≡ false
      → ((m' : Machine) → m'.bs_exited ≡ false → Loads before m' (next m'))
      → Loads before m ((print format args >> next) m)
  print-Loads format args next before m h then_loads =
      let said = print-Balanced fw r before m h format args in
      Balanced-trans said (then_loads (print format args m).1 said.still_running)

  pub perror-Loads :
      (message : Text) (status : EfiStatus) (next : Io (Option LoadedConfig)) (before : ℕ)
      (m : Machine)
      → m.bs_exited ≡ false
      → ((m' : Machine) → m'.bs_exited ≡ false → Loads before m' (next m'))
      → Loads before m ((perror message status >> next) m)
  unfolding perror
  perror-Loads message status =
      print-Loads (codes "%s: %s\r\n") (wide message ∷ wide (strerror status) ∷ [])

  -- NULL refers to nothing, so a failed allocation leaves nothing to give back.
  none_lent :
      (p : Ptr) (k : ℕ) {m m' : Machine}
      → Balanced r k m (k + refers r p) m'
      → (p == 0) ≡ true
      → Balanced r k m k m'
  none_lent p k h e =
      let null = ap (refers r) ((==_iff p 0).0 e) ∙ real in
      record { accounts = omega arith; still_running = h.still_running }

  -- `if (p == NULL)` behind a `malloc`.
  pub Loads-malloc :
      (size : ℕ) (f g : Ptr → Io (Option LoadedConfig)) (k : ℕ) (m : Machine)
      → m.bs_exited ≡ false
      → ((p : Ptr) (m' : Machine) → m'.bs_exited ≡ false → Loads k m' (f p m'))
      → ((p : Ptr) (m' : Machine) → m'.bs_exited ≡ false → Loads (k + refers r p) m' (g p m'))
      → Loads k m ((malloc fw size >>= λ p. if p == 0 then f p else g p) m)
  Loads-malloc size f g k m h refused granted =
      let p = (malloc fw size m).0 in
      let m' = (malloc fw size m).1 in
      let lent = malloc-Balanced fw r k m h size real in
      Loads-when (p == 0) (f p) (g p) m'
        (λ e. Balanced-trans (none_lent p k lent e) (refused p m' lent.still_running))
        (λ e. Balanced-trans lent (granted p m' lent.still_running))

  pub perror_errno-Loads :
      (message : Text) (next : Io (Option LoadedConfig)) (before : ℕ) (m : Machine)
      → m.bs_exited ≡ false
      → ((m' : Machine) → m'.bs_exited ≡ false → Loads before m' (next m'))
      → Loads before m ((get_errno >>= λ status. perror message status >> next) m)
  perror_errno-Loads message next before m = perror-Loads message m.errno next before m
