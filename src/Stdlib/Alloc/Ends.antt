-- ===== src/Stdlib/Alloc/Ends.antt =====
-- Rules for what the result of a chain of calls says, whatever the machine.
use wboot.Prelude.{ℕ, arith, ◌≡◌, refl, Bool, true, false, if◌then◌else◌}
use wboot.Efi.{Ptr, Firmware}
use wboot.Efi.Uefi.{IsUefi}
use wboot.Stdlib.Alloc.{Machine, Io, pure, ◌>>=◌, ◌>>◌, malloc}

module _ {A : Type 0} (P : A → Type 0) where
  pub Ends : Io A → Type 0
  Ends c = (m : Machine) → P (c m).0

  pub Ends_run : (c : Io A) → Ends c → (m : Machine) → P (c m).0
  unfolding Ends
  Ends_run c h = h

  -- From each machine.
  pub Ends-each : (c : Io A) → ((m : Machine) → P (c m).0) → Ends c
  unfolding Ends
  Ends-each c h = h

  pub Ends-pure : (a : A) → P a → Ends (pure a)
  unfolding Ends
  Ends-pure a h m = h

  pub Ends-bind :
      {B : Type 0} (c : Io B) (next : B → Io A) → ((b : B) → Ends (next b)) → Ends (c >>= next)
  unfolding Ends
  Ends-bind c next h m = h (c m).0 (c m).1

  pub Ends-if :
      (b : Bool) (f g : Io A)
      → (b ≡ true → Ends f)
      → (b ≡ false → Ends g)
      → Ends (if b then f else g)
  Ends-if true f g h k = h refl
  Ends-if false f g h k = k refl

  pub Ends-then : (c : Io (Unit {0})) (next : Io A) → Ends next → Ends (c >> next)
  unfolding Ends
  Ends-then c next h m = h (c m).1

-- A call with a postcondition, before the rest.
pub Ends-chain :
    {A B : Type 0} (P : A → Type 0) (Q : B → Type 0) (c : Io B) (next : B → Io A)
    → Ends Q c
    → ((b : B) → Q b → Ends P (next b))
    → Ends P (c >>= next)
unfolding Ends
Ends-chain P Q c next h k m = k (c m).0 (h m) (c m).1

module _ (fw : Firmware) (uefi : IsUefi fw) where
  -- Where `malloc` returns NULL, `errno` is an error.
  pub malloc-errno :
      (size : ℕ) (m : Machine)
      → (malloc fw size m).0 ≡ 0
      → fw.efi_error (malloc fw size m).1.errno ≡ true
  unfolding malloc
  malloc-errno size m null =
      ground (arith, uefi.out_of_resources_error, uefi.pool_real m.events size)

  pub Ends-malloc :
      {A : Type 0} (P : A → Type 0) (size : ℕ) (next : Ptr → Io A)
      → ((p : Ptr) (m : Machine) → (p ≡ 0 → fw.efi_error m.errno ≡ true) → P (next p m).0)
      → Ends P (malloc fw size >>= next)
  unfolding Ends
  Ends-malloc P size next h m = h (malloc fw size m).0 (malloc fw size m).1 (malloc-errno size m)
