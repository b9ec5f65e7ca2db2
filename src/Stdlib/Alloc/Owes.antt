-- ===== src/Stdlib/Alloc/Owes.antt =====
-- Rules for the accounts of a chain of calls over the firmware (src/shared/wstdlib.c).
use wboot.Prelude.{
  ℕ, ◌+◌, ◌≡◌, refl, ap, ◌∙◌, ==_iff, arith, Bool, true, false, List, Text, codes, [], ◌∷◌, ◌==◌,
  if◌then◌else◌,
}
use wboot.Efi.{Ptr, Firmware, EfiStatus, PageRequest}
use wboot.Efi.Pages.{allocate_pages, free_pages, allocate_pages-Balanced, free_pages-Balanced}
use wboot.Stdlib.Alloc.{
  Machine, Io, pure, ◌>>=◌, ◌>>◌, print, get_errno, perror, strerror, malloc, free,
}
use wboot.Stdlib.Printf.{Arg, wide}
use wboot.Stdlib.Alloc.Balance.{
  Resource, refers, refers_pages, IsReal, Balanced, malloc-Balanced, free-Balanced, Balanced-trans,
  print-Balanced,
}

module _ (fw : Firmware) (r : Resource) (real : IsReal r) {A : Type 0} (refs : A → ℕ) where
  -- A chain that begins with `before` references to the resource leaves those of its result, from
  -- every machine that still has boot services.
  pub Owes : ℕ → Io A → Type 0
  Owes before c = (m : Machine) → m.bs_exited ≡ false → Balanced r before m (refs (c m).0) (c m).1

  pub Owes-run :
      (before : ℕ) (c : Io A)
      → Owes before c
      → (m : Machine) → m.bs_exited ≡ false
      → Balanced r before m (refs (c m).0) (c m).1
  unfolding Owes
  Owes-run before c h = h

  pub Owes-pure : (a : A) (k : ℕ) → k ≡ refs a → Owes k (pure a)
  unfolding Owes
  Owes-pure a k e m h = record { accounts = omega arith; still_running = h }

  pub Owes-eq : (a b : ℕ) (c : Io A) → a ≡ b → Owes a c → Owes b c
  unfolding Owes
  Owes-eq a b c e h m running =
      let k = h m running in record { accounts = omega arith; still_running = k.still_running }

  pub Owes-if :
      (b : Bool) (f g : Io A) (k : ℕ)
      → (b ≡ true → Owes k f)
      → (b ≡ false → Owes k g)
      → Owes k (if b then f else g)
  Owes-if true f g k h l = h refl
  Owes-if false f g k h l = l refl

  -- A call that moves references, before the rest.
  pub Owes-bind :
      {B : Type 0} (c : Io B) (next : B → Io A) (k : ℕ) (mid : B → ℕ)
      → ((m : Machine) → m.bs_exited ≡ false → Balanced r k m (mid (c m).0) (c m).1)
      → ((b : B) → Owes (mid b) (next b))
      → Owes k (c >>= next)
  unfolding Owes
  Owes-bind c next k mid h rest m running =
      let first = h m running in Balanced-trans first (rest (c m).0 (c m).1 first.still_running)

  pub Owes-print :
      (format : Text) (args : List Arg) (next : Io A) (k : ℕ)
      → Owes k next
      → Owes k (print format args >> next)
  unfolding Owes
  Owes-print format args next k rest m running =
      let said = print-Balanced fw r k m running format args in
      Balanced-trans said (rest (print format args m).1 said.still_running)

  pub Owes-perror :
      (message : Text) (status : EfiStatus) (next : Io A) (k : ℕ)
      → Owes k next
      → Owes k (perror message status >> next)
  unfolding perror
  Owes-perror message status =
      Owes-print (codes "%s: %s\r\n") (wide message ∷ wide (strerror status) ∷ [])

  pub Owes-free :
      (p : Ptr) (next : Io A) (k total : ℕ)
      → total ≡ k + refers r p
      → Owes k next
      → Owes total (free fw p >> next)
  unfolding Owes
  Owes-free p next k total e rest m running =
      let freed = free-Balanced fw r k m running p real in
      let after = rest (free fw p m).1 freed.still_running in
      record { accounts = omega arith; still_running = after.still_running }

  pub Owes-free_pages :
      (a : Ptr) (n k total : ℕ) (next : Io A)
      → total ≡ k + refers_pages r a n
      → Owes k next
      → Owes total (free_pages a n >> next)
  unfolding Owes
  Owes-free_pages a n k total next e rest m running =
      let freed = free_pages-Balanced fw r k m running a n in
      let after = rest (free_pages a n m).1 freed.still_running in
      record { accounts = omega arith; still_running = after.still_running }

  -- A `malloc` before the rest.
  pub Owes-malloc :
      (size k : ℕ) (next : Ptr → Io A)
      → ((p : Ptr) → Owes (k + refers r p) (next p))
      → Owes k (malloc fw size >>= next)
  Owes-malloc size k next =
      Owes-bind (malloc fw size) next k (λ p. k + refers r p)
        (λ m running. malloc-Balanced fw r k m running size real)

  -- `if (p == NULL)` behind it.
  pub Owes-null :
      (p : Ptr) (f g : Io A) (k : ℕ)
      → Owes k f
      → Owes (k + refers r p) g
      → Owes (k + refers r p) (if p == 0 then f else g)
  Owes-null p f g k h l =
      Owes-if (p == 0) f g (k + refers r p)
        (λ e.
          let null = ap (refers r) ((==_iff p 0).0 e) ∙ real in
          Owes-eq k (k + refers r p) f (omega arith) h)
        (λ e. l)

  -- `AllocatePages` before the rest.
  pub Owes-allocate_pages :
      (request : PageRequest) (n k : ℕ) (next : EfiStatus × Ptr → Io A)
      → ((x : EfiStatus × Ptr)
          → Owes (k + (if fw.efi_error x.0 then 0 else refers_pages r x.1 n)) (next x))
      → Owes k (allocate_pages fw request n >>= next)
  Owes-allocate_pages request n k next =
      Owes-bind (allocate_pages fw request n) next k
        (λ x. k + (if fw.efi_error x.0 then 0 else refers_pages r x.1 n))
        (λ m running. allocate_pages-Balanced fw r k m running request n)

  -- `if (EFI_ERROR(status))` behind it.
  pub Owes-refused :
      (b : Bool) (a : ℕ) (f g : Io A) (k : ℕ)
      → Owes k f
      → Owes (k + a) g
      → Owes (k + (if b then 0 else a)) (if b then f else g)
  Owes-refused true a f g k h l = Owes-eq k (k + 0) f (omega arith) h
  Owes-refused false a f g k h l = l

  pub Owes-get_errno :
      (k : ℕ) (next : EfiStatus → Io A)
      → ((e : EfiStatus) → Owes k (next e))
      → Owes k (get_errno >>= next)
  unfolding Owes
  Owes-get_errno k next h m running = h m.errno m running
