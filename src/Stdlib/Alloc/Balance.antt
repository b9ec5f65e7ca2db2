-- ===== src/Stdlib/Alloc/Balance.antt =====
-- Who owns what `malloc` of src/shared/wstdlib.c has given: an account for each pointer.
use wboot.Prelude.{
  ℕ, ◌+◌, ◌*◌, ◌≡◌, leb, ltb, ◌&&◌, refl, arith, Bool, false, List, [], ◌∷◌, Text, ◌==◌,
  if◌then◌else◌,
}
use wboot.Efi.{
  Ptr, pool_allocated, pool_freed, Events, Firmware, EfiStatus, file_opened, file_closed,
  pages_allocated, pages_freed,
}
use wboot.Stdlib.Printf.{Arg}
use wboot.Stdlib.Alloc.{Machine, print, malloc, allocate, free, release, duplicate}

abbrev pub one_if : Bool → ℕ
one_if b = if b then 1 else 0

-- What the firmware lends: a buffer of the pool, an open file, or the page at an address.
pub data Resource : Type 0 where
  pool : Ptr → Resource
  file : Ptr → Resource
  pages : Ptr → Resource

-- How often a pointer to a buffer, or an open file, refers to the resource.
unfoldable pub refers : Resource → Ptr → ℕ
refers (pool p) q = one_if (q == p)
refers (file f) q = 0
refers (pages a) q = 0

unfoldable pub refers_file : Resource → Ptr → ℕ
refers_file (pool p) q = 0
refers_file (file f) q = one_if (q == f)
refers_file (pages a) q = 0

-- Of `n` pages from an address on, whether the resource is one.
unfoldable pub refers_pages : Resource → Ptr → ℕ → ℕ
refers_pages (pages a) q n = one_if (leb q a && ltb a (q + n * 4096))
refers_pages _ q n = 0

-- NULL is no buffer.
abbrev pub IsReal : Resource → Type 0
IsReal r = refers r 0 ≡ 0

-- How often the firmware has lent the resource, and how often it got it back.
abbrev pub given : Resource → Events → ℕ
given r [] = 0
given r (pool_allocated size q ∷ events) = refers r q + given r events
given r (file_opened root path f ∷ events) = refers_file r f + given r events
given r (pages_allocated n a ∷ events) = refers_pages r a n + given r events
given r (e ∷ events) = given r events

abbrev pub returned : Resource → Events → ℕ
returned r [] = 0
returned r (pool_freed q status ∷ events) = refers r q + returned r events
returned r (file_closed f ∷ events) = refers_file r f + returned r events
returned r (pages_freed a n ∷ events) = refers_pages r a n + returned r events
returned r (e ∷ events) = returned r events

-- A call that begins with `before` references to the resource ends with `after`: it was lent and
-- given back so often that no reference is lost and none is given back twice. Boot services go on.
pub record Balanced (r : Resource) (before : ℕ) (m : Machine) (after : ℕ) (m' : Machine)
    : Type 0 where
  pub accounts :
      given r m'.events + returned r m.events + before
      ≡ given r m.events + returned r m'.events + after
  pub still_running : m'.bs_exited ≡ false

pub Balanced-trans :
    {r : Resource} {a b c : ℕ} {m m' m'' : Machine}
    → Balanced r a m b m'
    → Balanced r b m' c m''
    → Balanced r a m c m''
Balanced-trans h k = record { accounts = omega arith; still_running = k.still_running }

-- References that a call leaves alone.
pub Balanced-frame :
    {r : Resource} {a b : ℕ} {m m' : Machine} (k : ℕ)
    → Balanced r a m b m'
    → Balanced r (a + k) m (b + k) m'
Balanced-frame k h = record { accounts = omega arith; still_running = h.still_running }

pub Balanced-refl : (r : Resource) (k : ℕ) (m : Machine) → m.bs_exited ≡ false → Balanced r k m k m
Balanced-refl r k m h = record { accounts = refl; still_running = h }

module _ (fw : Firmware) (r : Resource) (k : ℕ) (m : Machine) (running : m.bs_exited ≡ false) where
  allocate-Balanced :
      (size : ℕ) (answer : EfiStatus × Ptr)
      → IsReal r
      → let (got, m') = allocate fw size answer m in Balanced r k m (k + refers r got) m'
  unfolding allocate
  allocate-Balanced size (status, ptr) h = ground arith

  -- What `malloc` returns is one reference more.
  pub malloc-Balanced :
      (size : ℕ)
      → IsReal r
      → let (got, m') = malloc fw size m in Balanced r k m (k + refers r got) m'
  unfolding malloc
  malloc-Balanced size h = simp running (allocate-Balanced size (fw.allocate_pool m.events size) h)

  -- `free` gives one reference back; NULL is none.
  pub free-Balanced : (q : Ptr) → IsReal r → Balanced r (k + refers r q) m k (free fw q m).1
  unfolding free release
  free-Balanced q h = ground arith

  pub duplicate-Balanced :
      (size : ℕ) (src : Text)
      → IsReal r
      → let (got, m') = duplicate fw size src m in Balanced r k m (k + refers r got.ptr) m'
  unfolding duplicate
  duplicate-Balanced size src h = ground (arith, malloc-Balanced size h)

  -- The event of a call of `printf` moves no reference.
  pub print-Balanced : (format : Text) (args : List Arg) → Balanced r k m k (print format args m).1
  print-Balanced format args = record { accounts = refl; still_running = running }
