-- ===== src/Stdlib/Memory/Laws.antt =====
-- What `memcpy`, `memset` and `memmove` leave at every address.
use wboot.Prelude.{
  ℕ, zero, suc, ◌+◌, ◌-◌, ◌%◌, ◌≤◌, ◌≡◌, ◌⊎◌, arith, Bool, ◌&&◌, leb, ltb, if◌then◌else◌,
}
use wboot.Prelude.Words.{u8_mod}
use wboot.Stdlib.Memory.{Memory, store, copy_up, copy_down, fill_up, memcpy, memset, memmove}

-- Address `a` lies in the `n` bytes from `p` on.
abbrev pub in_range : ℕ → ℕ → ℕ → Bool
in_range p n a = leb p a && ltb a (p + n)

-- The memory with the `n` bytes from `s` on, as they were, at `d`.
abbrev pub copied : ℕ → ℕ → ℕ → Memory → Memory
copied d s n m a = if in_range d n a then m (s + (a - d)) else m a

copy_up-copied :
    (k i d s a : ℕ) (m : Memory)
    → (d ≤ s) ⊎ (s + i + k ≤ d)
    → copy_up k i d s m a ≡ (if in_range (d + i) k a then m (s + (a - d)) else m a)
unfolding copy_up
copy_up-copied zero i d s a m h = ground arith
copy_up-copied (suc k) i d s a m h =
    ground (arith, copy_up-copied k (i + 1) d s a (store m (d + i) (m (s + i))))

-- From the top down, the source may lie below the destination and overlap it.
copy_down-copied :
    (k d s a : ℕ) (m : Memory)
    → s ≤ d
    → copy_down k d s m a ≡ (if in_range d k a then m (s + (a - d)) else m a)
unfolding copy_down
copy_down-copied zero d s a m h = ground arith
copy_down-copied (suc k) d s a m h =
    ground (arith, copy_down-copied k d s a (store m (d + k) (m (s + k))))

fill_up_lem :
    (k i p c a : ℕ) (m : Memory)
    → fill_up k i p c m a ≡ (if in_range (p + i) k a then c % u8_mod else m a)
unfolding fill_up
fill_up_lem zero i p c a m = ground arith
fill_up_lem (suc k) i p c a m =
    ground (arith, fill_up_lem k (i + 1) p c a (store m (p + i) (c % u8_mod)))

-- `memmove` copies the source as it was, also where it overlaps the destination, and changes
-- nothing else.
pub memmove-copied :
    (dest src n : ℕ) (m : Memory) (a : ℕ) → memmove dest src n m a ≡ copied dest src n m a
unfolding memmove
memmove-copied dest src n m a =
    ground (arith, copy_up-copied n 0 dest src a m, copy_down-copied n dest src a m)

-- `memcpy` copies the source and changes nothing else, where the destination does not overlap it
-- or stands below it.
pub memcpy-copied :
    (dest src n : ℕ) (m : Memory) (a : ℕ)
    → (dest ≤ src) ⊎ (src + n ≤ dest)
    → memcpy dest src n m a ≡ copied dest src n m a
unfolding memcpy
memcpy-copied dest src n m a h = ground (arith, copy_up-copied n 0 dest src a m)

-- `memset` writes the low byte of `c` to each of the `n` bytes, and changes nothing else.
pub memset_lem :
    (p c n : ℕ) (m : Memory) (a : ℕ)
    → memset p c n m a ≡ (if in_range p n a then c % u8_mod else m a)
unfolding memset
memset_lem p c n m a = ground (arith, fill_up_lem n 0 p c a m)
