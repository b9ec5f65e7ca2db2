-- ===== src/Stdlib/Memory.antt =====
-- `memcpy`, `memset` and `memmove` of src/shared/wstdlib.c, over a flat memory of bytes: an object
-- stands at consecutive addresses, and none reaches past the end of the address space.
pub mod Laws
use wboot.Prelude.{ℕ, zero, suc, ◌+◌, ◌%◌, Bool, ltb, ◌==◌, if◌then◌else◌}
use wboot.Prelude.Words.{u8_mod}

-- The byte at each address.
abbrev pub Memory : Type 0
Memory = ℕ → ℕ

abbrev pub store : Memory → ℕ → ℕ → Memory
store m p v a = if a == p then v else m a

-- `for (i = …; i < n; i++) d[i] = s[i]`; the first argument is `n - i`.
pub copy_up : ℕ → ℕ → ℕ → ℕ → Memory → Memory
copy_up zero i d s m = m
copy_up (suc k) i d s m = copy_up k (i + 1) d s (store m (d + i) (m (s + i)))

-- `for (i = n; i > 0; i--) d[i - 1] = s[i - 1]`; the first argument is `i`.
pub copy_down : ℕ → ℕ → ℕ → Memory → Memory
copy_down zero d s m = m
copy_down (suc i) d s m = copy_down i d s (store m (d + i) (m (s + i)))

pub fill_up : ℕ → ℕ → ℕ → ℕ → Memory → Memory
fill_up zero i p c m = m
fill_up (suc k) i p c m = fill_up k (i + 1) p c (store m (p + i) (c % u8_mod))

unfoldable pub memcpy : ℕ → ℕ → ℕ → Memory → Memory
unfolding copy_up
memcpy dest src n m = copy_up n 0 dest src m

unfoldable pub memset : ℕ → ℕ → ℕ → Memory → Memory
unfolding fill_up
memset s c n m = fill_up n 0 s c m

unfoldable pub memmove : ℕ → ℕ → ℕ → Memory → Memory
unfolding copy_up copy_down
memmove dest src n m =
    if ltb dest src
    then copy_up n 0 dest src m
    else if ltb src dest
    then copy_down n dest src m
    else m
