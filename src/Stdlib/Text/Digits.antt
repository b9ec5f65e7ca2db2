-- ===== src/Stdlib/Text/Digits.antt =====
-- What `strtoul` of src/shared/wstdlib.c reads in base 10.
use wboot.Prelude.{
  ℕ, ◌+◌, ◌-◌, ◌*◌, ◌%◌, ◌≤◌, ◌<◌, ◌≡◌, ◌⊎◌, refl, ◌∙◌, arith, [], ◌∷◌, ◌++◌, Text, All,
}
use wboot.Prelude.Words.{u64_mod}
use wboot.Stdlib.Text.{strtoul, strtoul_loop}

abbrev pub IsDecimal : ℕ → Type 0
IsDecimal c = (b'0' ≤ c) × (c ≤ b'9')

-- The number that decimal digits spell behind `n`, with no bound.
abbrev pub decimal : ℕ → Text → ℕ
decimal n [] = n
decimal n (c ∷ s) = decimal (n * 10 + (c - b'0')) s

-- The text does not go on with a decimal digit.
abbrev pub StopsDecimal : Text → Type 0
StopsDecimal [] = Unit
StopsDecimal (c ∷ s) = (c < b'0') ⊎ (b'9' < c)

strtoul_loop_digit :
    (c n : ℕ) (s : Text)
    → IsDecimal c
    → strtoul_loop (c ∷ s) 10 (n % u64_mod) ≡ strtoul_loop s 10 ((n * 10 + (c - b'0')) % u64_mod)
unfolding strtoul_loop
strtoul_loop_digit c n s h = ground arith

strtoul_loop_stop : (rest : Text) (n : ℕ) → StopsDecimal rest → strtoul_loop rest 10 n ≡ (n, rest)
unfolding strtoul_loop
strtoul_loop_stop [] n h = refl
strtoul_loop_stop (c ∷ rest) n h = ground arith

strtoul_loop-decimal :
    (ds rest : Text) (n : ℕ)
    → All IsDecimal ds
    → StopsDecimal rest
    → strtoul_loop (ds ++ rest) 10 (n % u64_mod) ≡ (decimal n ds % u64_mod, rest)
strtoul_loop-decimal [] rest n h stop = strtoul_loop_stop rest (n % u64_mod) stop
strtoul_loop-decimal (c ∷ ds) rest n h stop =
    strtoul_loop_digit c n (ds ++ rest) h.0
    ∙ strtoul_loop-decimal ds rest (n * 10 + (c - b'0')) h.1 stop

-- `strtoul` in base 10 reads the leading decimal digits, and no more: it returns the number that
-- they spell modulo 2^64, and a pointer to the first character that is no digit.
pub strtoul-decimal :
    (ds rest : Text)
    → All IsDecimal ds
    → StopsDecimal rest
    → strtoul (ds ++ rest) 10 ≡ (decimal 0 ds % u64_mod, rest)
unfolding strtoul
strtoul-decimal ds rest h stop = strtoul_loop-decimal ds rest 0 h stop
