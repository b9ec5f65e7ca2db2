-- ===== src/Stdlib/Text/Compare.antt =====
-- What `strcmp8` and `strncmp` of src/shared/wstdlib.c say of two texts.
use wboot.Prelude.{zero, suc, ◌<◌, ◌≡◌, ◌↔◌, ◌⊎◌, ℕ, arith, [], ◌∷◌, Text, take, All}
use wboot.Prelude.Int.{ℤ, pos, negsuc, neg}
use wboot.Stdlib.Text.{strcmp8, strncmp}

-- A text holds no NUL.
abbrev pub IsCString : Text → Type 0
IsCString = All (λ c. 0 < c)

-- The strict lexicographic order by code units.
abbrev pub Before : Text → Text → Type 0
Before s [] = ⊥
Before [] (b ∷ t) = Unit
Before (a ∷ s) (b ∷ t) = (a < b) ⊎ ((a ≡ b) × Before s t)

abbrev pub IsNegative : ℤ → Type 0
IsNegative (pos n) = ⊥
IsNegative (negsuc n) = Unit

-- `strcmp8` answers 0 exactly on equal texts.
pub strcmp8_iff : (s t : Text) → IsCString s → IsCString t → (strcmp8 s t ≡ pos 0) ↔ (s ≡ t)
unfolding strcmp8
strcmp8_iff [] [] hs ht = ground arith
strcmp8_iff [] (b ∷ t) hs ht = ground arith
strcmp8_iff (a ∷ s) [] hs ht = ground arith
strcmp8_iff (a ∷ s) (b ∷ t) hs ht = ground (arith, strcmp8_iff s t hs.1 ht.1)

-- Swapping the arguments of `strcmp8` negates its answer.
pub strcmp8_swap : (s t : Text) → strcmp8 t s ≡ neg (strcmp8 s t)
unfolding strcmp8
strcmp8_swap [] [] = ground arith
strcmp8_swap [] (b ∷ t) = ground arith
strcmp8_swap (a ∷ s) [] = ground arith
strcmp8_swap (a ∷ s) (b ∷ t) = ground (arith, strcmp8_swap s t)

-- `strcmp8` answers a negative number exactly when the first text stands before the second.
pub strcmp8-Before :
    (s t : Text) → IsCString s → IsCString t → IsNegative (strcmp8 s t) ↔ Before s t
unfolding strcmp8
strcmp8-Before [] [] hs ht = ground arith
strcmp8-Before [] (b ∷ t) hs ht = ground arith
strcmp8-Before (a ∷ s) [] hs ht = ground arith
strcmp8-Before (a ∷ s) (b ∷ t) hs ht = ground (arith, strcmp8-Before s t hs.1 ht.1)

-- `strncmp` compares the first n units as `strcmp8` compares whole texts.
pub strncmp-strcmp8 : (n : ℕ) (s t : Text) → strncmp s t n ≡ strcmp8 (take n s) (take n t)
unfolding strncmp strcmp8
strncmp-strcmp8 zero s t = ground arith
strncmp-strcmp8 (suc n) [] [] = ground arith
strncmp-strcmp8 (suc n) [] (b ∷ t) = ground arith
strncmp-strcmp8 (suc n) (a ∷ s) [] = ground arith
strncmp-strcmp8 (suc n) (a ∷ s) (b ∷ t) = ground (arith, strncmp-strcmp8 n s t)
