-- ===== src/Stdlib/Text.antt =====
-- The string functions of src/shared/wstdlib.c. A `CHAR8 *` or `CHAR16 *` is the text that it
-- points at, up to the NUL; moving the pointer on drops code units, and `*p == '\0'` is `[]`.
-- `strtok_r` cuts a text where it writes its NUL: the token is the part in front of the cut, and
-- `*saveptr` the part behind it, so no text that it has returned changes later.
pub mod Compare
pub mod Tokens
pub mod Digits
use wboot.Prelude.{
  ℕ, zero, suc, ◌+◌, ◌-◌, ◌*◌, ◌%◌, Bool, true, false, not, ◌&&◌, Option, none, some, [], ◌∷◌, Text,
  leb, ◌==◌, if◌then◌else◌,
}
use wboot.Prelude.Int.{ℤ, sub_ℕ, pos}
use wboot.Prelude.Words.{u64_mod}

-- `strlen8`, and `_strlen` on CHAR16.
unfoldable pub strlen8 : Text → ℕ
strlen8 [] = 0
strlen8 (c ∷ str) = suc (strlen8 str)

-- `*str` of a C string: 0 at its end.
abbrev pub head_unit : Text → ℕ
head_unit [] = 0
head_unit (c ∷ str) = c

-- `strcmp8`, and `strcmp` on CHAR16. The loop ends at a NUL of either text.
unfoldable pub strcmp8 : Text → Text → ℤ
strcmp8 (a ∷ str1) (b ∷ str2) =
    let rest = strcmp8 str1 str2 in if not (a == b) then sub_ℕ a b else rest
strcmp8 str1 str2 = sub_ℕ (head_unit str1) (head_unit str2)

-- `strncmp`; the last argument is `n - i`.
unfoldable pub strncmp : Text → Text → ℕ → ℤ
strncmp str1 str2 zero = pos 0
strncmp (a ∷ str1) (b ∷ str2) (suc n) =
    let rest = strncmp str1 str2 n in if not (a == b) then sub_ℕ a b else rest
strncmp str1 str2 (suc n) = sub_ℕ (head_unit str1) (head_unit str2)

-- The pointer that `strchr` returns, as the text from there on; `none` is NULL.
unfoldable pub strchr : Text → ℕ → Option Text
strchr [] c = none
strchr (x ∷ str) c = if x == c then some (x ∷ str) else strchr str c

-- `strchr(delim, c)` as a condition.
pub is_delim : Text → ℕ → Bool
unfolding strchr
is_delim delim c = elim (strchr delim c) [ none ↦ false | some p ↦ true ]

-- `while (**saveptr && strchr(delim, **saveptr)) (*saveptr)++`
pub skip_delims : Text → Text → Text
unfolding is_delim
skip_delims delim [] = []
skip_delims delim (c ∷ s) = if is_delim delim c then skip_delims delim s else c ∷ s

-- `while (**saveptr && !strchr(delim, **saveptr)) (*saveptr)++`: what is passed, and what is left.
pub find_end : Text → Text → Text × Text
unfolding is_delim
find_end delim [] = ([], [])
find_end delim (c ∷ s) =
    let (token, rest) = find_end delim s in
    if is_delim delim c then ([], c ∷ s) else (c ∷ token, rest)

-- The write of the NUL: `*saveptr` is behind it, or NULL at the end of the text.
abbrev save_after : Text → Option Text
save_after [] = none
save_after (c ∷ rest) = some rest

abbrev cut_token : Text → Text → Option Text × Option Text
cut_token delim [] = (none, none)
cut_token delim (c ∷ s) =
    let (token, rest) = find_end delim (c ∷ s) in (some token, save_after rest)

abbrev or_save : Option Text → Option Text → Option Text
or_save none saveptr = saveptr
or_save (some str) saveptr = some str

-- The token, and `*saveptr` after the call.
unfoldable pub strtok_r : Option Text → Text → Option Text → Option Text × Option Text
unfolding skip_delims find_end
strtok_r str delim saveptr = elim (or_save str saveptr) [
  | none ↦ (none, none)
  | some s ↦ cut_token delim (skip_delims delim s)
]

-- The digit that a character stands for, before it is compared with the base.
unfoldable pub digit_of : ℕ → Option ℕ
digit_of c =
    if leb b'0' c && leb c b'9'
    then some (c - b'0')
    else if leb b'a' c && leb c b'f'
    then some (c - b'a' + 10)
    else if leb b'A' c && leb c b'F'
    then some (c - b'A' + 10)
    else none

-- `break` where there is no digit below the base.
pub digit_in : ℕ → ℕ → Option ℕ
unfolding digit_of
digit_in base c = elim (digit_of c) [
  | none ↦ none
  | some digit ↦ if leb base digit then none else some digit
]

pub strtoul_loop : Text → ℕ → ℕ → ℕ × Text
unfolding digit_in
strtoul_loop [] base result = (result, [])
strtoul_loop (c ∷ str) base result = elim (digit_in base c) [
  | none ↦ (result, c ∷ str)
  | some digit ↦ strtoul_loop str base ((result * base + digit) % u64_mod)
]

-- The result, which wraps around as a UINTN does, and `*endptr`.
unfoldable pub strtoul : Text → ℕ → ℕ × Text
unfolding strtoul_loop
strtoul str base = strtoul_loop str base 0
