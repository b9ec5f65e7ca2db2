-- ===== src/Stdlib/Printf/Render.antt =====
-- The text that a format of `printf` (src/shared/wstdlib.c) and its arguments describe.
use wboot.Prelude.{
  ℕ, ◌-◌, ◌%◌, ◌^◌, List, [], ◌∷◌, ◌++◌, ltb, ◌==◌, Option, none, some, Text, codes, take,
  if◌then◌else◌,
}
use wboot.Prelude.Words.{u16_mod, u64_mod}
use wboot.Stdlib.Printf.{◌>>=◌, Arg, wide, narrow, word, Mode, plain, percent, dash, takes_argument}
use wboot.Stdlib.Printf.Numbers.{numeral, low_digits}

-- The text of a number under its specifier.
abbrev pub shown_word : ℕ → ℕ → Option Text
shown_word f num =
    if f == b'u'
    then some (numeral 10 num)
    else if f == b'd'
    then some (if ltb num (2 ^ 63) then numeral 10 num else b'-' ∷ numeral 10 (u64_mod - num))
    else if f == b'x'
    then some (numeral 16 num)
    else if f == b'p'
    then some (codes "0x" ++ low_digits 16 16 num)
    else if f == b'c'
    then some ((num % u16_mod) ∷ [])
    else none

abbrev pub shown : ℕ → Arg → Option Text
shown f (wide s) = if f == b's' then some s else none
shown f (narrow s) = none
shown f (word num) = shown_word f num

-- What a character of the format stands for, and what it leaves.
abbrev pub Piece : Type 0
Piece = Mode × List Arg × Text

abbrev pub converted : ℕ → List Arg → Option Piece
converted f [] = none
converted f (a ∷ args) = do t ← shown f a; some (plain, args, t)

abbrev pub narrowed : List Arg → Option Piece
narrowed (narrow s ∷ args) = some (plain, args, take 255 s)
narrowed _ = none

unfoldable pub piece : Mode → ℕ → List Arg → Option Piece
piece plain c args = if c == b'%' then some (percent, args, []) else some (plain, args, c ∷ [])
piece percent f args =
    if takes_argument f
    then converted f args
    else if f == b'%'
    then some (plain, args, b'%' ∷ [])
    else if f == b'-'
    then some (dash, args, [])
    else some (plain, args, b'%' ∷ f ∷ [])
piece dash f args = if f == b's' then narrowed args else some (plain, args, b'%' ∷ f ∷ [])

unfoldable pub render_from : Mode → Text → List Arg → Option Text
unfolding piece
render_from plain [] args = some []
render_from percent [] args = none
render_from dash [] args = none
render_from mode (c ∷ format) args = do
  (mode', args', t) ← piece mode c args
  rest ← render_from mode' format args'
  some (t ++ rest)

-- The text that a format and its arguments describe; `none` where the format ends inside a
-- specifier, or an argument is missing or of another type.
unfoldable pub render : Text → List Arg → Option Text
unfolding render_from
render = render_from plain
