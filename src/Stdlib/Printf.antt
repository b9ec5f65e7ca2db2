-- ===== src/Stdlib/Printf.antt =====
-- `printf` of src/shared/wstdlib.c and its writers. The buffer of 1024 CHAR16 is the list of what
-- is written below `_printf_buffer_pos`; a write at or past its end is undefined and gives `none`,
-- and so is a read past the end of the format and a write through a NULL buffer. `serial` is what
-- `serial_putc` has put out on COM1.
pub mod Numbers
pub mod Writers
pub mod Render
pub mod Convert
pub mod Loop
pub mod Faults
pub mod ReadBack
use wboot.Prelude.{
  ℕ, zero, suc, ◌+◌, ◌-◌, ◌*◌, ◌/◌, ◌%◌, ◌^◌, Bool, true, false, ◌||◌, Option, none, some, List, [],
  ◌∷◌, ◌++◌, Text, codes, ltb, leb, ◌==◌, if◌then◌else◌, length, take,
}
use mathlib.Core.List.{map}
use wboot.Prelude.Words.{u8_mod, u16_mod, u64_mod}
use wboot.Stdlib.Text.{strlen8}

abbrev pub printf_buffer_size : ℕ
printf_buffer_size = 1024

-- `_printf_buffer`, the serial port and `_bs_exited`.
pub record Console : Type 0 where
  pub pending : Text
  pub serial : List ℕ
  pub bs_exited : Bool

infixl 5 ◌>>=◌
abbrev pub ◌>>=◌ {ℓ κ} : {A : Type ℓ} {B : Type κ} → Option A → (A → Option B) → Option B
none >>= f = none
some a >>= f = f a

-- `(char)c`, put out as a byte.
abbrev pub low_byte : ℕ → ℕ
low_byte c = c % u8_mod

pub flush : Console → Console
flush con = record con { serial = con.serial ++ map low_byte con.pending; pending = [] }

-- `_printf_buffer[_printf_buffer_pos++] = c`
pub put : ℕ → Console → Option Console
put c con =
    if ltb (length con.pending) printf_buffer_size
    then some (record con { pending = con.pending ++ c ∷ [] })
    else none

pub put_all : Text → Console → Option Console
put_all [] con = some con
put_all (c ∷ str) con = do con' ← put c con; put_all str con'

-- The flush at the head of a writer of `len` units.
pub make_room : ℕ → Console → Console
make_room len con = if leb printf_buffer_size (length con.pending + len) then flush con else con

pub write : Text → Console → Option Console
write str con = put_all str (make_room (strlen8 str) con)

pub write_char : ℕ → Console → Option Console
write_char c con = put c (make_room 1 con)

-- `while (temp >= base) { temp /= base; divisor *= base; }`
pub grow_divisor : ℕ → ℕ → ℕ → ℕ → Option ℕ
grow_divisor zero base temp divisor = none
grow_divisor (suc fuel) base temp divisor =
    let next = grow_divisor fuel base (temp / base) ((divisor * base) % u64_mod) in
    if leb base temp then next else some divisor

-- `digit + L'0'`, and the letters of hexadecimal.
abbrev pub digit_char : ℕ → ℕ
digit_char digit = if ltb digit 10 then digit + b'0' else digit - 10 + b'a'

-- `while (divisor > 0)`
pub write_digits : ℕ → ℕ → ℕ → ℕ → Console → Option Console
write_digits zero base num divisor con = none
write_digits (suc fuel) base num divisor con =
    let next = (do
      con' ← write_char (digit_char ((num / divisor) % base)) con
      write_digits fuel base num (divisor / base) con') in
    if ltb 0 divisor then next else some con

-- Rounds enough for the digits of any UINTN.
abbrev pub word_fuel : ℕ
word_fuel = 65

-- `_printf_write_uintn` in base 10 and `_printf_write_hex` in base 16.
pub write_number : ℕ → ℕ → Console → Option Console
write_number base num con =
    if num == 0
    then write_char b'0' con
    else do divisor ← grow_divisor word_fuel base num 1; write_digits word_fuel base num divisor con

pub write_uintn : ℕ → Console → Option Console
write_uintn = write_number 10

pub write_hex : ℕ → Console → Option Console
write_hex = write_number 16

-- `sizeof(VOID *)` is 8, so there are 16 digits.
pub write_pointer : ℕ → Console → Option Console
write_pointer ptr con = do
  con' ← write (codes "0x") con
  write_digits word_fuel 16 ptr (2 ^ 60) con'

-- An argument by its type: a CHAR16 text, a CHAR8 text or a number, which is its 64 bits.
-- `va_arg` at another type is undefined.
pub data Arg : Type 0 where
  wide : Text → Arg
  narrow : Text → Arg
  word : ℕ → Arg

-- `case L'd'`: `num = -num` on 64 bits.
pub write_intn : ℕ → Console → Option Console
write_intn num con =
    if ltb num (2 ^ 63)
    then write_uintn num con
    else do con' ← write_char b'-' con; write_uintn (u64_mod - num) con'

pub data Mode : Type 0 where
  plain percent dash : Mode

abbrev takes_argument : ℕ → Bool
takes_argument f = f == b's' || f == b'u' || f == b'd' || f == b'x' || f == b'p' || f == b'c'

-- Where the loop stands: between characters, behind `%`, or behind `%-`.
abbrev pub State : Type 0
State = Mode × List Arg × Console

-- `default`, also behind `%-`: both characters as they are.
literal : ℕ → List Arg → Console → Option State
literal f args con = do
  con' ← write_char b'%' con
  con'' ← write_char f con'
  some (plain, args, con'')

-- Whether `AllocatePool` gives that many bytes.
module _ (pool : ℕ → Bool) where
  -- `malloc` returns NULL after boot services have ended, and `buffer[j] = …` then writes there.
  pub write_narrow : Text → Console → Option Console
  write_narrow str con =
      if con.bs_exited
      then none
      else if pool ((strlen8 str + 1) * 2)
      then write (take 255 str) con
      else none

  -- The writer for a specifier that takes an argument.
  pub convert : ℕ → Arg → Console → Option Console
  convert f (wide s) con = if f == b's' then write s con else none
  convert f (narrow s) con = none
  convert f (word num) con =
      if f == b'u'
      then write_uintn num con
      else if f == b'd'
      then write_intn num con
      else if f == b'x'
      then write_hex num con
      else if f == b'p'
      then write_pointer num con
      else if f == b'c'
      then write_char (num % u16_mod) con
      else none

  convert_next : ℕ → List Arg → Console → Option State
  convert_next f [] con = none
  convert_next f (a ∷ args) con = do con' ← convert f a con; some (plain, args, con')

  narrow_next : List Arg → Console → Option State
  narrow_next (narrow s ∷ args) con = do con' ← write_narrow s con; some (plain, args, con')
  narrow_next args con = none

  -- What the loop does with one character of the format.
  pub step : Mode → ℕ → List Arg → Console → Option State
  step plain c args con =
      if c == b'%'
      then some (percent, args, con)
      else (do con' ← write_char c con; some (plain, args, con'))
  step percent f args con =
      if takes_argument f
      then convert_next f args con
      else if f == b'%'
      then (do con' ← write_char b'%' con; some (plain, args, con'))
      else if f == b'-'
      then some (dash, args, con)
      else literal f args con
  step dash f args con = if f == b's' then narrow_next args con else literal f args con

  -- A format that ends behind `%` or `%-` is read past its NUL.
  pub printf_loop : Mode → Text → List Arg → Console → Option Console
  printf_loop plain [] args con = some con
  printf_loop percent [] args con = none
  printf_loop dash [] args con = none
  printf_loop mode (c ∷ format) args con = do
    (mode', args', con') ← step mode c args con
    printf_loop mode' format args' con'

  unfoldable pub printf : Text → List Arg → Console → Option Console
  unfolding printf_loop step convert_next narrow_next literal convert write_narrow write_intn
      write_pointer write_hex write_uintn write_number write_digits grow_divisor write_char write
      make_room put_all put flush strlen8
  printf format args con = do con' ← printf_loop plain format args con; some (flush con')
