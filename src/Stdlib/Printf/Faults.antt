-- ===== src/Stdlib/Printf/Faults.antt =====
-- Where `printf` of src/shared/wstdlib.c writes past its buffer or reads past its format.
use wboot.Prelude.{
  ℕ, ◌+◌, ◌≤◌, ◌<◌, ◌≡◌, ◌≢◌, refl, ap, ◌∙◌, arith, false, ◌==◌, Bool, List, [], ◌∷◌, ◌++◌, none,
  Text, codes, All, length, length-concat, Option, some,
}
use wboot.Stdlib.Text.{strlen8}
use wboot.Stdlib.Printf.{
  Console, ◌>>=◌, put, put_all, make_room, flush, write, write_char, printf_buffer_size, Arg, wide,
  plain, convert, convert_next, step, printf_loop, printf,
}
use wboot.Stdlib.Printf.Loop.{printf_lem}

put_all-none :
    (t : Text) (con : Console)
    → length con.pending ≤ printf_buffer_size
    → printf_buffer_size < length con.pending + strlen8 t
    → put_all t con ≡ none
unfolding put_all put strlen8
put_all-none [] con h k = absurd (omega arith)
put_all-none (c ∷ t) con h k = ground (
  arith,
  length-concat con.pending c,
  put_all-none t (record con { pending = con.pending ++ c ∷ [] }),
)

make_room_large :
    (len : ℕ) (con : Console)
    → printf_buffer_size < len
    → (length (make_room len con).pending ≤ printf_buffer_size)
      × (printf_buffer_size < length (make_room len con).pending + len)
unfolding make_room flush
make_room_large len con h = ground arith

-- `_printf_write` overruns the buffer on any text of more than 1024 units: it flushes only once.
pub write-none : (t : Text) (con : Console) → printf_buffer_size < strlen8 t → write t con ≡ none
unfolding write
write-none t con h = put_all-none t (make_room (strlen8 t) con) (made.0) (omega (arith, made.1))
  where
    made :
        (length (make_room (strlen8 t) con).pending ≤ printf_buffer_size)
        × (printf_buffer_size < length (make_room (strlen8 t) con).pending + strlen8 t)
    made = make_room_large (strlen8 t) con h

printf_loop_wide :
    (pool : ℕ → Bool) (s : Text) (con : Console)
    → write s con ≡ none
    → printf_loop pool plain (codes "%s") (wide s ∷ []) con ≡ none
unfolding printf_loop step convert_next convert
printf_loop_wide pool s con h = rw h

-- `printf(L"%s", s)` overruns the buffer for any text of more than 1024 units.
pub printf_overrun :
    (pool : ℕ → Bool) (s : Text) (con : Console)
    → printf_buffer_size < strlen8 s
    → printf pool (codes "%s") (wide s ∷ []) con ≡ none
printf_overrun pool s con h =
    printf_lem pool (codes "%s") (wide s ∷ []) con
    ∙ ap (λ o. o >>= λ con'. some (flush con')) (printf_loop_wide pool s con (write-none s con h))

printf_loop_percent :
    (pool : ℕ → Bool) (format : Text) (args : List Arg) (con : Console)
    → All (λ c. c ≢ b'%') format
    → printf_loop pool plain (format ++ b'%' ∷ []) args con ≡ none
unfolding printf_loop step
printf_loop_percent pool [] args con h = refl
printf_loop_percent pool (c ∷ format) args con (other, h) =
    let miss : (c == b'%') ≡ false = ground arith in
    rw miss (written_first (write_char c con) λ con'. printf_loop_percent pool format args con' h)
  where
    written_first :
        (o : Option Console)
        → ((con' : Console) → printf_loop pool plain (format ++ b'%' ∷ []) args con' ≡ none)
        → ((o >>= λ con'. some (plain, args, con')) >>= λ (m, a, con').
            printf_loop pool m (format ++ b'%' ∷ []) a con')
          ≡ none
    written_first none ih = refl
    written_first (some con') ih = ih con'

-- A format that ends in a single `%` is read past its end, whatever the arguments.
pub printf_percent :
    (pool : ℕ → Bool) (format : Text) (args : List Arg) (con : Console)
    → All (λ c. c ≢ b'%') format
    → printf pool (format ++ b'%' ∷ []) args con ≡ none
printf_percent pool format args con h =
    printf_lem pool (format ++ b'%' ∷ []) args con
    ∙ ap (λ o. o >>= λ con'. some (flush con')) (printf_loop_percent pool format args con h)
