-- ===== src/Examples/Printf.antt =====
-- Runs of `printf` of src/shared/wstdlib.c.
use wboot.Prelude.{
  ℕ, zero, suc, ◌≡◌, ◌<◌, refl, arith, Bool, true, false, none, some, List, [], ◌∷◌, ◌++◌, Text,
  codes, All,
}
use wboot.Stdlib.Text.{strlen8, strtoul}
use wboot.Stdlib.Printf.{Console, Arg, wide, word, printf, printf_buffer_size}
use wboot.Stdlib.Printf.Numbers.{numeral, higher_digits}
use wboot.Stdlib.Printf.Render.{render}
use wboot.Stdlib.Printf.Convert.{Fits}
use wboot.Stdlib.Printf.Loop.{put_out, printf-render}
use wboot.Stdlib.Printf.Faults.{printf_overrun, printf_percent}
use wboot.Stdlib.Printf.ReadBack.{strtoul-printf}

abbrev any_pool : ℕ → Bool
any_pool size = true

strtoul-printf_example :
    (t : Text) × (printf any_pool
        (codes "%u")
        (word 1024 ∷ [])
        (record { pending = []; serial = codes "n="; bs_exited = true })
      ≡ some (record { pending = []; serial = codes "n=" ++ t; bs_exited = true }))
    × (strtoul t 10 ≡ (1024, []))
strtoul-printf_example = strtoul-printf any_pool 1024 (codes "n=") true (omega arith)

-- A text of 1025 units.
unfoldable long_text : ℕ → Text
long_text zero = []
long_text (suc n) = b'x' ∷ long_text n

strlen8-long_text : (n : ℕ) → strlen8 (long_text n) ≡ n
unfolding strlen8 long_text
strlen8-long_text zero = refl
strlen8-long_text (suc n) = ground (arith, strlen8-long_text n)

too_long : printf_buffer_size < strlen8 (long_text 1025)
too_long = rw (strlen8-long_text 1025) (omega arith)

abbrev console : Console
console = record { pending = codes "ok: "; serial = []; bs_exited = false }

printf_overrun_example : printf any_pool (codes "%s") (wide (long_text 1025) ∷ []) console ≡ none
printf_overrun_example = printf_overrun any_pool (long_text 1025) console too_long

printf_percent_example : printf any_pool (codes "100" ++ b'%' ∷ []) [] console ≡ none
printf_percent_example = printf_percent any_pool (codes "100") [] console (ground arith)

abbrev two_args : List Arg
two_args = wide (codes "mode") ∷ word 1024 ∷ []

two_args-Fits : All (Fits any_pool console.bs_exited) two_args
unfolding strlen8
two_args-Fits = ground arith

render-two_args : render (codes "%s=%u") two_args ≡ some (codes "mode=1024")
unfolding render numeral higher_digits
render-two_args = refl

printf-render_example :
    printf any_pool (codes "%s=%u") two_args console ≡ some (put_out (codes "mode=1024") console)
printf-render_example =
    printf-render any_pool (codes "%s=%u") two_args console (codes "mode=1024") two_args-Fits
      render-two_args

printf_run :
    printf any_pool (codes "%s=%u") two_args console
    ≡ some (record console { pending = []; serial = codes "ok: mode=1024" })
unfolding printf
printf_run = refl
