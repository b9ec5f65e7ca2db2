-- ===== src/Stdlib/Printf/ReadBack.antt =====
-- `strtoul` on the numbers that `printf` writes in base 10 (src/shared/wstdlib.c).
use wboot.Prelude.{
  ℕ, zero, suc, ◌+◌, ◌-◌, ◌*◌, ◌/◌, ◌%◌, ◌<◌, ◌≡◌, refl, ap, ◌∙◌, arith, inl, inr, Bool-cases, leb,
  [], ◌∷◌, ◌++◌, append-nil, Text, codes, Bool, some, All, All-append,
}
use mathlib.Core.List.{map}
use native.Mathlib.Nat.{mod-eq_of_lt}
use wboot.Prelude.Words.{u64_mod}
use wboot.Stdlib.Text.{strtoul}
use wboot.Stdlib.Text.Digits.{IsDecimal, decimal, strtoul-decimal}
use wboot.Stdlib.Printf.{Console, word, low_byte, printf, digit_char, word_fuel}
use wboot.Stdlib.Printf.Render.{render}
use wboot.Stdlib.Printf.Loop.{printf-render}
use wboot.Stdlib.Printf.Numbers.{
  power, low_digits, higher_digits, higher_digits-more, higher_digits-done, numeral,
}

low_digits-IsDecimal : (k n : ℕ) → All IsDecimal (low_digits 10 k n)
low_digits-IsDecimal zero n = tt
low_digits-IsDecimal (suc k) n =
    All-append IsDecimal (low_digits 10 k (n / 10)) (digit_char (n % 10) ∷ [])
      (low_digits-IsDecimal k (n / 10)) (ground arith, tt)

decimal-concat : (ds : Text) (m c : ℕ) → decimal m (ds ++ c ∷ []) ≡ decimal m ds * 10 + (c - b'0')
decimal-concat [] m c = refl
decimal-concat (d ∷ ds) m c = decimal-concat ds (m * 10 + (d - b'0')) c

low_digits_value : (k n : ℕ) → n < power 10 k → decimal 0 (low_digits 10 k n) ≡ n
low_digits_value zero n h = omega arith
low_digits_value (suc k) n h =
    decimal-concat (low_digits 10 k (n / 10)) 0 (digit_char (n % 10))
    ∙ ground (arith, low_digits_value k (n / 10) (omega arith))

lt-power_higher :
    (fuel n : ℕ) → n < power 2 fuel → n < power 10 (suc (higher_digits (suc fuel) 10 n))
lt-power_higher zero n h = rw (higher_digits-done 0 10 n (ground arith)) (omega arith)
lt-power_higher (suc fuel) n h = elim (Bool-cases (leb 10 n)) [
  | inr stop ↦ rw (higher_digits-done (suc fuel) 10 n stop) (ground arith)
  | inl more ↦
      rw (higher_digits-more (suc fuel) 10 n more)
        (omega (arith, lt-power_higher fuel (n / 10) (omega arith)))
]

strtoul-low_digits :
    (k n : ℕ) → n < power 10 k → n < u64_mod → strtoul (low_digits 10 k n) 10 ≡ (n, [])
strtoul-low_digits k n below h = rw (← append-nil (low_digits 10 k n)) (
    strtoul-decimal (low_digits 10 k n) [] (low_digits-IsDecimal k n) tt
    ∙ ap (λ (v : ℕ). (v, [])) (rw (low_digits_value k n below) (mod-eq_of_lt h)))

strtoul-numeral : (n : ℕ) → n < u64_mod → strtoul (numeral 10 n) 10 ≡ (n, [])
unfolding numeral
strtoul-numeral n h =
    strtoul-low_digits (suc (higher_digits word_fuel 10 n)) n (lt-power_higher 64 n (omega arith)) h

numeral-IsDecimal : (n : ℕ) → All IsDecimal (numeral 10 n)
unfolding numeral
numeral-IsDecimal n = low_digits-IsDecimal (suc (higher_digits word_fuel 10 n)) n

-- A digit is its own low byte.
low_byte-digits : (t : Text) → All IsDecimal t → map low_byte t ≡ t
low_byte-digits [] h = refl
low_byte-digits (c ∷ t) h = ground (arith, h.0, low_byte-digits t h.1)

render-word : (n : ℕ) → render (codes "%u") (word n ∷ []) ≡ some (numeral 10 n)
unfolding render
render-word n = ap some (append-nil (numeral 10 n))

-- For every UINTN, `printf` of `%u` succeeds and appends a text to what has been put out, and
-- `strtoul` reads that text back as the number in base 10, to its end.
pub strtoul-printf :
    (pool : ℕ → Bool) (n : ℕ) (put : Text) (exited : Bool)
    → n < u64_mod
    → (t : Text) × (printf pool
          (codes "%u")
          (word n ∷ [])
          (record { pending = []; serial = put; bs_exited = exited })
        ≡ some (record { pending = []; serial = put ++ t; bs_exited = exited }))
      × (strtoul t 10 ≡ (n, []))
strtoul-printf pool n put exited h =
    let con : Console = record { pending = []; serial = put; bs_exited = exited } in
    let bytes = low_byte-digits (numeral 10 n) (numeral-IsDecimal n) in
    (
      numeral 10 n,
      printf-render pool (codes "%u") (word n ∷ []) con (numeral 10 n) (h, tt) (render-word n)
          ∙ rw (bytes, append-nil put) refl,
      strtoul-numeral n h,
    )
