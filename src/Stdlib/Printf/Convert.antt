-- ===== src/Stdlib/Printf/Convert.antt =====
-- The conversions of `printf` (src/shared/wstdlib.c) and the texts of their arguments.
use native.Mathlib.Nat.{le_trans}
use wboot.Prelude.{
  ℕ, zero, suc, ◌+◌, ◌-◌, ◌*◌, ◌%◌, ◌^◌, ◌≤◌, ◌<◌, ◌≡◌, arith, [], ◌∷◌, ◌++◌, Bool, true, false,
  Bool-cases, inl, inr, ltb, ◌==◌, ltb→le, Option, none, some, Text, codes, take, if◌then◌else◌,
}
use wboot.Prelude.Words.{u16_mod, u64_mod}
use wboot.Stdlib.Text.{strlen8}
use wboot.Stdlib.Printf.{
  Console, write, write_uintn, write_hex, write_intn, write_digits, write_pointer, write_narrow,
  word_fuel, printf_buffer_size, Arg, wide, narrow, word, convert,
}
use wboot.Stdlib.Printf.Numbers.{numeral, low_digits, write_number-Writes, write_digits-Writes}
use wboot.Stdlib.Printf.Writers.{Writes, Writes-bind, write-Writes, write_char-Writes}
use wboot.Stdlib.Printf.Render.{shown_word, shown}

module _ (pool : ℕ → Bool) where
  -- A wide text fits the buffer, the copy of a narrow one can be allocated, and a number is a word.
  abbrev pub Fits : Bool → Arg → Type 0
  Fits exited (wide s) = strlen8 s ≤ printf_buffer_size
  Fits exited (narrow s) = (exited ≡ false) × (pool ((strlen8 s + 1) * 2) ≡ true)
  Fits exited (word num) = num < u64_mod

  -- A writer does what its text says, if it has one.
  abbrev pub WritesSome : Option Text → Console → Option Console → Type 0
  WritesSome none con o = Unit
  WritesSome (some t) con o = Writes t con o

  write_intn-Writes :
      (num : ℕ) (con : Console)
      → num < u64_mod
      → Writes
          (if ltb num (2 ^ 63) then numeral 10 num else b'-' ∷ numeral 10 (u64_mod - num))
          con
          (write_intn num con)
  unfolding write_intn write_uintn
  write_intn-Writes num con h = elim (Bool-cases (ltb num (2 ^ 63))) [
    | inl plus ↦ rw plus (write_number-Writes 10 num (omega arith) h con)
    | inr minus ↦
        let large = ltb→le num (2 ^ 63) minus in
        rw minus (
          Writes-bind (b'-' ∷ []) (numeral 10 (u64_mod - num)) con _ (write_uintn (u64_mod - num))
            (write_char-Writes b'-' con)
            λ con' e same. write_number-Writes 10 (u64_mod - num) (omega arith) (omega arith) con')
  ]

  write_pointer-Writes :
      (ptr : ℕ) (con : Console)
      → Writes (codes "0x" ++ low_digits 16 16 ptr) con (write_pointer ptr con)
  unfolding write_pointer
  write_pointer-Writes ptr con =
      Writes-bind (codes "0x") (low_digits 16 16 ptr) con (write (codes "0x") con)
        (write_digits word_fuel 16 ptr (2 ^ 60))
        (write-Writes (codes "0x") con (unfold strlen8 in omega arith))
        λ con' e same. write_digits-Writes word_fuel 16 ptr 15 con' (omega arith) (omega arith)

  take_length : (n : ℕ) (s : Text) → strlen8 (take n s) ≤ n
  unfolding strlen8
  take_length zero s = omega arith
  take_length (suc n) [] = omega arith
  take_length (suc n) (c ∷ s) = omega (arith, take_length n s)

  pub write_narrow-Writes :
      (s : Text) (con : Console)
      → Fits con.bs_exited (narrow s)
      → Writes (take 255 s) con (write_narrow pool s con)
  unfolding write_narrow
  write_narrow-Writes s con (running, given) =
      simp (running, given)
        (write-Writes (take 255 s) con (le_trans (take_length 255 s) (omega arith)))

  WritesSome-if :
      (b : Bool) (x y : Option Text) (con : Console) (o p : Option Console)
      → WritesSome x con o
      → WritesSome y con p
      → WritesSome (if b then x else y) con (if b then o else p)
  WritesSome-if true x y con o p h k = h
  WritesSome-if false x y con o p h k = k

  convert_word-Writes :
      (f num : ℕ) (con : Console)
      → num < u64_mod
      → WritesSome (shown_word f num) con (convert pool f (word num) con)
  unfolding convert write_uintn write_hex
  convert_word-Writes f num con h =
      WritesSome-if (f == b'u') _ _ con _ _ (write_number-Writes 10 num (omega arith) h con) (
        WritesSome-if (f == b'd') _ _ con _ _ (write_intn-Writes num con h) (
          WritesSome-if (f == b'x') _ _ con _ _ (write_number-Writes 16 num (omega arith) h con) (
            WritesSome-if (f == b'p') _ _ con _ _ (write_pointer-Writes num con)
              (WritesSome-if (f == b'c') _ _ con _ _ (write_char-Writes (num % u16_mod) con) tt))))

  pub convert-Writes :
      (f : ℕ) (a : Arg) (con : Console)
      → Fits con.bs_exited a
      → WritesSome (shown f a) con (convert pool f a con)
  unfolding convert
  convert-Writes f (wide s) con h = ground (arith, write-Writes s con h)
  convert-Writes f (narrow s) con h = tt
  convert-Writes f (word num) con h = convert_word-Writes f num con h
