-- ===== src/Stdlib/Printf/Numbers.antt =====
-- The divisor loops of src/shared/wstdlib.c and the positional digits of a number.
use native.Mathlib.Nat.{
  div-div-eq-div-mul, div-mul-le_self, mul-le-mul_right, mod-eq_of_lt, div-eq_of_lt, mul-div_cancel,
  mul_comm, zero-mod,
}
use wboot.Prelude.{
  ℕ, zero, suc, ◌+◌, ◌*◌, ◌/◌, ◌%◌, ◌≤◌, ◌<◌, ◌≡◌, refl, sym, ap, ◌∙◌, arith, [], ◌∷◌, ◌++◌,
  append-nil, Option, some, Text, leb, ltb, ◌==◌, ==_iff, lt→ltb, true, false, Bool-cases, inl, inr,
  leb→le, if◌then◌else◌,
}
use wboot.Prelude.Words.{u64_mod}
use wboot.Stdlib.Printf.Writers.{written, Writes, Writes-bind, write_char-Writes}
use wboot.Stdlib.Printf.{
  Console, ◌>>=◌, grow_divisor, write_digits, digit_char, word_fuel, write_number,
}

abbrev pub power : ℕ → ℕ → ℕ
power b zero = 1
power b (suc k) = power b k * b

-- The lowest `k` digits of `n` in base `b`, the highest of them first.
abbrev pub low_digits : ℕ → ℕ → ℕ → Text
low_digits b zero n = []
low_digits b (suc k) n = low_digits b k (n / b) ++ digit_char (n % b) ∷ []

-- How many digits stand before the last one, for `n` below `2 ^ fuel`.
unfoldable pub higher_digits : ℕ → ℕ → ℕ → ℕ
higher_digits zero b n = 0
higher_digits (suc fuel) b n =
    let more = suc (higher_digits fuel b (n / b)) in if leb b n then more else 0

-- `n` in base `b`, with no leading zero.
unfoldable pub numeral : ℕ → ℕ → Text
numeral b n = low_digits b (suc (higher_digits word_fuel b n)) n

div-power : (b k n : ℕ) → n / (power b k * b) ≡ n / b / power b k
div-power b k n =
    ap (λ (d : ℕ). n / d) (mul_comm (power b k) b) ∙ sym (div-div-eq-div-mul n b (power b k))

-- The digits from the top.
low_digits-suc :
    (b k n : ℕ) → low_digits b (suc k) n ≡ digit_char ((n / power b k) % b) ∷ low_digits b k n
low_digits-suc b zero n = let e : n / 1 ≡ n = omega arith in rw e refl
low_digits-suc b (suc k) n = rw (low_digits-suc b k (n / b), div-power b k n) refl

power_pos : (b k : ℕ) → 0 < b → 0 < power b k
power_pos b zero h = omega arith
power_pos b (suc k) h = grind (arith, power_pos b k h)

-- One round keeps the product of number and divisor below the word.
grow_bounds :
    (b temp p : ℕ)
    → 1 < b
    → b ≤ temp
    → temp * p < u64_mod
    → (p * b < u64_mod) × (temp / b * (p * b) < u64_mod)
grow_bounds b temp p hb hle h = (
  omega (arith, mul-le-mul_right p hle),
  omega (arith, mul-le-mul_right p (div-mul-le_self temp b)),
)

pub half_bound : (b temp m : ℕ) → 1 < b → temp < m * 2 → temp / b < m
half_bound b temp m hb h = grind (arith, div-mul-le_self temp b)

grow_divisor-more :
    (fuel b temp d : ℕ)
    → leb b temp ≡ true
    → d * b < u64_mod
    → grow_divisor (suc fuel) b temp d ≡ grow_divisor fuel b (temp / b) (d * b)
unfolding grow_divisor
grow_divisor-more fuel b temp d h small = rw h (rw (mod-eq_of_lt small))

pub higher_digits-more :
    (fuel b n : ℕ)
    → leb b n ≡ true
    → higher_digits (suc fuel) b n ≡ suc (higher_digits fuel b (n / b))
unfolding higher_digits
higher_digits-more fuel b n h = rw h

grow_divisor-done :
    (fuel b temp d : ℕ) → leb b temp ≡ false → grow_divisor (suc fuel) b temp d ≡ some d
unfolding grow_divisor
grow_divisor-done fuel b temp d h = rw h

pub higher_digits-done : (fuel b n : ℕ) → leb b n ≡ false → higher_digits (suc fuel) b n ≡ 0
unfolding higher_digits
higher_digits-done fuel b n h = rw h

-- The divisor ends as the highest power of the base that is not above the number, and no product
-- of the loop wraps around.
grow_divisor-power :
    (fuel b temp j : ℕ)
    → 1 < b
    → temp < power 2 fuel
    → temp * power b j < u64_mod
    → (k : ℕ) × (grow_divisor (suc fuel) b temp (power b j) ≡ some (power b k))
      × (k ≡ higher_digits (suc fuel) b temp + j)
grow_divisor-power zero b temp j hb ht hp =
    let stop : leb b temp ≡ false = ground arith in
    (j, grow_divisor-done 0 b temp _ stop, omega (arith, higher_digits-done 0 b temp stop))
grow_divisor-power (suc fuel) b temp j hb ht hp = elim (Bool-cases (leb b temp)) [
  | inr stop ↦ (
    j,
    grow_divisor-done (suc fuel) b temp _ stop,
    omega (arith, higher_digits-done (suc fuel) b temp stop),
  )
  | inl more ↦
      let (fits, below) = grow_bounds b temp (power b j) hb (leb→le b temp more) hp in
      let (k, grown, eq) =
        grow_divisor-power fuel b (temp / b) (suc j) hb (half_bound b temp (power 2 fuel) hb ht)
          below in
      (
        k,
        grow_divisor-more (suc fuel) b temp (power b j) more fits ∙ grown,
        omega (arith, eq, higher_digits-more (suc fuel) b temp more),
      )
]

-- The number of digits is below the rounds.
pub higher_digits-le :
    (fuel b n : ℕ) → 1 < b → n < power 2 (suc fuel) → higher_digits (suc (suc fuel)) b n ≤ fuel
higher_digits-le zero b n hb h =
    let stop : leb b n ≡ false = ground arith in omega (arith, higher_digits-done 1 b n stop)
higher_digits-le (suc fuel) b n hb h = elim (Bool-cases (leb b n)) [
  | inr stop ↦ omega (arith, higher_digits-done (suc (suc fuel)) b n stop)
  | inl more ↦ omega (
    arith,
    higher_digits-more (suc (suc fuel)) b n more,
    higher_digits-le fuel b (n / b) hb (half_bound b n (power 2 (suc fuel)) hb h),
  )
]

write_digits-done :
    (fuel b num : ℕ) (con : Console) → 0 < fuel → Writes [] con (write_digits fuel b num 0 con)
unfolding write_digits
write_digits-done zero b num con h = absurd (omega arith)
write_digits-done (suc fuel) b num con h = (sym (append-nil (written con)), refl)

-- The loop over the divisor writes the digits from the top.
pub write_digits-Writes :
    (fuel b num k : ℕ) (con : Console)
    → 1 < b
    → k + 1 < fuel
    → Writes (low_digits b (suc k) num) con (write_digits fuel b num (power b k) con)
unfolding write_digits
write_digits-Writes zero b num k con hb h = absurd (omega arith)
write_digits-Writes (suc fuel) b num zero con hb h = rw (low_digits-suc b 0 num) (
    Writes-bind (digit_char ((num / 1) % b) ∷ []) [] con _ _ (write_char-Writes _ con)
      λ con' e same. rw (div-eq_of_lt hb) (write_digits-done fuel b num con' (omega arith)))
write_digits-Writes (suc fuel) b num (suc k) con hb h = rw (low_digits-suc b (suc k) num) (
    rw positive (
      Writes-bind (digit_char ((num / power b (suc k)) % b) ∷ []) (low_digits b (suc k) num) con _ _
        (write_char-Writes _ con)
        λ con' e same. rw shrinks (write_digits-Writes fuel b num k con' hb (omega arith))))
  where
    positive : ltb 0 (power b (suc k)) ≡ true
    positive = lt→ltb _ _ (power_pos b (suc k) (omega arith))

    shrinks : power b (suc k) / b ≡ power b k
    shrinks = mul-div_cancel (power b k) (omega arith)

module _ (b num : ℕ) (hb : 1 < b) (small : num < u64_mod) where
  numeral_zero : num ≡ 0 → numeral b num ≡ b'0' ∷ []
  unfolding numeral
  numeral_zero e =
      rw (higher_digits-done 64 b num (ground arith))
        (ap (λ (d : ℕ). digit_char (d % b) ∷ []) e ∙ rw zero-mod)

  write_divisor-Writes :
      (con : Console) (o : Option ℕ) (k : ℕ)
      → o ≡ some (power b k)
      → k ≡ higher_digits word_fuel b num
      → Writes (numeral b num) con (o >>= λ divisor. write_digits word_fuel b num divisor con)
  unfolding numeral
  write_divisor-Writes con o k grown eq =
      rw (grown, ← eq)
        (write_digits-Writes word_fuel b num k con hb
          (omega (arith, higher_digits-le 63 b num hb small, eq)))

  -- `_printf_write_uintn` and `_printf_write_hex` write the number in their base.
  pub write_number-Writes : (con : Console) → Writes (numeral b num) con (write_number b num con)
  unfolding write_number
  write_number-Writes con = elim (Bool-cases (num == 0)) [
    | inl none_left ↦
        rw none_left (rw (numeral_zero ((==_iff num 0).0 none_left)) (write_char-Writes b'0' con))
    | inr positive ↦
        let (k, grown, eq) = grow_divisor-power 64 b num 0 hb (omega arith) (omega arith) in
        rw positive
          (write_divisor-Writes con (grow_divisor word_fuel b num 1) k grown (omega (arith, eq)))
  ]
