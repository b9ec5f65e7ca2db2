-- ===== src/Graphics/Bits.antt =====
-- `__ffs`, `__fls`, `find_bits` and `pixel_bpp` of src/phase3/wboot_graphics.c.
use wboot.Prelude.{
  ℕ, zero, suc, ◌+◌, ◌-◌, ◌*◌, ◌/◌, ◌%◌, ◌≤◌, ◌≡◌, refl, arith, true, false, ◌||◌, ◌==◌,
  if◌then◌else◌, ap, ◌∙◌,
}
use wboot.Graphics.{PixelFormat, bit_mask, PixelBitmask}

-- `a | b` of numbers of `width` bits.
unfoldable pub bit_or : ℕ → ℕ → ℕ → ℕ
bit_or zero a b = 0
bit_or (suc width) a b =
    (if (a % 2 == 1) || (b % 2 == 1) then 1 else 0) + 2 * bit_or width (a / 2) (b / 2)

-- The place of the lowest bit of `width` that is set, and of the highest; 0 where there is none.
unfoldable pub lowest_bit : ℕ → ℕ → ℕ
lowest_bit zero x = 0
lowest_bit (suc width) x = let rest = lowest_bit width (x / 2) in if x % 2 == 1 then 0 else suc rest

unfoldable pub highest_bit : ℕ → ℕ → ℕ
highest_bit zero x = 0
highest_bit (suc width) x =
    let rest = highest_bit width (x / 2) in if x / 2 == 0 then 0 else suc rest

-- `__ffs` and `__fls`, of a number that is not 0.
abbrev pub ffs : ℕ → ℕ
ffs x = lowest_bit 32 x

abbrev pub fls : ℕ → ℕ
fls x = highest_bit 32 x

-- `*pos` and `*size`
pub record BitField : Type 0 where
  pub pos : ℕ
  pub size : ℕ

unfoldable pub find_bits : ℕ → BitField
unfolding lowest_bit highest_bit
find_bits mask =
    if mask == 0
    then record { pos = 0; size = 0 }
    else record { pos = ffs mask; size = fls mask - ffs mask + 1 }

unfoldable pub pixel_bpp : PixelFormat → PixelBitmask → ℕ
unfolding lowest_bit highest_bit bit_or
pixel_bpp bit_mask p =
    let mask =
      bit_or 32 (bit_or 32 (bit_or 32 p.red_mask p.green_mask) p.blue_mask) p.reserved_mask in
    if mask == 0 then 0 else fls mask - ffs mask + 1
pixel_bpp _ p = 32

-- `size` set bits, and a number behind `pos` bits that are not set.
abbrev pub ones : ℕ → ℕ
ones zero = 0
ones (suc size) = 1 + 2 * ones size

abbrev pub shifted : ℕ → ℕ → ℕ
shifted zero x = x
shifted (suc pos) x = 2 * shifted pos x

even_half : (x : ℕ) → (2 * x) / 2 ≡ x
even_half x = omega arith

odd_half : (x : ℕ) → (1 + 2 * x) / 2 ≡ x
odd_half x = omega arith

even_odd : (x : ℕ) → ((2 * x) % 2 == 1) ≡ false
even_odd x = ground arith

odd_odd : (x : ℕ) → ((1 + 2 * x) % 2 == 1) ≡ true
odd_odd x = ground arith

shifted_positive : (pos x : ℕ) → 1 ≤ x → 1 ≤ shifted pos x
shifted_positive zero x h = h
shifted_positive (suc pos) x h = let k = shifted_positive pos x h in omega arith

ones_positive : (size : ℕ) → 1 ≤ ones (suc size)
ones_positive size = omega arith

not_zero : (x : ℕ) → 1 ≤ x → (x == 0) ≡ false
not_zero x h = ground arith

lowest_bit-shifted :
    (pos width size : ℕ)
    → pos + suc size ≤ width
    → lowest_bit width (shifted pos (ones (suc size))) ≡ pos
unfolding lowest_bit
lowest_bit-shifted zero (suc width) size h = rw (odd_odd (ones size)) refl
lowest_bit-shifted (suc pos) (suc width) size h =
    let x = shifted pos (ones (suc size)) in
    rw (even_odd x, even_half x) (ap suc (lowest_bit-shifted pos width size (omega arith)))
lowest_bit-shifted pos zero size h = omega arith

highest_bit-ones : (width size : ℕ) → suc size ≤ width → highest_bit width (ones (suc size)) ≡ size
unfolding highest_bit
highest_bit-ones (suc width) zero h = refl
highest_bit-ones (suc width) (suc size) h =
    let x = ones (suc size) in
    rw (odd_half x, not_zero x (ones_positive size))
      (ap suc (highest_bit-ones width size (omega arith)))
highest_bit-ones zero size h = omega arith

highest_bit-shifted :
    (pos width size : ℕ)
    → pos + suc size ≤ width
    → highest_bit width (shifted pos (ones (suc size))) ≡ pos + size
unfolding highest_bit
highest_bit-shifted zero width size h = highest_bit-ones width size (omega arith) ∙ omega arith
highest_bit-shifted (suc pos) (suc width) size h =
    let x = shifted pos (ones (suc size)) in
    rw (even_half x, not_zero x (shifted_positive pos (ones (suc size)) (ones_positive size)))
      (ap suc (highest_bit-shifted pos width size (omega arith)) ∙ omega arith)
highest_bit-shifted (suc pos) zero size h = omega arith

-- `find_bits` finds the place and the number of the bits of a mask that are set, where those are
-- contiguous.
pub find_bits-field :
    (pos size : ℕ)
    → pos + suc size ≤ 32
    → find_bits (shifted pos (ones (suc size))) ≡ record { pos = pos; size = suc size }
unfolding find_bits
find_bits-field pos size h =
    let x = shifted pos (ones (suc size)) in
    let count : pos + size - pos + 1 ≡ suc size = omega arith in
    rw
      (
        not_zero x (shifted_positive pos (ones (suc size)) (ones_positive size)),
        lowest_bit-shifted pos 32 size h,
        highest_bit-shifted pos 32 size h,
        count,
      )
      refl
