-- ===== src/Config/Values.antt =====
-- What `parse_u32` and `parse_mode_format` of src/phase3/wboot_config.c accept.
use wboot.Prelude.{
  ℕ, ◌+◌, ◌*◌, ◌%◌, ◌^◌, ◌<◌, ◌≡◌, ◌≢◌, ◌↔◌, ◌⊎◌, inr, refl, ap, ◌∙◌, arith, true, Option, none,
  some, [], ◌∷◌, ◌++◌, append-nil, Text, codes, ltb, All, if◌then◌else◌,
}
use wboot.Prelude.Int.{ℤ, pos, negsuc}
use wboot.Prelude.Words.{u32_mod, u64_mod}
use wboot.Stdlib.Text.{strtoul, strcmp8}
use wboot.Stdlib.Text.Compare.{IsCString, strcmp8_iff}
use wboot.Stdlib.Text.Digits.{IsDecimal, StopsDecimal, decimal, strtoul-decimal}
use wboot.Config.{parse_u32, checked_u32, checked_i32, equals_zero, same_text, parse_mode_format}

equals_zero_lem : (z : ℤ) → equals_zero z ≡ true → z ≡ pos 0
unfolding equals_zero
equals_zero_lem (pos n) h = ground arith
equals_zero_lem (negsuc n) h = cc

parse_u32-checked :
    (value : Text) → value ≢ [] → parse_u32 (some value) ≡ checked_u32 (strtoul value 10)
parse_u32-checked [] h = absurd (h refl)
parse_u32-checked (c ∷ value) h = unfold parse_u32 in refl

-- `strcmp8(s, t) == 0` exactly on equal texts.
pub same_text_iff : (s t : Text) → IsCString s → IsCString t → (same_text s t ≡ true) ↔ (s ≡ t)
unfolding same_text
same_text_iff s t hs ht = (
  λ e. (strcmp8_iff s t hs ht).0 (equals_zero_lem (strcmp8 s t) e),
  λ e. unfold equals_zero in rw ((strcmp8_iff s t hs ht).1 e) refl,
)

-- A number that fits is the result.
abbrev pub fitting : ℕ → ℕ → Option ℕ
fitting bound n = if ltb n bound then some n else none

-- What `parse_u32` makes of leading digits and what follows them.
abbrev pub read_u32 : Text → Text → Option ℕ
read_u32 [] rest = none
read_u32 (d ∷ ds) [] = fitting u32_mod (decimal 0 (d ∷ ds) % u64_mod)
read_u32 (d ∷ ds) (c ∷ rest) = none

-- `parse_u32` takes a text of one or more decimal digits and nothing else, whose number modulo
-- 2^64 fits in 32 bits: `ds` are all the leading digits of the text, and `rest` what follows.
pub parse_u32-read_u32 :
    (ds rest : Text)
    → All IsDecimal ds
    → StopsDecimal rest
    → parse_u32 (some (ds ++ rest)) ≡ read_u32 ds rest
unfolding checked_u32
parse_u32-read_u32 [] [] h stop = unfold parse_u32 in refl
parse_u32-read_u32 [] (c ∷ rest) h stop =
    parse_u32-checked (c ∷ rest) (cc) ∙ ap checked_u32 (strtoul-decimal [] (c ∷ rest) h stop)
parse_u32-read_u32 (d ∷ ds) [] h stop =
    parse_u32-checked (d ∷ (ds ++ [])) (cc)
    ∙ ap checked_u32 (strtoul-decimal (d ∷ ds) [] h stop)
    ∙ ground arith
parse_u32-read_u32 (d ∷ ds) (c ∷ rest) h stop =
    parse_u32-checked (d ∷ (ds ++ c ∷ rest)) (cc)
    ∙ ap checked_u32 (strtoul-decimal (d ∷ ds) (c ∷ rest) h stop)

-- A number of 2^64 or more is taken for its remainder, so `parse_u32` accepts numbers that do not
-- fit in 32 bits: every text whose number is a multiple of 2^64 above one that fits.
pub parse_u32_wraps :
    (ds : Text) (n k : ℕ)
    → All IsDecimal ds
    → 0 < k
    → n < u32_mod
    → decimal 0 ds ≡ n + k * u64_mod
    → parse_u32 (some ds) ≡ some n
parse_u32_wraps [] n k h pos_k small e = absurd (omega arith)
parse_u32_wraps (d ∷ ds) n k h pos_k small e =
    rw (← append-nil (d ∷ ds)) (parse_u32-read_u32 (d ∷ ds) [] h tt ∙ rw e (ground arith))

abbrev pub fitting_i32 : Option ℕ → Option ℤ
fitting_i32 none = none
fitting_i32 (some n) = if ltb n (2 ^ 31) then some (pos n) else none

-- `parse_mode_format` takes "-1", and any other text as `parse_u32` does, below 2^31.
pub parse_mode_format_lem :
    (value : Text)
    → All (λ c. 0 < c) value
    → ((value ≡ codes "-1") × (parse_mode_format (some value) ≡ some (negsuc 0)))
      ⊎ ((value ≢ codes "-1")
          × (parse_mode_format (some value) ≡ fitting_i32 (parse_u32 (some value))))
unfolding parse_mode_format checked_i32
parse_mode_format_lem [] h = inr (cc, unfold parse_u32 in refl)
parse_mode_format_lem (c ∷ value) h =
    ground (arith, same_text_iff (c ∷ value) (codes "-1") h (omega arith))
