-- ===== src/Examples/Text.antt =====
-- Runs of the text and memory functions of src/shared/wstdlib.c.
use wboot.Prelude.{◌%◌, ◌≡◌, refl, ◌↔◌, arith, Option, none, some, ◌++◌, Text, codes}
use wboot.Prelude.Int.{pos}
use wboot.Prelude.Words.{u64_mod}
use wboot.Stdlib.Text.{strcmp8, strtok_r, strtoul}
use wboot.Stdlib.Text.Compare.{IsCString, strcmp8_iff}
use wboot.Stdlib.Text.Tokens.{
  CutFrom, strtok_r-CutFrom, strtok_r-saved_words, first_word, other_words, saved_words,
}
use wboot.Stdlib.Text.Digits.{decimal, strtoul-decimal}
use wboot.Stdlib.Memory.{Memory, memmove}
use wboot.Stdlib.Memory.Laws.{copied, memmove-copied}

abbrev kernel : Text
kernel = codes "kernel"

abbrev mode : Text
mode = codes "mode"

kernel-IsCString : IsCString kernel
kernel-IsCString = ground arith

mode-IsCString : IsCString mode
mode-IsCString = ground arith

strcmp8_iff_example : (strcmp8 kernel mode ≡ pos 0) ↔ (kernel ≡ mode)
strcmp8_iff_example = strcmp8_iff kernel mode kernel-IsCString mode-IsCString

strtok_r-CutFrom_example :
    CutFrom
      (codes " \t")
      (codes " 1024 768")
      (strtok_r (some (codes " 1024 768")) (codes " \t") none)
strtok_r-CutFrom_example = strtok_r-CutFrom (codes " \t") (codes " 1024 768") none

abbrev rest_of_mode : Option Text
rest_of_mode = some (codes "768  32")

strtok_r-saved_words_example :
    let (token, next) = strtok_r none (codes " ") rest_of_mode in
    (token ≡ first_word (saved_words (codes " ") rest_of_mode))
    × (saved_words (codes " ") next ≡ other_words (saved_words (codes " ") rest_of_mode))
strtok_r-saved_words_example = strtok_r-saved_words (codes " ") rest_of_mode

strtok_r_run :
    strtok_r (some (codes " 1024 768")) (codes " \t") none
    ≡ (some (codes "1024"), some (codes "768"))
unfolding strtok_r
strtok_r_run = refl

strtoul-decimal_example :
    strtoul (codes "1024" ++ codes "x") 10 ≡ (decimal 0 (codes "1024") % u64_mod, codes "x")
strtoul-decimal_example = strtoul-decimal (codes "1024") (codes "x") (ground arith) (ground arith)

strtoul_run : strtoul (codes "ff;") 16 ≡ (255, codes ";")
unfolding strtoul
strtoul_run = refl

abbrev numbered : Memory
numbered a = a

memmove-copied_example : memmove 12 10 4 numbered 14 ≡ copied 12 10 4 numbered 14
memmove-copied_example = memmove-copied 12 10 4 numbered 14
