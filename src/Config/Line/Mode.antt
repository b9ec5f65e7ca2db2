-- ===== src/Config/Line/Mode.antt =====
-- What `parse_config_mode` of src/phase3/wboot_config.c accepts.
use wboot.Prelude.{
  ℕ, ◌≡◌, ap, ◌∙◌, arith, true, false, Option, none, some, List, [], ◌∷◌, Text, codes,
}
use wboot.Prelude.Int.{ℤ, negsuc}
use wboot.Stdlib.Text.{strtok_r}
use wboot.Stdlib.Text.Tokens.{words, first_word, other_words, strtok_r-saved_words, strtok_r_later}
use wboot.Stdlib.Alloc.{Machine}
use wboot.Config.{WbootConfig, parse_u32, parse_mode_format}
use wboot.Config.Line.{ModeTokens, mode_tokens, blanks, Parsed, set_mode_values, parse_config_mode}

-- The values of a mode line.
pub record Mode : Type 0 where
  pub width : ℕ
  pub height : ℕ
  pub format : ℤ
  pub depth : ℕ

abbrev all_four : Option ℕ → Option ℕ → Option ℤ → Option ℕ → Option Mode
all_four (some w) (some h) (some f) (some d) =
    some (record { width = w; height = h; format = f; depth = d })
all_four _ _ _ _ = none

-- What the words of a mode line mean: width, height, a format (-1) and a depth (0).
abbrev pub mode_of : List Text → Option Mode
mode_of (w ∷ h ∷ []) = all_four (parse_u32 (some w)) (parse_u32 (some h)) (some (negsuc 0)) (some 0)
mode_of (w ∷ h ∷ f ∷ []) =
    all_four (parse_u32 (some w)) (parse_u32 (some h)) (parse_mode_format (some f)) (some 0)
mode_of (w ∷ h ∷ f ∷ d ∷ []) =
    all_four (parse_u32 (some w)) (parse_u32 (some h)) (parse_mode_format (some f))
      (parse_u32 (some d))
mode_of _ = none

-- The config with these values; without any it stays, and the line is refused.
abbrev pub with_mode : WbootConfig → Option Mode → Parsed
with_mode config none = (false, config)
with_mode config (some v) = (
  true,
  record config {
    mode_width = v.width;
    mode_height = v.height;
    mode_format = v.format;
    mode_depth = v.depth;
  },
)

-- The five tokens by the words of the line.
abbrev tokens_of : List Text → ModeTokens
tokens_of ws = record {
  width_str = first_word ws;
  height_str = first_word (other_words ws);
  format_str = first_word (other_words (other_words ws));
  depth_str = first_word (other_words (other_words (other_words ws)));
  extra = first_word (other_words (other_words (other_words (other_words ws))));
}

mode_tokens-words : (value : Text) → mode_tokens value ≡ tokens_of (words blanks value)
unfolding mode_tokens
mode_tokens-words value =
    let first = strtok_r none blanks (some value) in
    let second = strtok_r none blanks first.1 in
    let third = strtok_r none blanks second.1 in
    let fourth = strtok_r none blanks third.1 in
    let (t1, n1) = strtok_r-saved_words blanks (some value) in
    let (t2, n2) = strtok_r-saved_words blanks first.1 in
    let (t3, n3) = strtok_r-saved_words blanks second.1 in
    let (t4, n4) = strtok_r-saved_words blanks third.1 in
    let (t5, n5) = strtok_r-saved_words blanks fourth.1 in
    let q2 = n2 ∙ ap other_words n1 in
    let q3 = n3 ∙ ap other_words q2 in
    let q4 = n4 ∙ ap other_words q3 in
    rw (← strtok_r_later blanks value none) (λ i. record {
      width_str = t1 i;
      height_str = (t2 ∙ ap first_word n1) i;
      format_str = (t3 ∙ ap first_word q2) i;
      depth_str = (t4 ∙ ap first_word q3) i;
      extra = (t5 ∙ ap first_word q4) i;
    })

set_mode_values-mode_of :
    (config : WbootConfig) (ws : List Text) (line_no : ℕ) (m : Machine)
    → (set_mode_values config (tokens_of ws) line_no m).0 ≡ with_mode config (mode_of ws)
unfolding set_mode_values
set_mode_values-mode_of config [] line_no m = ground arith
set_mode_values-mode_of config (w ∷ []) line_no m = ground arith
set_mode_values-mode_of config (w ∷ h ∷ []) line_no m = ground arith
set_mode_values-mode_of config (w ∷ h ∷ f ∷ []) line_no m = ground arith
set_mode_values-mode_of config (w ∷ h ∷ f ∷ d ∷ []) line_no m = ground arith
set_mode_values-mode_of config (w ∷ h ∷ f ∷ d ∷ e ∷ ws) line_no m = ground arith

-- A mode line is accepted exactly when its words are two to four valid values; these four fields
-- are then set, and a refused line changes no field.
pub parse_config_mode-mode_of :
    (config : WbootConfig) (value : Text) (line_no : ℕ) (m : Machine)
    → (parse_config_mode config value line_no m).0
      ≡ with_mode config (mode_of (words (codes " \t") value))
parse_config_mode-mode_of config value line_no m =
    unfold parse_config_mode in
    (ap (λ t. (set_mode_values config t line_no m).0) (mode_tokens-words value)
      ∙ set_mode_values-mode_of config (words blanks value) line_no m)
