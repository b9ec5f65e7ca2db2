-- ===== src/Config/Trim.antt =====
-- What `trim_trailing_ws` of src/phase3/wboot_config.c leaves.
use wboot.Prelude.{
  ℕ, suc, ◌≡◌, refl, sym, ap, ◌∙◌, true, false, some, [], ◌∷◌, ◌++◌, append-nil, append_assoc, Text,
  All, get_elem?, take,
}
use wboot.Stdlib.Text.{strlen8}
use wboot.Config.{trim_loop, trim_trailing_ws, is_ws}

strlen8-append : (s : Text) (c : ℕ) → strlen8 (s ++ c ∷ []) ≡ suc (strlen8 s)
unfolding strlen8
strlen8-append [] c = refl
strlen8-append (x ∷ s) c = ap suc (strlen8-append s c)

last_unit : (s : Text) (c : ℕ) → get_elem? (s ++ c ∷ []) (strlen8 s) ≡ some c
unfolding strlen8
last_unit [] c = refl
last_unit (x ∷ s) c = last_unit s c

take_all_but_last : (s : Text) (c : ℕ) → take (strlen8 s) (s ++ c ∷ []) ≡ s
unfolding strlen8
take_all_but_last [] c = refl
take_all_but_last (x ∷ s) c = ap (λ (t : Text). x ∷ t) (take_all_but_last s c)

trim_loop_blank :
    (n : ℕ) (str : Text) (c : ℕ)
    → get_elem? str n ≡ some c
    → is_ws c ≡ true
    → trim_loop (suc n) str ≡ trim_loop n (take n str)
unfolding trim_loop
trim_loop_blank n str c e h = rw (e, trim_loop) (rw h refl)

trim_loop_stop :
    (n : ℕ) (str : Text) (c : ℕ)
    → get_elem? str n ≡ some c
    → is_ws c ≡ false
    → trim_loop (suc n) str ≡ str
unfolding trim_loop
trim_loop_stop n str c e h = rw (e, trim_loop) (rw h refl)

trim_loop-suc :
    (s : Text) (c : ℕ) → trim_trailing_ws (s ++ c ∷ []) ≡ trim_loop (suc (strlen8 s)) (s ++ c ∷ [])
unfolding trim_trailing_ws
trim_loop-suc s c = ap (λ (n : ℕ). trim_loop n (s ++ c ∷ [])) (strlen8-append s c)

trim_blank :
    (s : Text) (c : ℕ) → is_ws c ≡ true → trim_trailing_ws (s ++ c ∷ []) ≡ trim_trailing_ws s
trim_blank s c h =
    trim_loop-suc s c
    ∙ trim_loop_blank (strlen8 s) (s ++ c ∷ []) c (last_unit s c) h
    ∙ unfold trim_trailing_ws in ap (trim_loop (strlen8 s)) (take_all_but_last s c)

trim_blanks :
    (s ws : Text) → All (λ c. is_ws c ≡ true) ws → trim_trailing_ws (s ++ ws) ≡ trim_trailing_ws s
trim_blanks s [] h = ap trim_trailing_ws (append-nil s)
trim_blanks s (c ∷ ws) h =
    ap trim_trailing_ws (sym (append_assoc s (c ∷ []) ws))
    ∙ trim_blanks (s ++ c ∷ []) ws h.1
    ∙ trim_blank s c h.0

-- `trim_trailing_ws` cuts all the blanks at the end of a text and nothing else: a text that ends
-- in a character that is no blank, with any blanks behind it, is cut to that character.
pub trim_trailing_ws_lem :
    (s ws : Text) (c : ℕ)
    → is_ws c ≡ false
    → All (λ x. is_ws x ≡ true) ws
    → trim_trailing_ws ((s ++ c ∷ []) ++ ws) ≡ s ++ c ∷ []
trim_trailing_ws_lem s ws c h blanks =
    trim_blanks (s ++ c ∷ []) ws blanks
    ∙ trim_loop-suc s c
    ∙ trim_loop_stop (strlen8 s) (s ++ c ∷ []) c (last_unit s c) h

-- A text of blanks is cut to nothing.
pub trim_trailing_ws-nil : (ws : Text) → All (λ x. is_ws x ≡ true) ws → trim_trailing_ws ws ≡ []
trim_trailing_ws-nil ws blanks =
    trim_blanks [] ws blanks ∙ unfold trim_trailing_ws trim_loop strlen8 in refl
