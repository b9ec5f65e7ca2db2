-- ===== src/Config/Line/Entry.antt =====
-- How `parse_config_line` of src/phase3/wboot_config.c cuts a line into a key and a value.
use wboot.Prelude.{
  ℕ, ◌≡◌, ◌≢◌, ◌⊎◌, inl, inr, refl, ap, ◌∙◌, arith, true, false, Text, [], ◌∷◌, ◌++◌, ◌==◌, All,
}
use wboot.Efi.{Firmware}
use wboot.Stdlib.Text.Compare.{IsCString}
use wboot.Stdlib.Alloc.{Machine}
use wboot.Config.{WbootConfig, ConfigParseState, is_ws}
use wboot.Config.Trim.{trim_trailing_ws_lem}
use wboot.Config.Line.{
  set_key, set_value, set_trimmed, skip_ws, split_key, parse_entry, parse_config_line,
}
use wboot.Config.Line.Effect.{Sets, set_key-Sets}

abbrev pub Blank : Text → Type 0
Blank = All (λ c. is_ws c ≡ true)

abbrev pub StartsPlain : Text → Type 0
StartsPlain [] = ⊥
StartsPlain (c ∷ s) = is_ws c ≡ false

-- Blanks, a key, a blank and more of them, a value, blanks. The value ends in `last`.
pub record Entry : Type 0 where
  pub lead : Text
  pub key_first : ℕ
  pub key_rest : Text
  pub blank : ℕ
  pub mid : Text
  pub value_front : Text
  pub last : ℕ
  pub trail : Text

abbrev pub key : Entry → Text
key e = e.key_first ∷ e.key_rest

abbrev pub value : Entry → Text
value e = e.value_front ++ e.last ∷ []

abbrev pub line_of : Entry → Text
line_of e = e.lead ++ (key e ++ (e.blank ∷ (e.mid ++ (value e ++ e.trail))))

pub record IsEntry (e : Entry) : Type 0 where
  pub lead_blank : Blank e.lead
  pub key_plain : All (λ c. is_ws c ≡ false) (key e)
  pub no_comment : e.key_first ≢ b'#'
  pub blank_is : is_ws e.blank ≡ true
  pub mid_blank : Blank e.mid
  pub value_plain : StartsPlain (value e)
  pub last_plain : is_ws e.last ≡ false
  pub trail_blank : Blank e.trail

skip_ws-Blank : (ws s : Text) → Blank ws → skip_ws (ws ++ s) ≡ skip_ws s
unfolding skip_ws
skip_ws-Blank [] s h = refl
skip_ws-Blank (c ∷ ws) s h = rw h.0 (skip_ws-Blank ws s h.1)

skip_ws-StartsPlain : (s t : Text) → StartsPlain s → skip_ws (s ++ t) ≡ s ++ t
unfolding skip_ws
skip_ws-StartsPlain [] t h = absurd h
skip_ws-StartsPlain (c ∷ s) t h = rw h refl

split_key_lem :
    (k rest : Text) (blank : ℕ)
    → All (λ c. is_ws c ≡ false) k
    → is_ws blank ≡ true
    → split_key (k ++ (blank ∷ rest)) ≡ (k, blank ∷ rest)
unfolding split_key
split_key_lem [] rest blank h b = rw b refl
split_key_lem (c ∷ k) rest blank h b = rw (h.0, split_key_lem k rest blank h.1 b) refl

module _ (fw : Firmware) (config : WbootConfig) (state : ConfigParseState) (n : ℕ)
    (m : Machine) where
  set_trimmed-set_key :
      (k v : Text)
      → StartsPlain v
      → set_trimmed fw config state k v n m ≡ set_key fw config state k v n m
  unfolding set_trimmed
  set_trimmed-set_key k [] h = absurd h
  set_trimmed-set_key k (c ∷ v) h = refl

  set_value-set_key :
      (e : Entry)
      → IsEntry e
      → set_value fw config state (key e) (e.blank ∷ (e.mid ++ (value e ++ e.trail))) n m
        ≡ set_key fw config state (key e) (value e) n m
  unfolding set_value
  set_value-set_key e h =
      rw
        (
          skip_ws-Blank e.mid (value e ++ e.trail) h.mid_blank,
          skip_ws-StartsPlain (value e) e.trail h.value_plain,
          trim_trailing_ws_lem e.value_front e.trail e.last h.last_plain h.trail_blank,
        )
        (set_trimmed-set_key (key e) (value e) h.value_plain)

  parse_entry_cut :
      (c : ℕ) (line k v : Text)
      → c ≢ b'#'
      → split_key (c ∷ line) ≡ (k, v)
      → parse_entry fw config state (c ∷ line) n m ≡ set_value fw config state k v n m
  unfolding parse_entry
  parse_entry_cut c line k v ne e =
      let other : (c == b'#') ≡ false = ground arith in
      rw other (ap (λ (r : Text × Text). set_value fw config state r.0 r.1 n m) e)

  parse_config_line_lem :
      (line : Text)
      → parse_config_line fw config state line n m ≡ parse_entry fw config state (skip_ws line) n m
  unfolding parse_config_line
  parse_config_line_lem line = refl

  -- Of an entry `parse_config_line` finds the key and the value, whatever blanks surround them.
  pub parse_config_line-set_key :
      (e : Entry)
      → IsEntry e
      → parse_config_line fw config state (line_of e) n m
        ≡ set_key fw config state (key e) (value e) n m
  parse_config_line-set_key e h =
      let rest = e.mid ++ (value e ++ e.trail) in
      parse_config_line_lem (line_of e)
      ∙ ap (λ (l : Text). parse_entry fw config state l n m)
          (skip_ws-Blank e.lead (key e ++ (e.blank ∷ rest)) h.lead_blank
            ∙ skip_ws-StartsPlain (key e) (e.blank ∷ rest) h.key_plain.0)
      ∙ parse_entry_cut e.key_first (e.key_rest ++ (e.blank ∷ rest)) (key e) (e.blank ∷ rest)
          h.no_comment (split_key_lem (key e) rest e.blank h.key_plain h.blank_is)
      ∙ set_value-set_key e h

  -- A line of blanks, and a comment behind blanks, are accepted and change nothing.
  pub parse_config_line_skips :
      (lead rest : Text)
      → Blank lead
      → (rest ≡ []) ⊎ ((body : Text) × (rest ≡ b'#' ∷ body))
      → parse_config_line fw config state (lead ++ rest) n m ≡ ((true, config, state), m)
  parse_config_line_skips lead rest h shape =
      parse_config_line_lem (lead ++ rest)
      ∙ ap (λ (l : Text). parse_entry fw config state l n m) (skip_ws-Blank lead rest h)
      ∙ skipped rest shape
    where
      skipped :
          (rest : Text)
          → (rest ≡ []) ⊎ ((body : Text) × (rest ≡ b'#' ∷ body))
          → parse_entry fw config state (skip_ws rest) n m ≡ ((true, config, state), m)
      skipped rest (inl e) = unfold skip_ws parse_entry in rw e refl
      skipped rest (inr (body, e)) = unfold skip_ws parse_entry is_ws in rw e refl

-- An entry whose key is one of the four, and whose value the key accepts, sets that key's field
-- to the value between the blanks; any other entry changes nothing.
pub parse_config_line-Sets :
    (fw : Firmware) (config : WbootConfig) (state : ConfigParseState) (e : Entry) (n : ℕ)
    (m : Machine)
    → IsEntry e
    → IsCString (key e)
    → Sets (key e) (value e) config state (parse_config_line fw config state (line_of e) n m).0
parse_config_line-Sets fw config state e n m h nul_free =
    rw (parse_config_line-set_key fw config state n m e h)
      (set_key-Sets fw config state (key e) (value e) n m nul_free)
