-- ===== src/Stdlib/Text/Tokens.antt =====
-- What `strtok_r` of src/shared/wstdlib.c returns: the words between the delimiters, one by one.
use wboot.Prelude.{
  ℕ, ◌+◌, ◌<◌, ◌≡◌, ◌≢◌, inl, inr, refl, ap, ◌∙◌, arith, true, false, Option, none, some, List, [],
  ◌∷◌, ◌++◌, append-nil, append_assoc, Text, All, length, Bool-cases, length-append, if◌then◌else◌,
}
use wboot.Stdlib.Text.{is_delim, skip_delims, find_end, save_after, cut_token, strtok_r}

-- A word in front of other words, left out if it is empty.
abbrev pub cons_word : Text → List Text → List Text
cons_word [] words = words
cons_word (c ∷ cs) words = (c ∷ cs) ∷ words

abbrev pub first_word : List Text → Option Text
first_word [] = none
first_word (w ∷ ws) = some w

abbrev pub other_words : List Text → List Text
other_words [] = []
other_words (w ∷ ws) = ws

module _ (delim : Text) where
  -- The maximal runs of characters that are no delimiters, behind the current run `word`.
  pub words_from : Text → Text → List Text
  words_from word [] = cons_word word []
  words_from word (c ∷ s) =
      let cut = cons_word word (words_from [] s) in
      let grow = words_from (word ++ c ∷ []) s in if is_delim delim c then cut else grow

  abbrev pub words : Text → List Text
  words = words_from []

  -- The words that a value of `*saveptr` leaves.
  abbrev pub saved_words : Option Text → List Text
  saved_words none = []
  saved_words (some s) = words s

  abbrev pub Delims : Text → Type 0
  Delims = All (λ c. is_delim delim c ≡ true)

  abbrev pub Plain : Text → Type 0
  Plain = All (λ c. is_delim delim c ≡ false)

  -- What is left behind a token, and what `*saveptr` then is: NULL, or behind one delimiter.
  abbrev pub SavedAfter : Text → Option Text → Type 0
  SavedAfter rest none = rest ≡ []
  SavedAfter rest (some next) = (d : ℕ) × (is_delim delim d ≡ true) × (rest ≡ d ∷ next)

  -- A text as delimiters, a token and the rest.
  pub record Cut (s token : Text) (saveptr : Option Text) : Type 0 where
    pub lead : Text
    pub rest : Text
    pub splits : s ≡ lead ++ (token ++ rest)
    pub lead_delims : Delims lead
    pub token_plain : Plain token
    pub token_ne_nil : token ≢ []
    pub saved : SavedAfter rest saveptr

  abbrev pub CutFrom : Text → Option Text × Option Text → Type 0
  CutFrom s (none, saveptr) = Delims s × (saveptr ≡ none)
  CutFrom s (some token, saveptr) = Cut s token saveptr

  skip_delims_split : (s : Text) → (lead : Text) × Delims lead × (s ≡ lead ++ skip_delims delim s)
  unfolding skip_delims
  skip_delims_split [] = ([], tt, refl)
  skip_delims_split (c ∷ s) = elim (Bool-cases (is_delim delim c)) [
    | inl d ↦ let (lead, all, eq) = skip_delims_split s in (c ∷ lead, (d, all), ground arith)
    | inr p ↦ ([], tt, ground arith)
  ]

  -- The first character that is left is no delimiter.
  abbrev StartsPlain : Text → Type 0
  StartsPlain [] = Unit
  StartsPlain (c ∷ s) = is_delim delim c ≡ false

  skip_delims-StartsPlain : (s : Text) → StartsPlain (skip_delims delim s)
  unfolding skip_delims
  skip_delims-StartsPlain [] = tt
  skip_delims-StartsPlain (c ∷ s) = ground (arith, skip_delims-StartsPlain s)

  abbrev StartsDelim : Text → Type 0
  StartsDelim [] = Unit
  StartsDelim (c ∷ s) = is_delim delim c ≡ true

  find_end_split :
      (s : Text)
      → (s ≡ (find_end delim s).0 ++ (find_end delim s).1)
        × Plain (find_end delim s).0
        × StartsDelim (find_end delim s).1
  unfolding find_end
  find_end_split [] = (refl, tt, tt)
  find_end_split (c ∷ s) = ground (arith, find_end_split s)

  saved_lem : (rest : Text) → StartsDelim rest → SavedAfter rest (save_after rest)
  saved_lem [] h = refl
  saved_lem (d ∷ rest) h = (d, h, refl)

  cut_token-CutFrom :
      (s lead q : Text)
      → s ≡ lead ++ q
      → Delims lead
      → StartsPlain q
      → CutFrom s (cut_token delim q)
  unfolding find_end
  cut_token-CutFrom s lead [] eq all h = (rw (eq, append-nil) all, refl)
  cut_token-CutFrom s lead (c ∷ q) eq all h =
      let (joined, plain, starts) = find_end_split (c ∷ q) in
      record {
        lead = lead;
        rest = (find_end delim (c ∷ q)).1;
        splits = eq ∙ ap (λ (t : Text). lead ++ t) joined;
        lead_delims = all;
        token_plain = plain;
        token_ne_nil = ground arith;
        saved = saved_lem _ starts;
      }

  -- Whatever `*saveptr` was, a first call cuts its text into delimiters, a token without
  -- delimiters that is not empty, and a rest that the next call goes on with behind one
  -- delimiter; without a token it was all delimiters, and `*saveptr` is NULL.
  pub strtok_r-CutFrom :
      (s : Text) (saveptr : Option Text) → CutFrom s (strtok_r (some s) delim saveptr)
  unfolding strtok_r
  strtok_r-CutFrom s saveptr =
      let (lead, all, eq) = skip_delims_split s in
      cut_token-CutFrom s lead (skip_delims delim s) eq all (skip_delims-StartsPlain s)

  words_from-Plain :
      (word token rest : Text)
      → Plain token
      → words_from word (token ++ rest) ≡ words_from (word ++ token) rest
  unfolding words_from
  words_from-Plain word [] rest h = rw append-nil
  words_from-Plain word (c ∷ token) rest h =
      ground
        (arith, words_from-Plain (word ++ c ∷ []) token rest h.1, append_assoc word (c ∷ []) token)

  words-Delims : (lead s : Text) → Delims lead → words (lead ++ s) ≡ words s
  unfolding words_from
  words-Delims [] s h = refl
  words-Delims (c ∷ lead) s h = ground (arith, words-Delims lead s h.1)

  words_from-saved :
      (token rest : Text) (saveptr : Option Text)
      → token ≢ []
      → SavedAfter rest saveptr
      → words_from token rest ≡ token ∷ saved_words saveptr
  unfolding words_from
  words_from-saved [] rest saveptr ne h = absurd (ne refl)
  words_from-saved (c ∷ token) rest none ne h = rw h
  words_from-saved (c ∷ token) rest (some next) ne (d, is_d, eq) = rw eq (ground arith)

  Cut-words :
      {s token : Text} (saveptr : Option Text)
      → Cut s token saveptr
      → words s ≡ token ∷ saved_words saveptr
  Cut-words {token} saveptr cut =
      ap words cut.splits
      ∙ words-Delims cut.lead (token ++ cut.rest) cut.lead_delims
      ∙ words_from-Plain [] token cut.rest cut.token_plain
      ∙ words_from-saved token cut.rest saveptr cut.token_ne_nil cut.saved

  -- The length of the text that is still to be cut.
  abbrev pub saved_length : Option Text → ℕ
  saved_length none = 0
  saved_length (some s) = length s

  length_pos : (s : Text) → s ≢ [] → 0 < length s
  length_pos [] ne = absurd (ne refl)
  length_pos (c ∷ s) ne = omega arith

  -- Each call that returns a token leaves less text.
  pub Cut-lt :
      (s token : Text) (saveptr : Option Text)
      → Cut s token saveptr
      → saved_length saveptr < length s
  Cut-lt s token saveptr cut =
      rw (cut.splits, length-append, length-append) (behind cut.rest saveptr cut.saved)
    where
      behind :
          (rest : Text) (saveptr : Option Text)
          → SavedAfter rest saveptr
          → saved_length saveptr < length cut.lead + (length token + length rest)
      behind rest none h = omega (arith, length_pos token cut.token_ne_nil)
      behind rest (some next) (d, is_d, eq) =
          omega (arith, length_pos token cut.token_ne_nil, ap length eq)

  -- The calls of `strtok_r` list the words of the text: with a token it is the next word, and what
  -- `*saveptr` leaves is shorter and holds the other words; without one there is no word left.
  abbrev pub NextWord : Text → Option Text × Option Text → Type 0
  NextWord s (none, saveptr) = (words s ≡ []) × (saveptr ≡ none)
  NextWord s (some token, saveptr) =
      (words s ≡ token ∷ saved_words saveptr) × (saved_length saveptr < length s)

  CutFrom-NextWord : (s : Text) (r : Option Text × Option Text) → CutFrom s r → NextWord s r
  unfolding words_from
  CutFrom-NextWord s (none, saveptr) (all, e) = (rw (← append-nil s) (words-Delims s [] all), e)
  CutFrom-NextWord s (some token, saveptr) cut = (Cut-words saveptr cut, Cut-lt s token saveptr cut)

  -- A first call of `strtok_r` returns the next word of its text, and leaves the other words.
  pub strtok_r-NextWord :
      (s : Text) (saveptr : Option Text) → NextWord s (strtok_r (some s) delim saveptr)
  strtok_r-NextWord s saveptr =
      CutFrom-NextWord s (strtok_r (some s) delim saveptr) (strtok_r-CutFrom s saveptr)

  -- A later call, with NULL, goes on as a first call at `*saveptr` would.
  pub strtok_r_later :
      (s : Text) (saveptr : Option Text)
      → strtok_r none delim (some s) ≡ strtok_r (some s) delim saveptr
  unfolding strtok_r
  strtok_r_later s saveptr = refl

  -- A call of `strtok_r` with NULL takes the first of the words that `*saveptr` leaves, if any.
  pub strtok_r-saved_words :
      (saveptr : Option Text)
      → let (token, next) = strtok_r none delim saveptr in
        (token ≡ first_word (saved_words saveptr))
        × (saved_words next ≡ other_words (saved_words saveptr))
  strtok_r-saved_words none = unfold strtok_r in (refl, refl)
  strtok_r-saved_words (some s) =
      rw (strtok_r_later s none) (taken (strtok_r (some s) delim none) (strtok_r-NextWord s none))
    where
      taken :
          (r : Option Text × Option Text)
          → NextWord s r
          → (r.0 ≡ first_word (words s)) × (saved_words r.1 ≡ other_words (words s))
      taken (none, next) (empty, null) = rw (empty, null) (refl, refl)
      taken (some token, next) (eq, shorter) = rw eq (refl, refl)
