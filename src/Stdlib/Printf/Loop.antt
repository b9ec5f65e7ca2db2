-- ===== src/Stdlib/Printf/Loop.antt =====
-- The loop of `printf` (src/shared/wstdlib.c) and the text that its format describes.
use mathlib.Core.List.{map}
use wboot.Prelude.{
  ℕ, ◌≡◌, refl, sym, ◌∙◌, List, [], ◌∷◌, ◌++◌, append-nil, Bool, true, false, inl, inr, ◌==◌,
  Option, none, some, Option-cases, subst, Text, All, take, if◌then◌else◌,
}
use wboot.Stdlib.Printf.{
  Console, ◌>>=◌, low_byte, flush, write_char, write_narrow, Arg, wide, narrow, word, Mode, plain,
  percent, dash, State, takes_argument, convert, convert_next, narrow_next, literal, step,
  printf_loop, printf,
}
use wboot.Stdlib.Printf.Writers.{written, Writes, Writes-bind, write_char-Writes}
use wboot.Stdlib.Printf.Render.{shown, Piece, converted, narrowed, piece, render_from, render}
use wboot.Stdlib.Printf.Convert.{Fits, WritesSome, write_narrow-Writes, convert-Writes}

bind_assoc {ℓ} :
    {C : Type ℓ} (o : Option Console) (f : Console → Option Console) (g : Console → Option C)
    → (o >>= f) >>= g ≡ o >>= (λ con. f con >>= g)
bind_assoc none f g = refl
bind_assoc (some con) f g = refl

module _ (pool : ℕ → Bool) where
  -- A step of the loop does what its piece says, and leaves arguments that fit.
  abbrev Follows : Console → Option Piece → Option State → Type 0
  Follows con none o = Unit
  Follows con (some (mode, args, t)) none = ⊥
  Follows con (some (mode, args, t)) (some (mode', args', con')) =
      (mode' ≡ mode)
      × (args' ≡ args)
      × Writes t con (some con')
      × All (Fits pool con.bs_exited) args

  then_plain : List Arg → Option Console → Option State
  then_plain args o = do con' ← o; some (plain, args, con')

  Writes-Follows :
      (t : Text) (args : List Arg) (con : Console) (o : Option Console)
      → All (Fits pool con.bs_exited) args
      → WritesSome pool (some t) con o
      → Follows con (some (plain, args, t)) (then_plain args o)
  unfolding then_plain
  Writes-Follows t args con none all h = h
  Writes-Follows t args con (some con') all h = (refl, refl, h, all)

  literal-Follows :
      (f : ℕ) (args : List Arg) (con : Console)
      → All (Fits pool con.bs_exited) args
      → Follows con (some (plain, args, b'%' ∷ f ∷ [])) (literal f args con)
  unfolding literal then_plain
  literal-Follows f args con all =
      rw
        (← bind_assoc {C = State} (write_char b'%' con) (write_char f)
          (λ con'. some (plain, args, con')))
        (Writes-Follows (b'%' ∷ f ∷ []) args con (write_char b'%' con >>= write_char f) all (
          Writes-bind (b'%' ∷ []) (f ∷ []) con (write_char b'%' con) (write_char f)
            (write_char-Writes b'%' con) λ con' e same. write_char-Writes f con'))

  converted-Follows :
      (f : ℕ) (args : List Arg) (con : Console)
      → All (Fits pool con.bs_exited) args
      → Follows con (converted f args) (convert_next pool f args con)
  unfolding convert_next
  converted-Follows f [] con all = tt
  converted-Follows f (a ∷ args) con all =
      both (shown f a) (convert pool f a con) (convert-Writes pool f a con all.0)
    where
      both :
          (t : Option Text) (o : Option Console)
          → WritesSome pool t con o
          → Follows con (t >>= λ u. some (plain, args, u)) (o >>= λ con'. some (plain, args, con'))
      both none o h = tt
      both (some t) none h = h
      both (some t) (some con') h = (refl, refl, h, all.1)

  narrowed-Follows :
      (args : List Arg) (con : Console)
      → All (Fits pool con.bs_exited) args
      → Follows con (narrowed args) (narrow_next pool args con)
  unfolding narrow_next then_plain
  narrowed-Follows [] con all = tt
  narrowed-Follows (wide s ∷ args) con all = tt
  narrowed-Follows (word num ∷ args) con all = tt
  narrowed-Follows (narrow s ∷ args) con all =
      Writes-Follows (take 255 s) args con (write_narrow pool s con) all.1
        (write_narrow-Writes pool s con all.0)

  char-Follows :
      (c : ℕ) (args : List Arg) (con : Console)
      → All (Fits pool con.bs_exited) args
      → Follows con
          (some (plain, args, c ∷ []))
          (write_char c con >>= λ con'. some (plain, args, con'))
  unfolding then_plain
  char-Follows c args con all =
      Writes-Follows (c ∷ []) args con (write_char c con) all (write_char-Writes c con)

  Follows-if :
      (b : Bool) (x y : Option Piece) (con : Console) (o p : Option State)
      → Follows con x o
      → Follows con y p
      → Follows con (if b then x else y) (if b then o else p)
  Follows-if true x y con o p h k = h
  Follows-if false x y con o p h k = k

  -- Nothing is written where only the mode changes.
  mode-Follows :
      (mode : Mode) (args : List Arg) (con : Console)
      → All (Fits pool con.bs_exited) args
      → Follows con (some (mode, args, [])) (some (mode, args, con))
  mode-Follows mode args con all = (refl, refl, (sym (append-nil (written con)), refl), all)

  piece-Follows :
      (mode : Mode) (c : ℕ) (args : List Arg) (con : Console)
      → All (Fits pool con.bs_exited) args
      → Follows con (piece mode c args) (step pool mode c args con)
  unfolding piece step
  piece-Follows plain c args con all =
      Follows-if (c == b'%') _ _ con _ _ (mode-Follows percent args con all)
        (char-Follows c args con all)
  piece-Follows percent f args con all =
      Follows-if (takes_argument f) _ _ con _ _ (converted-Follows f args con all) (
        Follows-if (f == b'%') _ _ con _ _ (char-Follows b'%' args con all) (
          Follows-if (f == b'-') _ _ con _ _ (mode-Follows dash args con all)
            (literal-Follows f args con all)))
  piece-Follows dash f args con all =
      Follows-if (f == b's') _ _ con _ _ (narrowed-Follows args con all)
        (literal-Follows f args con all)

  render_from-Writes :
      (mode : Mode) (format : Text) (args : List Arg) (con : Console) (t : Text)
      → All (Fits pool con.bs_exited) args
      → render_from mode format args ≡ some t
      → Writes t con (printf_loop pool mode format args con)
  unfolding render_from printf_loop
  render_from-Writes plain [] args con t all h =
      let empty : [] ≡ t = cc in rw (← empty) (sym (append-nil (written con)), refl)
  render_from-Writes percent [] args con t all h = cc
  render_from-Writes dash [] args con t all h = cc
  render_from-Writes mode (c ∷ format) args con t all h =
      go (piece mode c args) (step pool mode c args con) (piece-Follows mode c args con all)
        (λ m a con' u. render_from-Writes m format a con' u) h
    where
      go :
          (r : Option Piece) (o : Option State)
          → Follows con r o
          → ((m : Mode) (a : List Arg) (con' : Console) (u : Text)
              → All (Fits pool con'.bs_exited) a
              → render_from m format a ≡ some u
              → Writes u con' (printf_loop pool m format a con'))
          → (r >>= λ (m, a, u). (render_from m format a >>= λ rest. some (u ++ rest))) ≡ some t
          → Writes t con (o >>= λ (m, a, con'). printf_loop pool m format a con')
      go none o f ih e = absurd (cc)
      go (some r) none f ih e = absurd f
      go (some (m, a, u)) (some (m', a', con')) (em, ea, w, fits) ih e =
          elim (Option-cases (render_from m format a)) [
            | inl bad ↦ absurd (cc)
            | inr (rest, good) ↦
                let joined : u ++ rest ≡ t = cc in
                rw (← joined, em, ea)
                  (Writes-bind u rest con (some con') (printf_loop pool m format a) w
                    λ con'' _ same.
                      ih m a con'' rest (subst (λ b. All (Fits pool b) a) (sym same) fits) good)
          ]

-- What the console is after a call of `printf` that puts out the text.
abbrev pub put_out : Text → Console → Console
put_out t con = record con { pending = []; serial = written con ++ map low_byte t }

flush-put_out :
    (t : Text) (con : Console) (o : Option Console)
    → Writes t con o
    → (o >>= λ con'. some (flush con')) ≡ some (put_out t con)
unfolding flush
flush-put_out t con none w = absurd w
flush-put_out t con (some con') (w, b) =
    λ i. some (record { pending = []; serial = w i; bs_exited = b i })

pub printf_lem :
    (pool : ℕ → Bool) (format : Text) (args : List Arg) (con : Console)
    → printf pool format args con
      ≡ (printf_loop pool plain format args con >>= λ con'. some (flush con'))
unfolding printf
printf_lem pool format args con = refl

-- Where the format and its arguments describe a text and the arguments fit, `printf` succeeds: it
-- puts out what was pending and then the low bytes of that text, and leaves the buffer empty.
pub printf-render :
    (pool : ℕ → Bool) (format : Text) (args : List Arg) (con : Console) (t : Text)
    → All (Fits pool con.bs_exited) args
    → render format args ≡ some t
    → printf pool format args con ≡ some (put_out t con)
unfolding render
printf-render pool format args con t all h =
    printf_lem pool format args con
    ∙ flush-put_out t con _ (render_from-Writes pool plain format args con t all h)
