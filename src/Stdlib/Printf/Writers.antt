-- ===== src/Stdlib/Printf/Writers.antt =====
-- What each writer of src/shared/wstdlib.c adds to what the console puts out.
use mathlib.Core.List.{map, map-append}
use wboot.Prelude.{
  ℕ, ◌+◌, ◌≤◌, ◌<◌, ◌≡◌, refl, sym, ap, ◌∙◌, arith, List, [], ◌∷◌, ◌++◌, append-nil, append_assoc,
  length-concat, Option, none, some, Text, length,
}
use wboot.Stdlib.Text.{strlen8}
use wboot.Stdlib.Printf.{
  Console, ◌>>=◌, low_byte, flush, put, put_all, make_room, write, write_char, printf_buffer_size,
}

-- All that has been written: what the port has, and what the buffer will put out.
abbrev pub written : Console → List ℕ
written con = con.serial ++ map low_byte con.pending

-- The call succeeds and writes this text.
abbrev pub Writes : Text → Console → Option Console → Type 0
Writes t con none = ⊥
Writes t con (some con') =
    (written con' ≡ written con ++ map low_byte t) × (con'.bs_exited ≡ con.bs_exited)

-- A writer behind a writer.
pub Writes-bind :
    (t u : Text) (con : Console) (o : Option Console) (f : Console → Option Console)
    → Writes t con o
    → ((con' : Console) → o ≡ some con' → con'.bs_exited ≡ con.bs_exited → Writes u con' (f con'))
    → Writes (t ++ u) con (o >>= f)
Writes-bind t u con none f h k = h
Writes-bind t u con (some con') f h k = joined (f con') (k con' refl h.1)
  where
    joined : (o : Option Console) → Writes u con' o → Writes (t ++ u) con o
    joined none g = g
    joined (some con'') g = (
      g.0
          ∙ ap (λ (l : List ℕ). l ++ map low_byte u) h.0
          ∙ append_assoc (written con) (map low_byte t) (map low_byte u)
          ∙ ap (λ (l : List ℕ). written con ++ l) (sym (map-append low_byte t u)),
      g.1 ∙ h.1,
    )

put-Writes :
    (c : ℕ) (con : Console)
    → length con.pending < printf_buffer_size
    → Writes (c ∷ []) con (put c con)
unfolding put
put-Writes c con h = ground (
  arith,
  map-append low_byte con.pending (c ∷ []),
  append_assoc con.serial (map low_byte con.pending) (low_byte c ∷ []),
)

put-length :
    (c : ℕ) (con con' : Console)
    → put c con ≡ some con'
    → length con'.pending ≡ length con.pending + 1
unfolding put
put-length c con con' h = ground (arith, length-concat con.pending c)

written-make_room : (len : ℕ) (con : Console) → written (make_room len con) ≡ written con
unfolding make_room flush
written-make_room len con = ground (arith, append-nil (con.serial ++ map low_byte con.pending))

make_room_lem :
    (len : ℕ) (con : Console)
    → len ≤ printf_buffer_size
    → (length (make_room len con).pending + len ≤ printf_buffer_size)
      × ((make_room len con).bs_exited ≡ con.bs_exited)
unfolding make_room flush
make_room_lem len con h = ground arith

make_room-Writes :
    (t : Text) (len : ℕ) (con : Console) (o : Option Console)
    → len ≤ printf_buffer_size
    → Writes t (make_room len con) o
    → Writes t con o
make_room-Writes t len con none small h = h
make_room-Writes t len con (some con') small (w, b) = (
  w ∙ ap (λ (l : List ℕ). l ++ map low_byte t) (written-make_room len con),
  b ∙ (make_room_lem len con small).1,
)

-- `_printf_write_char` writes its character.
pub write_char-Writes : (c : ℕ) (con : Console) → Writes (c ∷ []) con (write_char c con)
unfolding write_char
write_char-Writes c con =
    make_room-Writes (c ∷ []) 1 con _ (omega arith)
      (put-Writes c (make_room 1 con) (omega (arith, (make_room_lem 1 con (omega arith)).0)))

put_all-Writes :
    (t : Text) (con : Console)
    → length con.pending + strlen8 t ≤ printf_buffer_size
    → Writes t con (put_all t con)
unfolding put_all strlen8
put_all-Writes [] con h = (sym (append-nil (written con)), refl)
put_all-Writes (c ∷ t) con h =
    Writes-bind (c ∷ []) t con (put c con) (put_all t) (put-Writes c con (omega arith))
      λ con' e same. put_all-Writes t con' (omega (arith, put-length c con con' e))

-- `_printf_write` writes a text that the empty buffer holds.
pub write-Writes :
    (t : Text) (con : Console) → strlen8 t ≤ printf_buffer_size → Writes t con (write t con)
unfolding write
write-Writes t con h =
    make_room-Writes t (strlen8 t) con _ h
      (put_all-Writes t (make_room (strlen8 t) con) (make_room_lem (strlen8 t) con h).0)
