-- ===== src/Stdlib/Alloc.antt =====
-- `malloc`, `free`, `calloc`, `strdup8`, `perror`, `strerror` and `errno` of src/shared/wstdlib.c,
-- over the firmware of Efi.
pub mod Balance
pub mod Owes
pub mod Ends
use wboot.Prelude.{
  ℕ, suc, ◌+◌, ◌*◌, ◌%◌, Bool, true, false, not, List, [], ◌∷◌, Text, codes, ◌==◌, if◌then◌else◌,
}
use wboot.Prelude.Words.{u64_mod}
use wboot.Stdlib.Memory.{Memory, memset}
use wboot.Stdlib.Text.{strlen8}
use wboot.Stdlib.Printf.{Arg, wide}
use wboot.Efi.{
  EfiStatus, success, load_error, invalid_parameter, unsupported, bad_buffer_size, buffer_too_small,
  not_ready, device_error, write_protected, out_of_resources, volume_corrupted, volume_full,
  no_media, media_changed, not_found, access_denied, no_response, no_mapping, timeout, not_started,
  already_started, aborted, icmp_error, tftp_error, protocol_error, incompatible_version,
  security_violation, crc_error, end_of_media, end_of_file, invalid_language, compromised_data,
  ip_address_conflict, http_error, other_status, Ptr, Event, pool_allocated, pool_refused,
  pool_freed, printed, Events, Firmware,
}

-- `_bs_exited`, `_errno`, and the calls made so far, the newest first.
pub record Machine : Type 0 where
  pub bs_exited : Bool
  pub errno : EfiStatus
  pub events : Events

abbrev pub Io : Type 0 → Type 0
Io A = Machine → A × Machine

abbrev pub pure : {A : Type 0} → A → Io A
pure a m = (a, m)

infixl 5 ◌>>=◌ ◌>>◌
abbrev pub ◌>>=◌ : {A B : Type 0} → Io A → (A → Io B) → Io B
◌>>=◌ c f m = let (a, m') = c m in f a m'

abbrev pub ◌>>◌ : {B : Type 0} → Io (Unit {0}) → Io B → Io B
c >> d = c >>= λ _. d

abbrev pub emit : Event → Io (Unit {0})
emit e m = (tt, record m { events = e ∷ m.events })

abbrev pub set_errno : EfiStatus → Io (Unit {0})
set_errno status m = (tt, record m { errno = status })

-- The macro `errno`, read.
abbrev pub get_errno : Io EfiStatus
get_errno m = (m.errno, m)

-- A call of `printf`.
abbrev pub print : Text → List Arg → Io (Unit {0})
print format args = emit (printed format args)

unfoldable pub strerror : EfiStatus → Text
strerror success = codes "success"
strerror load_error = codes "load error"
strerror invalid_parameter = codes "invalid parameter"
strerror unsupported = codes "unsupported"
strerror bad_buffer_size = codes "bad buffer size"
strerror buffer_too_small = codes "buffer too small"
strerror not_ready = codes "not ready"
strerror device_error = codes "device error"
strerror write_protected = codes "write protected"
strerror out_of_resources = codes "out of resources"
strerror volume_corrupted = codes "volume corrupted"
strerror volume_full = codes "volume full"
strerror no_media = codes "no media"
strerror media_changed = codes "media changed"
strerror not_found = codes "not found"
strerror access_denied = codes "access denied"
strerror no_response = codes "no response"
strerror no_mapping = codes "no mapping"
strerror timeout = codes "timeout"
strerror not_started = codes "not started"
strerror already_started = codes "already started"
strerror aborted = codes "aborted"
strerror icmp_error = codes "ICMP error"
strerror tftp_error = codes "TFTP error"
strerror protocol_error = codes "protocol error"
strerror incompatible_version = codes "incompatible version"
strerror security_violation = codes "security violation"
strerror crc_error = codes "CRC error"
strerror end_of_media = codes "end of media"
strerror end_of_file = codes "end of file"
strerror invalid_language = codes "invalid language"
strerror compromised_data = codes "compromised data"
strerror ip_address_conflict = codes "IP address conflict"
strerror http_error = codes "HTTP error"
strerror (other_status n) = codes "unknown error"

unfoldable pub perror : Text → EfiStatus → Io (Unit {0})
unfolding strerror
perror message status = print (codes "%s: %s\r\n") (wide message ∷ wide (strerror status) ∷ [])

-- A text on the heap, with the pointer to it; NULL has no text.
pub record HeapText : Type 0 where
  pub ptr : Ptr
  pub text : Text

abbrev pub null_text : HeapText
null_text = record { ptr = 0; text = [] }

module _ (fw : Firmware) where
  -- NULL, and `errno`, where the pool has nothing to give.
  allocate : ℕ → EfiStatus × Ptr → Io Ptr
  allocate size (status, ptr) =
      if fw.efi_error status
      then (do emit (pool_refused size status); set_errno status; pure 0)
      else (do emit (pool_allocated size ptr); pure ptr)

  unfoldable pub malloc : ℕ → Io Ptr
  unfolding allocate
  malloc size m =
      if m.bs_exited
      then (do
        print (codes "    [wstdlib] BUG: malloc called after exiting boot services\r\n") []
        set_errno out_of_resources
        pure 0)
          m
      else allocate size (fw.allocate_pool m.events size) m

  release : Ptr → Io (Unit {0})
  release ptr m =
      let status = fw.free_pool m.events ptr in
      (do emit (pool_freed ptr status); set_errno status) m

  unfoldable pub free : Ptr → Io (Unit {0})
  unfolding release
  free ptr m =
      if m.bs_exited
      then print (codes "    [wstdlib] BUG: free called after exiting boot services\r\n") [] m
      else if not (ptr == 0)
      then release ptr m
      else (tt, m)

  -- A buffer of `size` bytes that then gets the text, or NULL.
  unfoldable pub duplicate : ℕ → Text → Io HeapText
  unfolding malloc
  duplicate size src = do
    dst ← malloc size
    if dst == 0 then pure null_text else pure (record { ptr = dst; text = src })

  unfoldable pub strdup8 : Text → Io HeapText
  unfolding duplicate strlen8
  strdup8 src = duplicate (strlen8 src + 1) src

  -- `calloc`, with the memory that it zeroes; the product of the sizes wraps.
  unfoldable pub calloc : ℕ → ℕ → Memory → Io (Ptr × Memory)
  calloc nmemb size memory = do
    let total_size = (nmemb * size) % u64_mod
    ptr ← malloc total_size
    pure (ptr, if ptr == 0 then memory else memset ptr 0 total_size memory)

-- `wstdlib_bs_exited`
unfoldable pub wstdlib_bs_exited : Io (Unit {0})
wstdlib_bs_exited m = (tt, record m { bs_exited = true })
