-- ===== src/Linux/Layout.antt =====
-- The layout of `setup_header_t` of src/shared/linux.h, as the bytes that a header stands for.
use mathlib.Core.List.{map}
use wboot.Prelude.{
  ℕ, zero, suc, ◌+◌, ◌/◌, ◌%◌, ◌≡◌, ◌≤◌, refl, ap, ◌*◌, arith, List, [], ◌∷◌, ◌++◌, length, take,
  drop,
}
use wboot.Linux.{SetupHeader, little_endian, number_at, header_of}

-- The `w` bytes of a little-endian number.
unfoldable pub encode : ℕ → ℕ → List ℕ
encode zero n = []
encode (suc w) n = n % 256 ∷ encode w (n / 256)

unfoldable pub as_bytes : List ℕ → List ℕ
as_bytes = map (λ b. b % 256)

abbrev packed : List (List ℕ) → List ℕ
packed [] = []
packed (x ∷ xs) = x ++ packed xs

-- The packed fields in their order.
abbrev pub header_bytes : SetupHeader → List ℕ
header_bytes h = packed (
    encode 1 h.setup_sects
    ∷ encode 2 h.root_flags
    ∷ encode 4 h.syssize
    ∷ encode 2 h.ram_size
    ∷ encode 2 h.vid_mode
    ∷ encode 2 h.root_dev
    ∷ encode 2 h.boot_flag
    ∷ encode 2 h.jump
    ∷ as_bytes h.header
    ∷ encode 2 h.version
    ∷ encode 4 h.realmode_swtch
    ∷ encode 2 h.start_sys_seg
    ∷ encode 2 h.kernel_version
    ∷ encode 1 h.type_of_loader
    ∷ encode 1 h.loadflags
    ∷ encode 2 h.setup_move_size
    ∷ encode 4 h.code32_start
    ∷ encode 4 h.ramdisk_image
    ∷ encode 4 h.ramdisk_size
    ∷ encode 4 h.bootsect_kludge
    ∷ encode 2 h.heap_end_ptr
    ∷ encode 1 h.ext_loader_ver
    ∷ encode 1 h.ext_loader_type
    ∷ encode 4 h.cmd_line_ptr
    ∷ encode 4 h.initrd_addr_max
    ∷ encode 4 h.kernel_alignment
    ∷ encode 1 h.relocatable_kernel
    ∷ encode 1 h.min_alignment
    ∷ encode 2 h.xloadflags
    ∷ encode 4 h.cmdline_size
    ∷ encode 4 h.hardware_subarch
    ∷ encode 8 h.hardware_subarch_data
    ∷ encode 4 h.payload_offset
    ∷ encode 4 h.payload_length
    ∷ encode 8 h.setup_data
    ∷ encode 8 h.pref_address
    ∷ encode 4 h.init_size
    ∷ encode 4 h.handover_offset
    ∷ encode 4 h.kernel_info_offset
    ∷ [])

encode-little_endian :
    (w : ℕ) (xs : List ℕ)
    → w ≤ length xs
    → encode w (little_endian (take w xs)) ≡ as_bytes (take w xs)
unfolding encode as_bytes
encode-little_endian zero xs h = refl
encode-little_endian (suc w) [] h = absurd (omega arith)
encode-little_endian (suc w) (x ∷ xs) h =
    let rest = encode-little_endian w xs (omega arith) in
    let low : (x % 256 + 256 * little_endian (take w xs)) % 256 ≡ x % 256 = omega arith in
    let high : (x % 256 + 256 * little_endian (take w xs)) / 256 ≡ little_endian (take w xs) =
      omega arith in
    rw (low, high, rest) refl

length-drop_le : (k n : ℕ) (xs : List ℕ) → k + n ≤ length xs → n ≤ length (drop k xs)
length-drop_le zero n xs h = omega arith
length-drop_le (suc k) n [] h = absurd (omega arith)
length-drop_le (suc k) n (x ∷ xs) h = length-drop_le k n xs (omega arith)

take-drop : (w : ℕ) (xs : List ℕ) → as_bytes (take w xs) ++ as_bytes (drop w xs) ≡ as_bytes xs
unfolding as_bytes
take-drop zero xs = refl
take-drop (suc w) [] = refl
take-drop (suc w) (x ∷ xs) = ap (λ (l : List ℕ). x % 256 ∷ l) (take-drop w xs)

take_nil : (w : ℕ) → take {A = ℕ} w [] ≡ []
take_nil zero = refl
take_nil (suc w) = refl

as_bytes-split :
    (k w : ℕ) (xs : List ℕ)
    → as_bytes (take w (drop k xs)) ++ as_bytes (drop (k + w) xs) ≡ as_bytes (drop k xs)
unfolding as_bytes
as_bytes-split zero w xs = let z : zero + w ≡ w = omega arith in rw z (take-drop w xs)
as_bytes-split (suc k) w [] =
    let z : suc k + w ≡ suc (k + w) = omega arith in rw (z, take_nil w) refl
as_bytes-split (suc k) w (x ∷ xs) =
    let z : suc k + w ≡ suc (k + w) = omega arith in rw z (as_bytes-split k w xs)

-- A field, in front of the bytes behind it.
field :
    (k w : ℕ) (bytes rest : List ℕ)
    → k + w ≤ length bytes
    → rest ≡ as_bytes (drop (k + w) bytes)
    → encode w (number_at k w bytes) ++ rest ≡ as_bytes (drop k bytes)
unfolding number_at
field k w bytes rest h e =
    rw (encode-little_endian w (drop k bytes) (length-drop_le k w bytes h), e)
      (as_bytes-split k w bytes)

-- Bytes as they are, in front of those behind them.
raw :
    (k w : ℕ) (bytes rest : List ℕ)
    → rest ≡ as_bytes (drop (k + w) bytes)
    → as_bytes (take w (drop k bytes)) ++ rest ≡ as_bytes (drop k bytes)
raw k w bytes rest e = rw e (as_bytes-split k w bytes)

drop_all : (n : ℕ) (xs : List ℕ) → length xs ≤ n → drop n xs ≡ []
drop_all zero [] h = refl
drop_all zero (x ∷ xs) h = absurd (omega arith)
drop_all (suc n) [] h = refl
drop_all (suc n) (x ∷ xs) h = drop_all n xs (omega arith)

behind : (bytes : List ℕ) → length bytes ≡ 123 → [] ≡ as_bytes (drop 123 bytes)
unfolding as_bytes
behind bytes whole = rw (drop_all 123 bytes (omega arith)) refl

-- The fields of a header that is read fill the bytes of the read, each in its place.
pub header_bytes-header_of :
    (bytes : List ℕ) → length bytes ≡ 123 → header_bytes (header_of bytes) ≡ as_bytes bytes
unfolding header_of
header_bytes-header_of bytes whole = field 0 1 bytes _ (omega arith) (
    field 1 2 bytes _ (omega arith) (
      field 3 4 bytes _ (omega arith) (
        field 7 2 bytes _ (omega arith) (
          field 9 2 bytes _ (omega arith) (
            field 11 2 bytes _ (omega arith) (
              field 13 2 bytes _ (omega arith) (
                field 15 2 bytes _ (omega arith) (
                  raw 17 4 bytes _ (
                    field 21 2 bytes _ (omega arith) (
                      field 23 4 bytes _ (omega arith) (
                        field 27 2 bytes _ (omega arith) (
                          field 29 2 bytes _ (omega arith) (
                            field 31 1 bytes _ (omega arith) (
                              field 32 1 bytes _ (omega arith) (
                                field 33 2 bytes _ (omega arith) (
                                  field 35 4 bytes _ (omega arith) (
                                    field 39 4 bytes _ (omega arith) (
                                      field 43 4 bytes _ (omega arith) (
                                        field 47 4 bytes _ (omega arith) (
                                          field 51 2 bytes _ (omega arith) (
                                            field 53 1 bytes _ (omega arith) (
                                              field 54 1 bytes _ (omega arith) (
                                                field 55 4 bytes _ (omega arith) (
                                                  field 59 4 bytes _ (omega arith) (
                                                    field 63 4 bytes _ (omega arith) (
                                                      field 67 1 bytes _ (omega arith) (
                                                        field 68 1 bytes _ (omega arith) (
                                                          field 69 2 bytes _ (omega arith) (
                                                            field 71 4 bytes _ (omega arith) (
                                                            field 75 4 bytes _ (omega arith) (
                                                            field 79 8 bytes _ (omega arith) (
                                                            field 87 4 bytes _ (omega arith) (
                                                            field 91 4 bytes _ (omega arith) (
                                                            field 95 8 bytes _ (omega arith) (
                                                            field 103 8 bytes _ (omega arith) (
                                                            field 111 4 bytes _ (omega arith) (
                                                            field 115 4 bytes _ (omega arith) (
                                                            field 119 4 bytes _ (omega arith) (
                                                            behind bytes
                                                            whole)))))))))))))))))))))))))))))))))))))))
