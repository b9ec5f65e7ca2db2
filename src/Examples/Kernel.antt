-- ===== src/Examples/Kernel.antt =====
-- A kernel of one segment, as src/phase3/wboot.c loads it.
use wboot.Prelude.{ℕ, ◌+◌, ◌%◌, ◌≡◌, refl, arith, inl, inr, some, List, [], ◌∷◌, ◌++◌, codes}
use wboot.Stdlib.Memory.{Memory}
use wboot.Linux.BootParams.{zeros}
use wboot.Kernel.{ProgramHeader, read_word, load_segment, get_kernel_entry, e_entry}
use wboot.Kernel.Headers.{StandsAt}
use wboot.Kernel.Segments.{placed, load_segment-placed}
use wboot.Kernel.Loaded.{IsElf, image, get_kernel_entry-image}
use wboot.Main.{with_bytes}

-- The header with its entry at 1048577 and one program header, that header, and three bytes.
abbrev file : List ℕ
file =
    127 ∷ 69 ∷ 76 ∷ 70 ∷ zeros 20
    ++ 1 ∷ 0 ∷ 16 ∷ zeros 5
    ++ 64 ∷ zeros 23
    ++ 1 ∷ zeros 7
    ++ 1 ∷ zeros 7
    ++ 120 ∷ zeros 7
    ++ zeros 8
    ++ 0 ∷ 0 ∷ 16 ∷ zeros 5
    ++ 3 ∷ zeros 7
    ++ 5 ∷ zeros 15
    ++ codes "abc"

abbrev bytes : Memory
bytes = with_bytes 4096 file (λ a. a % 256)

abbrev segment : ProgramHeader
segment = record { p_type = 1; p_offset = 120; p_paddr = 1048576; p_filesz = 3; p_memsz = 5 }

segment_stands : StandsAt (4160 + 0) segment bytes
unfolding read_word
segment_stands = (refl, refl, refl, refl, refl)

file-IsElf : IsElf 4096 123 (segment ∷ []) bytes
unfolding read_word
file-IsElf = record {
  phoff = 64;
  ends = omega arith;
  ehdr_inside = omega arith;
  table_inside = omega arith;
  phoff_read = refl;
  phnum_read = refl;
  headers = (segment_stands, tt);
  apart = (inr (omega arith, omega arith, inl (omega arith)), tt);
}

load_segment-placed_example :
    load_segment 4096 4160 0 bytes 1048579 ≡ placed (4096 + 120) segment bytes 1048579
load_segment-placed_example =
    load_segment-placed 4096 4160 0 segment bytes 1048579 segment_stands (omega arith) (omega arith)
      (inl (omega arith))

get_kernel_entry-image_example :
    get_kernel_entry 4096 bytes
    ≡ some (read_word 8 (4096 + 24) bytes, image 4096 bytes (segment ∷ []) bytes)
get_kernel_entry-image_example = get_kernel_entry-image 4096 123 (segment ∷ []) bytes file-IsElf

entry_run : e_entry 4096 bytes ≡ 1048577
unfolding read_word
entry_run = refl

image_run : image 4096 bytes (segment ∷ []) bytes 1048578 ≡ b'c'
image_run = refl
