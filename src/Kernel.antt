-- ===== src/Kernel.antt =====
-- `wboot_get_kernel_entry` of src/phase3/wboot.c: the segments of the kernel's ELF file (the
-- headers of src/shared/elf.h) are copied to their physical addresses.
pub mod Headers
pub mod Loaded
pub mod Segments
use wboot.Prelude.{
  ℕ, zero, suc, ◌+◌, ◌-◌, ◌*◌, ◌%◌, Bool, true, false, Option, none, some, ltb, ◌==◌, if◌then◌else◌,
}
use wboot.Prelude.Words.{u64_mod}
use wboot.Stdlib.Memory.{Memory, memmove, memset}

-- A little-endian number of `n` bytes.
unfoldable pub read_word : ℕ → ℕ → Memory → ℕ
read_word zero a m = 0
read_word (suc n) a m = m a % 256 + 256 * read_word n (a + 1) m

-- The fields of `Elf64_Ehdr` at `ehdr` that are read.
abbrev pub e_entry : ℕ → Memory → ℕ
e_entry ehdr = read_word 8 (ehdr + 24)

abbrev pub e_phoff : ℕ → Memory → ℕ
e_phoff ehdr = read_word 8 (ehdr + 32)

abbrev pub e_phnum : ℕ → Memory → ℕ
e_phnum ehdr = read_word 2 (ehdr + 56)

-- The fields of an `Elf64_Phdr` that are read.
pub record ProgramHeader : Type 0 where
  pub p_type : ℕ
  pub p_offset : ℕ
  pub p_paddr : ℕ
  pub p_filesz : ℕ
  pub p_memsz : ℕ

-- `phdrs[i]`; the size of an `Elf64_Phdr` is 56.
abbrev pub program_header : ℕ → ℕ → Memory → ProgramHeader
program_header phdrs i m =
    let at = phdrs + i * 56 in
    record {
      p_type = read_word 4 at m;
      p_offset = read_word 8 (at + 8) m;
      p_paddr = read_word 8 (at + 24) m;
      p_filesz = read_word 8 (at + 32) m;
      p_memsz = read_word 8 (at + 40) m;
    }

-- The body of the loop for a segment of type PT_LOAD: `p_filesz` and `p_memsz` are read again
-- behind the copy, which may have written to the header.
unfoldable pub load_segment : ℕ → ℕ → ℕ → Memory → Memory
load_segment kernel phdrs i m =
    let ph = program_header phdrs i m in
    let copied = memmove ph.p_paddr ((kernel + ph.p_offset) % u64_mod) ph.p_filesz m in
    let now = program_header phdrs i copied in
    if ltb now.p_filesz now.p_memsz
    then memset ((ph.p_paddr + now.p_filesz) % u64_mod) 0 (now.p_memsz - now.p_filesz) copied
    else copied

unfoldable pub load_if : ℕ → ℕ → ℕ → Memory → Memory
load_if kernel phdrs i m =
    if (program_header phdrs i m).p_type == 1 then load_segment kernel phdrs i m else m

-- The loop. The headers are read in each round, from the memory as it is by then; `none` means
-- that the fuel ran out.
unfoldable pub load_segments : ℕ → ℕ → ℕ → ℕ → Memory → Option Memory
load_segments zero kernel phdrs i m = none
load_segments (suc fuel) kernel phdrs i m =
    let rest = load_segments fuel kernel phdrs (i + 1) (load_if kernel phdrs i m) in
    if ltb i (e_phnum kernel m) then rest else some m

-- More rounds than any `e_phnum` of 16 bits.
abbrev pub segment_fuel : ℕ
segment_fuel = 65536

-- `return (void *)ehdr->e_entry`, read behind the loop.
unfoldable pub return_entry : ℕ → Option Memory → Option (ℕ × Memory)
return_entry kernel none = none
return_entry kernel (some m) = some (e_entry kernel m, m)

-- The entry, and the memory with the kernel in place.
unfoldable pub get_kernel_entry : ℕ → Memory → Option (ℕ × Memory)
get_kernel_entry kernel m =
    return_entry kernel
      (load_segments segment_fuel kernel ((kernel + e_phoff kernel m) % u64_mod) 0 m)
