-- ===== src/Kernel/Headers.antt =====
-- The program headers that src/phase3/wboot.c reads from a kernel's ELF file.
use wboot.Prelude.{ℕ, zero, suc, ◌+◌, ◌*◌, ◌≡◌, ◌≤◌, ◌<◌, refl, ◌∙◌, arith}
use wboot.Stdlib.Memory.{Memory}
use wboot.Kernel.{read_word, ProgramHeader, program_header}

-- The memories have the same `n` bytes from `at` on.
abbrev pub SameBytes : ℕ → ℕ → Memory → Memory → Type 0
SameBytes at n m m' = (a : ℕ) → at ≤ a → a < at + n → m' a ≡ m a

-- An `Elf64_Phdr` with these fields stands at the address.
abbrev pub StandsAt : ℕ → ProgramHeader → Memory → Type 0
StandsAt at ph m =
    (read_word 4 at m ≡ ph.p_type)
    × (read_word 8 (at + 8) m ≡ ph.p_offset)
    × (read_word 8 (at + 24) m ≡ ph.p_paddr)
    × (read_word 8 (at + 32) m ≡ ph.p_filesz)
    × (read_word 8 (at + 40) m ≡ ph.p_memsz)

pub read_word-same :
    (n a : ℕ) (m m' : Memory) → SameBytes a n m m' → read_word n a m' ≡ read_word n a m
unfolding read_word
read_word-same zero a m m' h = refl
read_word-same (suc n) a m m' h =
    let first = h a (omega arith) (omega arith) in
    let rest = read_word-same n (a + 1) m m' (λ b le lt. h b (omega arith) (omega arith)) in
    rw (first, rest) refl

-- A word inside a range of bytes that are the same.
pub read_word-inside :
    (at size n a : ℕ) (m m' : Memory)
    → SameBytes at size m m'
    → at ≤ a
    → a + n ≤ at + size
    → read_word n a m' ≡ read_word n a m
read_word-inside at size n a m m' h below above =
    read_word-same n a m m' (λ b le lt. h b (omega arith) (omega arith))

pub StandsAt-same :
    (at : ℕ) (ph : ProgramHeader) (m m' : Memory)
    → SameBytes at 56 m m'
    → StandsAt at ph m
    → StandsAt at ph m'
StandsAt-same at ph m m' h (kind, offset, paddr, filesz, memsz) = (
  read_word-inside at 56 4 at m m' h (omega arith) (omega arith) ∙ kind,
  read_word-inside at 56 8 (at + 8) m m' h (omega arith) (omega arith) ∙ offset,
  read_word-inside at 56 8 (at + 24) m m' h (omega arith) (omega arith) ∙ paddr,
  read_word-inside at 56 8 (at + 32) m m' h (omega arith) (omega arith) ∙ filesz,
  read_word-inside at 56 8 (at + 40) m m' h (omega arith) (omega arith) ∙ memsz,
)

-- `phdrs[i]` has the fields of the header that stands there.
pub program_header_lem :
    (phdrs i : ℕ) (ph : ProgramHeader) (m : Memory)
    → StandsAt (phdrs + i * 56) ph m
    → program_header phdrs i m ≡ ph
program_header_lem phdrs i ph m (kind, offset, paddr, filesz, memsz) = λ j. record {
  p_type = kind j;
  p_offset = offset j;
  p_paddr = paddr j;
  p_filesz = filesz j;
  p_memsz = memsz j;
}
