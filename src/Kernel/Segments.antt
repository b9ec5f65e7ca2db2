-- ===== src/Kernel/Segments.antt =====
-- Where `wboot_get_kernel_entry` of src/phase3/wboot.c puts the kernel's segments.
use native.Mathlib.Nat.{mod-eq_of_lt}
use wboot.Prelude.{
  ℕ, zero, suc, ◌+◌, ◌-◌, ◌*◌, ◌%◌, ◌≡◌, ◌≤◌, ◌<◌, ◌⊎◌, ◌∙◌, refl, ap, arith, Bool, true, false,
  Option, some, ltb, if◌then◌else◌,
}
use wboot.Prelude.Words.{u64_mod}
use wboot.Stdlib.Memory.{Memory, memmove}
use wboot.Stdlib.Memory.Laws.{in_range, memmove-copied, memset_lem}
use wboot.Kernel.Headers.{StandsAt, StandsAt-same}
use wboot.Kernel.{
  read_word, e_phnum, e_phoff, ProgramHeader, load_segment, load_if, load_segments, segment_fuel,
  return_entry, get_kernel_entry, e_entry,
}

-- The byte that an address has with a segment in place: the file's, 0 behind it, or what it was.
abbrev pub placed : ℕ → ProgramHeader → Memory → ℕ → ℕ
placed source ph m a =
    if in_range ph.p_paddr ph.p_filesz a
    then m (source + (a - ph.p_paddr))
    else if in_range ph.p_paddr ph.p_memsz a
    then 0
    else m a

-- A loaded segment's bytes of the file are at its physical address as they were before the copy,
-- the rest of its memory is zeroed, and nothing else changes. The segment ends below 2^64, in the
-- file and in memory, and its bytes are not put over its own program header, whose fields are those
-- that stand in `phdrs[i]`.
pub load_segment-placed :
    (kernel phdrs i : ℕ) (ph : ProgramHeader) (m : Memory) (a : ℕ)
    → StandsAt (phdrs + i * 56) ph m
    → kernel + ph.p_offset < u64_mod
    → ph.p_paddr + ph.p_filesz < u64_mod
    → (phdrs + i * 56 + 56 ≤ ph.p_paddr) ⊎ (ph.p_paddr + ph.p_filesz ≤ phdrs + i * 56)
    → load_segment kernel phdrs i m a ≡ placed (kernel + ph.p_offset) ph m a
unfolding load_segment
load_segment-placed kernel phdrs i ph m a stands h k apart =
    let copied = memmove ph.p_paddr (kernel + ph.p_offset) ph.p_filesz m in
    let still =
      StandsAt-same (phdrs + i * 56) ph m copied
        (λ b le lt.
          memmove-copied ph.p_paddr (kernel + ph.p_offset) ph.p_filesz m b
          ∙ ground (arith, apart, le, lt))
        stands in
    let (kind, offset, paddr, filesz, memsz) = stands in
    let (kind', offset', paddr', filesz', memsz') = still in
    rw (offset, paddr, filesz, mod-eq_of_lt h, filesz', memsz', mod-eq_of_lt k)
      (ground (
        arith,
        memset_lem (ph.p_paddr + ph.p_filesz) 0 (ph.p_memsz - ph.p_filesz) copied a,
        memmove-copied ph.p_paddr (kernel + ph.p_offset) ph.p_filesz m a,
      ))

pub e_phnum-bound : (ehdr : ℕ) (m : Memory) → e_phnum ehdr m < segment_fuel
unfolding read_word
e_phnum-bound ehdr m = omega arith

some-if :
    (b : Bool) (x : Option Memory) (m : Memory)
    → (b ≡ true → (m' : Memory) × (x ≡ some m'))
    → (m' : Memory) × ((if b then x else some m) ≡ some m')
some-if true x m h = h refl
some-if false x m h = (m, refl)

load_segments-some :
    (fuel kernel phdrs i : ℕ) (m : Memory)
    → segment_fuel ≤ fuel + i
    → 0 < fuel
    → (m' : Memory) × (load_segments fuel kernel phdrs i m ≡ some m')
unfolding load_segments
load_segments-some zero kernel phdrs i m h k = absurd (omega arith)
load_segments-some (suc fuel) kernel phdrs i m h k = some-if (ltb i (e_phnum kernel m)) _ m λ below.
    load_segments-some fuel kernel phdrs (i + 1) (load_if kernel phdrs i m) (omega arith)
      (ground (arith, below, e_phnum-bound kernel m))

-- `wboot_get_kernel_entry` always returns, whatever its copies do to the headers that it reads, and
-- what it returns is the entry of the header as it is in memory by then.
pub get_kernel_entry-e_entry :
    (kernel : ℕ) (m : Memory)
    → (m' : Memory) × (get_kernel_entry kernel m ≡ some (e_entry kernel m', m'))
unfolding get_kernel_entry return_entry
get_kernel_entry-e_entry kernel m =
    let (m', eq) =
      load_segments-some segment_fuel kernel ((kernel + e_phoff kernel m) % u64_mod) 0 m
        (omega arith) (omega arith) in
    (m', ap (return_entry kernel) eq)
