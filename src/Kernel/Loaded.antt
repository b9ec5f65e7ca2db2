-- ===== src/Kernel/Loaded.antt =====
-- What `wboot_get_kernel_entry` of src/phase3/wboot.c makes of a kernel whose segments go to other
-- places than its file.
use native.Mathlib.Nat.{mod-eq_of_lt}
use wboot.Prelude.{
  ℕ, zero, suc, ◌+◌, ◌-◌, ◌*◌, ◌%◌, ◌≡◌, ◌≢◌, ◌≤◌, ◌<◌, ◌⊎◌, inl, inr, refl, ap, ◌∙◌, arith, Bool,
  true, false, Bool-cases, List, [], ◌∷◌, length, All, some, ltb, ◌==◌, if◌then◌else◌,
}
use wboot.Prelude.Words.{u64_mod}
use wboot.Stdlib.Memory.{Memory}
use wboot.Stdlib.Memory.Laws.{in_range}
use wboot.Kernel.{
  read_word, e_phnum, ProgramHeader, load_if, load_segments, segment_fuel, return_entry,
  get_kernel_entry,
}
use wboot.Kernel.Headers.{SameBytes, StandsAt, StandsAt-same, read_word-inside}
use wboot.Kernel.Segments.{placed, load_segment-placed, e_phnum-bound}

-- A segment of type PT_LOAD over a memory, with the bytes of the file as they are in `m`.
abbrev pub over : ℕ → Memory → ProgramHeader → Memory → Memory
over kernel m ph cur a =
    if ph.p_type == 1
    then if in_range ph.p_paddr ph.p_filesz a
      then m (kernel + ph.p_offset + (a - ph.p_paddr))
      else if in_range ph.p_paddr ph.p_memsz a
      then 0
      else cur a
    else cur a

-- The segments in their order over a memory.
abbrev pub image : ℕ → Memory → List ProgramHeader → Memory → Memory
image kernel m [] cur = cur
image kernel m (ph ∷ phs) cur = image kernel m phs (over kernel m ph cur)

-- A segment of another type, or one inside the file of `size` bytes that goes to another place.
abbrev pub IsApart : ℕ → ℕ → ProgramHeader → Type 0
IsApart kernel size ph =
    (ph.p_type ≢ 1)
    ⊎ ((ph.p_offset + ph.p_filesz ≤ size)
        × (ph.p_paddr + ph.p_filesz < u64_mod)
        × ((kernel + size ≤ ph.p_paddr)
            ⊎ ((ph.p_paddr + ph.p_filesz ≤ kernel) × (ph.p_paddr + ph.p_memsz ≤ kernel))))

abbrev pub HaveHeaders : ℕ → ℕ → List ProgramHeader → Memory → Type 0
HaveHeaders phdrs i [] m = Unit
HaveHeaders phdrs i (ph ∷ phs) m = StandsAt (phdrs + i * 56) ph m × HaveHeaders phdrs (i + 1) phs m

-- An ELF file of `size` bytes stands at `kernel`: its header says where the program headers are
-- and how many, they are those of the list, and the segments go to other places.
pub record IsElf (kernel size : ℕ) (phs : List ProgramHeader) (m : Memory) : Type 0 where
  pub phoff : ℕ
  pub ends : kernel + size < u64_mod
  pub ehdr_inside : 64 ≤ size
  pub table_inside : phoff + length phs * 56 ≤ size
  pub phoff_read : read_word 8 (kernel + 32) m ≡ phoff
  pub phnum_read : read_word 2 (kernel + 56) m ≡ length phs
  pub headers : HaveHeaders (kernel + phoff) 0 phs m
  pub apart : All (IsApart kernel size) phs

if_true : {A : Type 0} (b : Bool) (x y : A) → b ≡ true → (if b then x else y) ≡ x
if_true true x y e = refl
if_true false x y e = absurd (cc)

if_false : {A : Type 0} (b : Bool) (x y : A) → b ≡ false → (if b then x else y) ≡ y
if_false false x y e = refl
if_false true x y e = absurd (cc)

module _ (kernel size : ℕ) (m : Memory) (ends : kernel + size < u64_mod) where
  over-SameBytes :
      (ph : ProgramHeader) (cur : Memory)
      → IsApart kernel size ph
      → SameBytes kernel size m cur
      → SameBytes kernel size m (over kernel m ph cur)
  over-SameBytes ph cur (inl other) same b le lt = ground (arith, other, same b le lt)
  over-SameBytes ph cur (inr (inside, small, apart)) same b le lt =
      ground (arith, apart, same b le lt)

  -- A byte of a placed segment is the one that the file has.
  placed-over :
      (ph : ProgramHeader) (cur : Memory) (a : ℕ)
      → ph.p_offset + ph.p_filesz ≤ size
      → SameBytes kernel size m cur
      → ph.p_type == 1 ≡ true
      → placed (kernel + ph.p_offset) ph cur a ≡ over kernel m ph cur a
  placed-over ph cur a inside same load = elim (Bool-cases (in_range ph.p_paddr ph.p_filesz a)) [
    | inl e ↦
        rw (load, e)
          (same (kernel + ph.p_offset + (a - ph.p_paddr)) (omega arith) (ground (arith, e)))
    | inr e ↦ rw (load, e) refl
  ]

  load_if-over :
      (phdrs i : ℕ) (ph : ProgramHeader) (cur : Memory)
      → kernel ≤ phdrs
      → phdrs + (i + 1) * 56 ≤ kernel + size
      → StandsAt (phdrs + i * 56) ph cur
      → SameBytes kernel size m cur
      → IsApart kernel size ph
      → (a : ℕ) → load_if kernel phdrs i cur a ≡ over kernel m ph cur a
  unfolding load_if
  load_if-over phdrs i ph cur below above stands same apart a =
      rw stands.0 (elim (Bool-cases (ph.p_type == 1)) [
        | inr other ↦ rw other refl
        | inl load ↦ elim apart [
          | inl not_load ↦ absurd (ground (arith, load, not_load))
          | inr (inside, small, away) ↦ rw load (
              load_segment-placed kernel phdrs i ph cur a stands (omega arith) small
                (ground (arith, away))
              ∙ placed-over ph cur a inside same load
              ∙ rw load refl)
        ]
      ])

  load_segments-image :
      (fuel phdrs i : ℕ) (phs : List ProgramHeader) (cur : Memory)
      → kernel ≤ phdrs
      → phdrs + (i + length phs) * 56 ≤ kernel + size
      → length phs < fuel
      → read_word 2 (kernel + 56) m ≡ i + length phs
      → 64 ≤ size
      → HaveHeaders phdrs i phs m
      → All (IsApart kernel size) phs
      → SameBytes kernel size m cur
      → (load_segments fuel kernel phdrs i cur ≡ some (image kernel m phs cur))
        × SameBytes kernel size m (image kernel m phs cur)
  unfolding load_segments
  load_segments-image zero phdrs i phs cur below above lt count whole stand apart same =
      absurd (omega arith)
  load_segments-image (suc fuel) phdrs i [] cur below above lt count whole stand apart same =
      let count' =
        read_word-inside kernel size 2 (kernel + 56) m cur same (omega arith) (omega arith)
        ∙ count in
      (if_false (ltb i (e_phnum kernel cur)) _ (some cur) (ground (arith, count')), same)
  load_segments-image (suc fuel) phdrs i (ph ∷ phs) cur below above lt count whole (stands, stand)
        (one_apart, apart) same =
      let count' =
        read_word-inside kernel size 2 (kernel + 56) m cur same (omega arith) (omega arith)
        ∙ count in
      let stands' =
        StandsAt-same (phdrs + i * 56) ph m cur (λ b le lt. same b (omega arith) (omega arith))
          stands in
      let step : load_if kernel phdrs i cur ≡ over kernel m ph cur =
        λ j a. load_if-over phdrs i ph cur below (omega arith) stands' same one_apart a j in
      let rest =
        load_segments-image fuel phdrs (i + 1) phs (over kernel m ph cur) below (omega arith)
          (omega arith) (omega arith) whole stand apart (over-SameBytes ph cur one_apart same) in
      (
        if_true (ltb i (e_phnum kernel cur)) _ (some cur) (ground (arith, count'))
            ∙ ap (load_segments fuel kernel phdrs (i + 1)) step
            ∙ rest.0,
        rest.1,
      )

-- For an ELF file whose segments lie inside it and go to places outside of it, below 2^64,
-- `wboot_get_kernel_entry` returns the entry at offset 24 of its header, and leaves the memory with
-- each PT_LOAD segment at its physical address, in the order of the program headers: the bytes of
-- the file, zeros up to its size in memory, and nothing else changed.
pub get_kernel_entry-image :
    (kernel size : ℕ) (phs : List ProgramHeader) (m : Memory)
    → IsElf kernel size phs m
    → get_kernel_entry kernel m ≡ some (read_word 8 (kernel + 24) m, image kernel m phs m)
unfolding get_kernel_entry return_entry
get_kernel_entry-image kernel size phs m elf =
    let start = elf.phoff_read in
    let table : (kernel + read_word 8 (kernel + 32) m) % u64_mod ≡ kernel + elf.phoff =
      rw start (mod-eq_of_lt (omega (arith, elf.ends, elf.ehdr_inside, elf.table_inside))) in
    let few = e_phnum-bound kernel m in
    let loaded =
      load_segments-image kernel size m elf.ends segment_fuel (kernel + elf.phoff) 0 phs m
        (omega arith) (omega (arith, elf.table_inside)) (omega (arith, few, elf.phnum_read))
        (omega (arith, elf.phnum_read)) elf.ehdr_inside elf.headers elf.apart (λ a le lt. refl) in
    let entry =
      read_word-inside kernel size 8 (kernel + 24) m (image kernel m phs m) loaded.1 (omega arith)
        (omega (arith, elf.ehdr_inside)) in
    rw (table, loaded.0, entry) refl
