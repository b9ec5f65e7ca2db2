-- ===== src/Memmap/Enough.antt =====
-- When `wboot_translate_memmap` of src/phase3/wboot.c has room for the map that it is given.
use wboot.Prelude.{
  ℕ, suc, ◌+◌, ◌≡◌, ◌≤◌, refl, arith, Bool, true, false, Option, none, some, List, [], ◌∷◌, ◌==◌,
  Bool-cases, inl, inr, if◌then◌else◌, length,
}
use wboot.Memmap.{
  MemoryDescriptor, E820Type, E820Entry, E820Map, nr_entries, max_entries, joins, has_room,
  write_entry, merge_or_write, add_typed, add_descriptor, translate, e820_type_of, entry_of,
}

module _ (setup_header_size : ℕ) (given : Option ℕ) where
  -- A step that goes well and adds at most one entry to `n`.
  record Step (n : ℕ) (x : Bool × E820Map) : Type 0 where
    went : x.0 ≡ true
    count : nr_entries x.1 ≤ suc n

  module _ (total : ℕ)
      (room : (k : ℕ)
        → max_entries + suc k ≤ total
        → has_room setup_header_size given (suc k) ≡ true) where
    write_entry-Step :
        (k : ℕ) (e : E820Entry) (t : E820Map)
        → nr_entries t + suc k ≤ total
        → Step (nr_entries t) (write_entry setup_header_size given (suc k) e t)
    unfolding write_entry
    write_entry-Step k e t h = elim (Bool-cases (nr_entries t == max_entries)) [
      | inl e ↦
          let r = room k (ground (arith, e, h)) in
          record { went = ground (arith, r); count = ground (arith, r) }
      | inr e ↦ record { went = ground (arith, e); count = ground (arith, e) }
    ]

    Step-if :
        {n : ℕ} (b : Bool) (x y : Bool × E820Map)
        → Step n x
        → Step n y
        → Step n (if b then x else y)
    Step-if true x y h k = h
    Step-if false x y h k = k

    merge_or_write-Step :
        (k : ℕ) (e : E820Entry) (table ext : List E820Entry)
        → length table + length ext + suc k ≤ total
        → Step
            (length table + length ext)
            (merge_or_write setup_header_size given (suc k) e table ext)
    unfolding merge_or_write
    merge_or_write-Step k e [] [] h = write_entry-Step k e (record { table = []; ext = [] }) h
    merge_or_write-Step k e (prev ∷ table) [] h =
        Step-if (joins prev e) _ _ (record { went = refl; count = omega arith })
          (write_entry-Step k e (record { table = prev ∷ table; ext = [] }) h)
    merge_or_write-Step k e table (prev ∷ ext) h =
        Step-if (joins prev e) _ _ (record { went = refl; count = omega arith })
          (write_entry-Step k e (record { table = table; ext = prev ∷ ext }) h)

    add_typed-Step :
        (k : ℕ) (d : MemoryDescriptor) (t : E820Map) (type : Option E820Type)
        → nr_entries t + suc k ≤ total
        → Step (nr_entries t) (add_typed setup_header_size given (suc k) d t type)
    unfolding add_typed
    add_typed-Step k d t none h = record { went = refl; count = omega arith }
    add_typed-Step k d t (some type) h = merge_or_write-Step k (entry_of type d) t.table t.ext h

    -- Where the extended table takes an entry for each descriptor behind the first 128, the buffer is
    -- never refused.
    pub translate_room :
        (descs : List MemoryDescriptor) (t : E820Map)
        → nr_entries t + length descs ≤ total
        → (translate setup_header_size given descs t).0 ≡ true
    unfolding translate add_descriptor
    translate_room [] t h = refl
    translate_room (d ∷ descs) t h =
        let step = add_typed-Step (length descs) d t (e820_type_of d.kind) h in
        let x = add_descriptor setup_header_size given (length (d ∷ descs)) d t in
        let count = step.count in rw step.went (translate_room descs x.1 (omega (arith, count, h)))
