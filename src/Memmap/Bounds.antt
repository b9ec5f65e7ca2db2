-- ===== src/Memmap/Bounds.antt =====
-- How much `wboot_translate_memmap` of src/phase3/wboot.c writes to its two tables.
use wboot.Prelude.{
  ℕ, suc, ◌+◌, ◌-◌, ◌*◌, ◌≡◌, ◌≤◌, ◌<◌, ◌⊎◌, arith, Bool, true, false, Option, none, some, List, [],
  ◌∷◌, if◌then◌else◌, length,
}
use wboot.Prelude.Words.{u32_mod}
use native.Mathlib.Nat.{mod-eq_of_lt}
use wboot.Memmap.{
  MemoryDescriptor, E820Entry, E820Type, E820Map, joins, grow, has_room, write_entry,
  merge_or_write, add_typed, add_descriptor, translate, max_entries, entry_size, e820_type_of,
  entry_of,
}

-- The bytes of the extended table behind a header; NULL has none.
abbrev pub capacity : ℕ → Option ℕ → ℕ
capacity setup_header_size none = 0
capacity setup_header_size (some size) = size - setup_header_size

has_room-capacity :
    (setup_header_size : ℕ) (e820ext_size : Option ℕ) (remaining : ℕ)
    → remaining * entry_size + setup_header_size < u32_mod
    → has_room setup_header_size e820ext_size remaining ≡ true
    → remaining * entry_size ≤ capacity setup_header_size e820ext_size
unfolding has_room
has_room-capacity setup_header_size none remaining h k = ground arith
has_room-capacity setup_header_size (some size) remaining h k =
    let fits = mod-eq_of_lt h in ground arith

module _ (setup_header_size : ℕ) (e820ext_size : Option ℕ) where
  -- With `remaining` descriptors to go, all of them still fit behind what is written.
  pub record Within (remaining : ℕ) (t : E820Map) : Type 0 where
    pub table_fits : length t.table ≤ max_entries
    pub ext_fits :
        (length t.ext ≡ 0)
        ⊎ ((length t.table ≡ max_entries)
            × ((length t.ext + remaining) * entry_size ≤ capacity setup_header_size e820ext_size))

  Within-true : (remaining : ℕ) (t : E820Map) → Within (suc remaining) t → Within remaining t
  Within-true remaining t w = record {
    table_fits = w.table_fits;
    ext_fits = ground (arith, w.ext_fits);
  }

  Within-zero : (remaining : ℕ) (t : E820Map) → Within remaining t → Within 0 t
  Within-zero remaining t w = record {
    table_fits = w.table_fits;
    ext_fits = ground (arith, w.ext_fits);
  }

  Within-if :
      {remaining : ℕ} (b : Bool) (x y : Bool × E820Map)
      → Within remaining x.1
      → Within remaining y.1
      → Within remaining (if b then x else y).1
  Within-if true x y h k = h
  Within-if false x y h k = k

  write_entry-Within :
      (remaining : ℕ) (e : E820Entry) (t : E820Map)
      → suc remaining * entry_size + setup_header_size < u32_mod
      → Within (suc remaining) t
      → Within remaining (write_entry setup_header_size e820ext_size (suc remaining) e t).1
  unfolding write_entry
  write_entry-Within remaining e t h w =
      let room = has_room-capacity setup_header_size e820ext_size (suc remaining) h in
      record {
        table_fits = ground (arith, w.table_fits, w.ext_fits);
        ext_fits = ground (arith, w.table_fits, w.ext_fits, room);
      }

  merge_or_write-Within :
      (remaining : ℕ) (e : E820Entry) (table ext : List E820Entry)
      → suc remaining * entry_size + setup_header_size < u32_mod
      → Within (suc remaining) (record { table = table; ext = ext })
      → Within remaining
          (merge_or_write setup_header_size e820ext_size (suc remaining) e table ext).1
  unfolding merge_or_write
  merge_or_write-Within remaining e [] [] h w =
      write_entry-Within remaining e (record { table = []; ext = [] }) h w
  merge_or_write-Within remaining e (prev ∷ table) [] h w =
      Within-if (joins prev e) _ _
        (Within-true remaining (record { table = grow prev e ∷ table; ext = [] })
          (record { table_fits = w.table_fits; ext_fits = w.ext_fits }))
        (write_entry-Within remaining e (record { table = prev ∷ table; ext = [] }) h w)
  merge_or_write-Within remaining e table (prev ∷ ext) h w =
      Within-if (joins prev e) _ _
        (Within-true remaining (record { table = table; ext = grow prev e ∷ ext })
          (record { table_fits = w.table_fits; ext_fits = w.ext_fits }))
        (write_entry-Within remaining e (record { table = table; ext = prev ∷ ext }) h w)

  add_typed-Within :
      (remaining : ℕ) (d : MemoryDescriptor) (t : E820Map) (k : Option E820Type)
      → suc remaining * entry_size + setup_header_size < u32_mod
      → Within (suc remaining) t
      → Within remaining (add_typed setup_header_size e820ext_size (suc remaining) d t k).1
  unfolding add_typed
  add_typed-Within remaining d t none h w = Within-true remaining t w
  add_typed-Within remaining d t (some k) h w =
      merge_or_write-Within remaining (entry_of k d) t.table t.ext h w

  -- The table of the boot parameters gets at most 128 entries, and the extended one, behind the
  -- size of a header, at most the bytes that the caller gave, whether the translation succeeds or
  -- not. The map is one whose `need` does not wrap in 32 bits.
  pub translate-Within :
      (descs : List MemoryDescriptor) (t : E820Map)
      → length descs * entry_size + setup_header_size < u32_mod
      → Within (length descs) t
      → Within 0 (translate setup_header_size e820ext_size descs t).1
  unfolding translate add_descriptor
  translate-Within [] t h w = w
  translate-Within (d ∷ descs) t h w =
      let added = add_typed-Within (length descs) d t (e820_type_of d.kind) h w in
      let t' = (add_descriptor setup_header_size e820ext_size (length (d ∷ descs)) d t).1 in
      Within-if (add_descriptor setup_header_size e820ext_size (length (d ∷ descs)) d t).0 _ _
        (translate-Within descs t' (omega arith) added) (Within-zero (length descs) t' added)
