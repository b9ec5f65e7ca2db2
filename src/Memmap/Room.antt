-- ===== src/Memmap/Room.antt =====
-- When `wboot_translate_memmap` of src/phase3/wboot.c has room for all entries.
use wboot.Prelude.{
  ℕ, ◌+◌, ◌*◌, ◌≡◌, ◌≤◌, refl, arith, Bool, true, false, Option, none, some, List, [], ◌∷◌, ltb,
  ◌==◌, if◌then◌else◌, length,
}
use wboot.Memmap.{
  MemoryDescriptor, E820Type, E820Entry, E820Map, nr_entries, max_entries, entry_size, joins,
  has_room, write_entry, merge_or_write, add_typed, add_descriptor, translate, e820_type_of,
  entry_of,
}

module _ (setup_header_size size : ℕ) where
  has_room-true :
      (remaining : ℕ)
      → remaining * entry_size + setup_header_size ≤ size
      → has_room setup_header_size (some size) remaining ≡ true
  unfolding has_room
  has_room-true remaining h = ground arith

  Ok-if :
      (b : Bool) (x y : Bool × E820Map) → x.0 ≡ true → y.0 ≡ true → (if b then x else y).0 ≡ true
  Ok-if true x y h k = h
  Ok-if false x y h k = k

  write_entry-true :
      (remaining : ℕ) (e : E820Entry) (t : E820Map)
      → remaining * entry_size + setup_header_size ≤ size
      → (write_entry setup_header_size (some size) remaining e t).0 ≡ true
  unfolding write_entry
  write_entry-true remaining e t h =
      let room = has_room-true remaining h in
      Ok-if (ltb (nr_entries t) max_entries) _ _ refl
        (Ok-if (nr_entries t == max_entries) _ _ (rw room refl) refl)

  merge_or_write-true :
      (remaining : ℕ) (e : E820Entry) (table ext : List E820Entry)
      → remaining * entry_size + setup_header_size ≤ size
      → (merge_or_write setup_header_size (some size) remaining e table ext).0 ≡ true
  unfolding merge_or_write
  merge_or_write-true remaining e [] [] h =
      write_entry-true remaining e (record { table = []; ext = [] }) h
  merge_or_write-true remaining e (prev ∷ table) [] h =
      Ok-if (joins prev e) _ _ refl
        (write_entry-true remaining e (record { table = prev ∷ table; ext = [] }) h)
  merge_or_write-true remaining e table (prev ∷ ext) h =
      Ok-if (joins prev e) _ _ refl
        (write_entry-true remaining e (record { table = table; ext = prev ∷ ext }) h)

  add_typed-true :
      (remaining : ℕ) (d : MemoryDescriptor) (t : E820Map) (k : Option E820Type)
      → remaining * entry_size + setup_header_size ≤ size
      → (add_typed setup_header_size (some size) remaining d t k).0 ≡ true
  unfolding add_typed
  add_typed-true remaining d t none h = refl
  add_typed-true remaining d t (some k) h =
      merge_or_write-true remaining (entry_of k d) t.table t.ext h

  -- With room in the extended table for an entry of each descriptor behind the size of a header,
  -- the translation never refuses the buffer, whatever the tables held before.
  pub translate-true :
      (descs : List MemoryDescriptor) (t : E820Map)
      → length descs * entry_size + setup_header_size ≤ size
      → (translate setup_header_size (some size) descs t).0 ≡ true
  unfolding translate add_descriptor
  translate-true [] t h = refl
  translate-true (d ∷ descs) t h =
      let x = add_descriptor setup_header_size (some size) (length (d ∷ descs)) d t in
      let ok = add_typed-true (length (d ∷ descs)) d t (e820_type_of d.kind) h in
      rw ok (translate-true descs x.1 (omega arith))
