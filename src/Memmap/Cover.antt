-- ===== src/Memmap/Cover.antt =====
-- What `wboot_translate_memmap` of src/phase3/wboot.c says of each address.
use native.Mathlib.Nat.{mod-eq_of_lt}
use wboot.Prelude.{
  ℕ, ◌+◌, ◌*◌, ◌%◌, ◌≡◌, ◌<◌, refl, arith, Bool, true, false, ◌&&◌, ◌||◌, Option, none, some, List,
  [], ◌∷◌, leb, ltb, ◌==◌, if◌then◌else◌, length, All,
}
use wboot.Prelude.Words.{u64_mod}
use wboot.Memmap.{
  MemoryDescriptor, E820Type, E820Entry, E820Map, same_type, nr_entries, max_entries, has_room,
  joins, grow, write_entry, merge_or_write, add_typed, add_descriptor, translate, e820_type_of,
  entry_of,
}

-- Whether an entry says of an address that it has the type.
unfoldable pub inside : E820Type → ℕ → E820Entry → Bool
inside k a e = same_type k e.kind && (leb e.addr a && ltb a (e.addr + e.size))

unfoldable pub covers : E820Type → ℕ → List E820Entry → Bool
covers k a [] = false
covers k a (e ∷ es) = inside k a e || covers k a es

-- Whether the tables say so, and whether the firmware's descriptors do.
abbrev pub seen : E820Type → ℕ → E820Map → Bool
seen k a t = covers k a t.ext || covers k a t.table

abbrev pub says : E820Type → ℕ → MemoryDescriptor → Option E820Type → Bool
says k a d none = false
says k a d (some j) = inside k a (entry_of j d)

unfoldable pub described : E820Type → ℕ → List MemoryDescriptor → Bool
described k a [] = false
described k a (d ∷ descs) = says k a d (e820_type_of d.kind) || described k a descs

-- An entry, or a descriptor's region, ends below 2^64.
abbrev pub Ends : E820Entry → Type 0
Ends e = e.addr + e.size < u64_mod

abbrev pub RegionEnds : MemoryDescriptor → Type 0
RegionEnds d = d.physical_start + d.number_of_pages * 4096 < u64_mod

-- Two entries that join stand end to end.
joined-size :
    (prev e : E820Entry)
    → Ends prev
    → Ends e
    → joins prev e ≡ true
    → (prev.addr + prev.size ≡ e.addr) × ((prev.size + e.size) % u64_mod ≡ prev.size + e.size)
joined-size prev e h k j =
    let touch = mod-eq_of_lt h in
    let meet : prev.addr + prev.size ≡ e.addr = ground (arith, j, touch) in
    (meet, mod-eq_of_lt (omega (arith, meet)))

entry_of-Ends : (k : E820Type) (d : MemoryDescriptor) → RegionEnds d → Ends (entry_of k d)
entry_of-Ends k d h = rw (mod-eq_of_lt (small d h)) h
  where
    small : (d : MemoryDescriptor) → RegionEnds d → d.number_of_pages * 4096 < u64_mod
    small d h = omega arith

inside-grow :
    (k : E820Type) (a : ℕ) (prev e : E820Entry)
    → Ends prev
    → Ends e
    → joins prev e ≡ true
    → inside k a (grow prev e) ≡ (inside k a e || inside k a prev)
unfolding inside
inside-grow k a prev e h l j = ground (arith, joined-size prev e h l j)

-- The tables say of an address what they said and what the entry says; their entries still end.
record Adds (k : E820Type) (a : ℕ) (new : Bool) (t t' : E820Map) : Type 0 where
  says_more : seen k a t' ≡ (new || seen k a t)
  table_ends : All Ends t'.table
  ext_ends : All Ends t'.ext

-- A call that answers `true` has done so.
AddsIf : E820Type → ℕ → Bool → E820Map → Bool × E820Map → Type 0
AddsIf k a new t (ok, t') = ok ≡ true → Adds k a new t t'

AddsIf-if :
    (k : E820Type) (a : ℕ) (new : Bool) (t : E820Map) (b : Bool) (x y : Bool × E820Map)
    → (b ≡ true → AddsIf k a new t x)
    → AddsIf k a new t y
    → AddsIf k a new t (if b then x else y)
AddsIf-if k a new t true x y h l = h refl
AddsIf-if k a new t false x y h l = l

module _ (setup_header_size : ℕ) (e820ext_size : Option ℕ) (k : E820Type) (a : ℕ) where
  write_entry-Adds :
      (remaining : ℕ) (e : E820Entry) (t : E820Map)
      → Ends e
      → All Ends t.table
      → All Ends t.ext
      → AddsIf k a (inside k a e) t (write_entry setup_header_size e820ext_size remaining e t)
  unfolding write_entry covers AddsIf
  write_entry-Adds remaining e t h table ext =
      let new = inside k a e in
      let to_table = record t { table = e ∷ t.table } in
      let to_ext = record t { ext = e ∷ t.ext } in
      let extended : AddsIf k a new t (true, to_ext) =
        λ ok. record { says_more = ground arith; table_ends = table; ext_ends = (h, ext) } in
      AddsIf-if k a new t (ltb (nr_entries t) max_entries) _ _
        (λ below ok. record { says_more = ground arith; table_ends = (h, table); ext_ends = ext })
        (AddsIf-if k a new t (nr_entries t == max_entries) _ _
          (λ full.
            AddsIf-if k a new t (has_room setup_header_size e820ext_size remaining) _ _
              (λ room. extended) (λ ok. ground (arith, ok)))
          extended)

  merge_or_write-Adds :
      (remaining : ℕ) (e : E820Entry) (table ext : List E820Entry)
      → Ends e
      → All Ends table
      → All Ends ext
      → AddsIf k a
          (inside k a e)
          (record { table = table; ext = ext })
          (merge_or_write setup_header_size e820ext_size remaining e table ext)
  unfolding merge_or_write covers AddsIf
  merge_or_write-Adds remaining e [] [] h hs ks =
      write_entry-Adds remaining e (record { table = []; ext = [] }) h hs ks
  merge_or_write-Adds remaining e (prev ∷ table) [] h hs ks =
      AddsIf-if k a (inside k a e) (record { table = prev ∷ table; ext = [] }) (joins prev e) _ _
        (λ j ok. record {
          says_more = ground (arith, inside-grow k a prev e hs.0 h j);
          table_ends = (omega (arith, joined-size prev e hs.0 h j), hs.1);
          ext_ends = tt;
        })
        (write_entry-Adds remaining e (record { table = prev ∷ table; ext = [] }) h hs ks)
  merge_or_write-Adds remaining e table (prev ∷ ext) h hs ks =
      AddsIf-if k a (inside k a e) (record { table = table; ext = prev ∷ ext }) (joins prev e) _ _
        (λ j ok. record {
          says_more = ground (arith, inside-grow k a prev e ks.0 h j);
          table_ends = hs;
          ext_ends = (omega (arith, joined-size prev e ks.0 h j), ks.1);
        })
        (write_entry-Adds remaining e (record { table = table; ext = prev ∷ ext }) h hs ks)

  add_typed-Adds :
      (remaining : ℕ) (d : MemoryDescriptor) (t : E820Map) (j : Option E820Type)
      → RegionEnds d
      → All Ends t.table
      → All Ends t.ext
      → AddsIf k a (says k a d j) t (add_typed setup_header_size e820ext_size remaining d t j)
  unfolding add_typed AddsIf
  add_typed-Adds remaining d t none h hs ks =
      λ ok. record { says_more = refl; table_ends = hs; ext_ends = ks }
  add_typed-Adds remaining d t (some j) h hs ks =
      merge_or_write-Adds remaining (entry_of j d) t.table t.ext (entry_of-Ends j d h) hs ks

  translate-Adds :
      (descs : List MemoryDescriptor) (t : E820Map)
      → All RegionEnds descs
      → All Ends t.table
      → All Ends t.ext
      → AddsIf k a (described k a descs) t (translate setup_header_size e820ext_size descs t)
  unfolding translate add_descriptor described AddsIf
  translate-Adds [] t h hs ks = λ ok. record { says_more = refl; table_ends = hs; ext_ends = ks }
  translate-Adds (d ∷ descs) t h hs ks =
      let x = add_descriptor setup_header_size e820ext_size (length (d ∷ descs)) d t in
      let added = add_typed-Adds (length (d ∷ descs)) d t (e820_type_of d.kind) h.0 hs ks in
      AddsIf-if k a (described k a (d ∷ descs)) t x.0 _ _
        (λ ok later.
          let first = added ok in
          let rest = translate-Adds descs x.1 h.1 first.table_ends first.ext_ends later in
          record {
            says_more = ground (arith, first.says_more, rest.says_more);
            table_ends = rest.table_ends;
            ext_ends = rest.ext_ends;
          })
        (λ failed. ground (arith, failed))

  -- A translation that succeeds says of every address, and of every type, what the descriptors
  -- say, and what the tables said before: nothing is lost and nothing is added where entries are
  -- merged. No region ends at 2^64 or above.
  pub translate-described :
      (descs : List MemoryDescriptor) (t : E820Map)
      → All RegionEnds descs
      → All Ends t.table
      → All Ends t.ext
      → (translate setup_header_size e820ext_size descs t).0 ≡ true
      → seen k a (translate setup_header_size e820ext_size descs t).1
        ≡ (described k a descs || seen k a t)
  unfolding AddsIf
  translate-described descs t h hs ks ok = (translate-Adds descs t h hs ks ok).says_more
