-- ===== src/Efi/Pages.antt =====
-- The calls of AllocatePages, FreePages, SetPosition and GetInfo without a buffer that the sources
-- make, with the answers of the firmware.
use wboot.Prelude.{ℕ, ◌+◌, ◌≡◌, refl, arith, false, if◌then◌else◌}
use wboot.Stdlib.Alloc.{Machine, Io, pure, ◌>>◌, emit}
use wboot.Stdlib.Alloc.Balance.{Resource, Balanced, refers_pages}
use wboot.Efi.{
  Ptr, EfiStatus, Firmware, PageRequest, pages_allocated, pages_refused, pages_freed, position_set,
  info_read,
}

-- `EFI_PAGE_SIZE`
abbrev pub page_size : ℕ
page_size = 4096

module _ (fw : Firmware) where
  paged : ℕ → EfiStatus × Ptr → Io (EfiStatus × Ptr)
  paged n (status, addr) =
      (if fw.efi_error status then emit (pages_refused n status) else emit (pages_allocated n addr))
      >> pure (status, addr)

  -- `BS->AllocatePages(type, EfiLoaderData, n, &addr)`
  unfoldable pub allocate_pages : PageRequest → ℕ → Io (EfiStatus × Ptr)
  unfolding paged
  allocate_pages request n m = paged n (fw.allocate_pages m.events request n) m

  -- `file->SetPosition(file, position)`
  unfoldable pub set_position : Ptr → ℕ → Io EfiStatus
  set_position file position m =
      let status = fw.set_position m.events file position in
      (status, (emit (position_set file position status) m).1)

  -- `file->GetInfo(file, &gEfiFileInfoGuid, &size, NULL)`
  unfoldable pub get_info_size : Ptr → Io (EfiStatus × ℕ)
  get_info_size file m =
      let answer = fw.get_info_size m.events file in (answer, (emit (info_read file answer.0) m).1)

-- `BS->FreePages(addr, n)`
unfoldable pub free_pages : Ptr → ℕ → Io (Unit {0})
free_pages addr n = emit (pages_freed addr n)

module _ (fw : Firmware) (r : Resource) (k : ℕ) (m : Machine) (running : m.bs_exited ≡ false) where
  -- What an answer of `AllocatePages` refers to.
  abbrev pub paged_refs : ℕ → EfiStatus × Ptr → ℕ
  paged_refs n (status, addr) = if fw.efi_error status then 0 else refers_pages r addr n

  pub allocate_pages-Balanced :
      (request : PageRequest) (n : ℕ)
      → let (answer, m') = allocate_pages fw request n m in
        Balanced r k m (k + paged_refs n answer) m'
  unfolding allocate_pages
  allocate_pages-Balanced request n = ground arith

  pub free_pages-Balanced :
      (a : Ptr) (n : ℕ) → Balanced r (k + refers_pages r a n) m k (free_pages a n m).1
  unfolding free_pages
  free_pages-Balanced a n = ground arith

  pub set_position-Balanced : (f : Ptr) (at : ℕ) → Balanced r k m k (set_position fw f at m).1
  unfolding set_position
  set_position-Balanced f at = record { accounts = refl; still_running = running }

  pub get_info_size-Balanced : (f : Ptr) → Balanced r k m k (get_info_size fw f m).1
  unfolding get_info_size
  get_info_size-Balanced f = record { accounts = refl; still_running = running }
