-- ===== src/Efi/Files.antt =====
-- The calls of EFI_FILE_PROTOCOL that the sources make, with the answers of the firmware.
use wboot.Prelude.{ℕ, ◌+◌, ◌≡◌, refl, arith, false, if◌then◌else◌, List, Text}
use wboot.Stdlib.Alloc.{Machine, Io, pure, ◌>>◌, emit}
use wboot.Stdlib.Alloc.Balance.{Resource, Balanced, refers_file}
use wboot.Efi.{
  Ptr, EfiStatus, Firmware, file_opened, open_refused, file_closed, info_read, file_read,
}

module _ (fw : Firmware) where
  opened : Ptr → Text → EfiStatus × Ptr → Io (EfiStatus × Ptr)
  opened root path (status, file) =
      (if fw.efi_error status
        then emit (open_refused root path status)
        else emit (file_opened root path file))
      >> pure (status, file)

  -- `root->Open(root, &file, path, EFI_FILE_MODE_READ, 0)`
  unfoldable pub open_file : Ptr → Text → Io (EfiStatus × Ptr)
  unfolding opened
  open_file root path m = opened root path (fw.open_file m.events root path) m

  -- `file->GetInfo(file, &gEfiFileInfoGuid, &size, info)`: the status and `FileSize`.
  unfoldable pub get_info : Ptr → Io (EfiStatus × ℕ)
  get_info file m =
      let answer = fw.get_info m.events file in (answer, (emit (info_read file answer.0) m).1)

  -- `file->Read(file, &bytes_read, buffer)`
  unfoldable pub read_file : Ptr → ℕ → Io (EfiStatus × List ℕ)
  read_file file size m =
      let answer = fw.read_file m.events file size in
      (answer, (emit (file_read file size answer.0) m).1)

-- `file->Close(file)`
unfoldable pub close_file : Ptr → Io (Unit {0})
close_file file = emit (file_closed file)

module _ (fw : Firmware) (r : Resource) (k : ℕ) (m : Machine) (running : m.bs_exited ≡ false) where
  -- An open file is one reference more, and a refused one none.
  abbrev pub opened_refs : EfiStatus × Ptr → ℕ
  opened_refs (status, file) = if fw.efi_error status then 0 else refers_file r file

  pub open_file-Balanced :
      (root : Ptr) (path : Text)
      → let (answer, m') = open_file fw root path m in Balanced r k m (k + opened_refs answer) m'
  unfolding open_file
  open_file-Balanced root path = ground arith

  pub close_file-Balanced : (f : Ptr) → Balanced r (k + refers_file r f) m k (close_file f m).1
  unfolding close_file
  close_file-Balanced f = ground arith

  pub get_info-Balanced : (f : Ptr) → Balanced r k m k (get_info fw f m).1
  unfolding get_info
  get_info-Balanced f = record { accounts = refl; still_running = running }

  pub read_file-Balanced : (f : Ptr) (size : ℕ) → Balanced r k m k (read_file fw f size m).1
  unfolding read_file
  read_file-Balanced f size = record { accounts = refl; still_running = running }
