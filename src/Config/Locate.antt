-- ===== src/Config/Locate.antt =====
-- `wboot_locate_config` of src/phase3/wboot_config.c: the first volume with a configuration.
pub mod Balance
pub mod Result
use wboot.Prelude.{
  ℕ, ◌+◌, Bool, true, false, Option, none, some, List, [], ◌∷◌, Text, codes, ◌==◌, if◌then◌else◌,
}
use wboot.Stdlib.Printf.{word, wide}
use wboot.Stdlib.Alloc.{Machine, Io, pure, ◌>>=◌, ◌>>◌, emit, print, perror}
use wboot.Efi.{
  Ptr, Firmware, EfiStatus, success, not_found, service_called, pool_allocated, pool_freed,
}
use wboot.Config.Load.{Sizes, LoadedConfig, wboot_load_config}

-- The length of `handles`.
abbrev pub max_handles : ℕ
max_handles = 64

-- The status, and `*config` where it is set.
abbrev pub Located : Type 0
Located = EfiStatus × Option LoadedConfig

module _ (fw : Firmware) (sizes : Sizes) where
  -- A service that answers with a status and a value.
  ask : {A : Type 0} → EfiStatus × A → Io (EfiStatus × A)
  ask answer m = (answer, (emit (service_called answer.0) m).1)

  -- `_get_device_path_to_text`
  get_device_path_to_text : Io EfiStatus
  get_device_path_to_text m =
      let status = fw.locate_device_path_to_text m.events in
      (do
        emit (service_called status)
        if fw.efi_error status
            then print (codes "error locating DEVICE_PATH_TO_TEXT_PROTOCOL: %u\r\n")
                (word (fw.status_number status) ∷ [])
            else pure tt
        pure status)
        m

  -- The text of a device path, from the pool, and the `FreePool` behind its use.
  print_device_path : Ptr × Text → Io (Unit {0})
  print_device_path (text, path) m =
      (do
        emit (pool_allocated 0 text)
        if text == 0
            then print (codes "[locate_config] device path: unknown error\r\n") []
            else pure tt
        print (codes "[locate_config] device path: %s\r\n") (wide path ∷ [])
        (λ m'. emit (pool_freed text (fw.free_pool m'.events text)) m'))
        m

  show_device_path : Ptr → Io (Unit {0})
  show_device_path handle m =
      (do
        (status, path) ← ask (fw.device_path m.events handle)
        if fw.efi_error status
            then perror (codes "[locate_config] error getting device path") status
            else (λ m'. print_device_path (fw.convert_device_path m'.events path) m'))
        m

  -- `if (cfg)`, with the rest of the loop as `next`.
  accept : Option LoadedConfig → Io Located → Io Located
  accept none next = next
  accept (some cfg) next = pure (success, some cfg)

  load_root : Ptr → Io Located → Io Located
  load_root root next = do cfg ← wboot_load_config fw sizes root; accept cfg next

  open_root : Ptr → Io Located → Io Located
  open_root fs next m =
      (do
        (status, root) ← ask (fw.open_volume m.events fs)
        if fw.efi_error status
            then perror (codes " [locate_config] error opening volume") status >> next
            else load_root root next)
        m

  find_file_system : Ptr → Io Located → Io Located
  find_file_system handle next m =
      (do
        (status, fs) ← ask (fw.file_system m.events handle)
        if fw.efi_error status
            then perror (codes "[locate_config] error getting file system protocol") status >> next
            else open_root fs next)
        m

  -- The loop over the handles.
  pub search_volumes : List Ptr → Io Located
  search_volumes [] = do
    print (codes "[locate_config] could not find config file on any device\r\n") []
    pure (not_found, none)
  search_volumes (handle ∷ handles) =
      show_device_path handle >> find_file_system handle (search_volumes handles)

  search_handles : Io Located
  search_handles m =
      (do
        (status, handles) ← ask (fw.locate_file_systems m.events max_handles)
        if fw.efi_error status then pure (status, none) else search_volumes handles)
        m

  -- `wboot_locate_config`
  unfoldable pub wboot_locate_config : Io Located
  unfolding get_device_path_to_text search_handles search_volumes find_file_system open_root
      load_root accept show_device_path print_device_path ask wboot_load_config
  wboot_locate_config = do
    status ← get_device_path_to_text
    if fw.efi_error status then pure (status, none) else search_handles
