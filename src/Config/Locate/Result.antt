-- ===== src/Config/Locate/Result.antt =====
-- The status of `wboot_locate_config` of src/phase3/wboot_config.c.
use wboot.Prelude.{◌≡◌, refl, true, Option, none, some, List, [], ◌∷◌, codes, if◌then◌else◌}
use wboot.Efi.{Ptr, Firmware, success, not_found}
use wboot.Efi.Uefi.{IsUefi}
use wboot.Stdlib.Alloc.{Io, pure, ◌>>◌, print, perror}
use wboot.Stdlib.Alloc.Ends.{Ends, Ends_run, Ends-each, Ends-pure, Ends-bind, Ends-if, Ends-then}
use wboot.Config.Load.{Sizes, LoadedConfig, wboot_load_config}
use wboot.Config.Locate.{
  Located, max_handles, ask, get_device_path_to_text, show_device_path, accept, load_root,
  open_root, find_file_system, search_volumes, search_handles, wboot_locate_config,
}

module _ (fw : Firmware) (sizes : Sizes) (uefi : IsUefi fw) where
  -- An error and no config, or success and a config.
  abbrev pub IsLocated : Located → Type 0
  IsLocated (status, none) = fw.efi_error status ≡ true
  IsLocated (status, some x) = status ≡ success

  accept-Ends :
      (cfg : Option LoadedConfig) (next : Io Located)
      → Ends IsLocated next
      → Ends IsLocated (accept fw sizes cfg next)
  unfolding accept
  accept-Ends none next h = h
  accept-Ends (some cfg) next h = Ends-pure IsLocated (success, some cfg) refl

  open_root-Ends :
      (fs : Ptr) (next : Io Located)
      → Ends IsLocated next
      → Ends IsLocated (open_root fw sizes fs next)
  unfolding open_root load_root ask
  open_root-Ends fs next h = Ends-each IsLocated (open_root fw sizes fs next) (λ m.
      let answer = fw.open_volume m.events fs in
      Ends_run IsLocated _
        (Ends-if IsLocated (fw.efi_error answer.0)
          (perror (codes " [locate_config] error opening volume") answer.0 >> next)
          (load_root fw sizes answer.1 next) (λ e. Ends-then IsLocated (perror _ answer.0) next h)
          (λ e.
            Ends-bind IsLocated (wboot_load_config fw sizes answer.1)
              (λ cfg. accept fw sizes cfg next) (λ cfg. accept-Ends cfg next h)))
        (ask fw sizes answer m).1)

  find_file_system-Ends :
      (handle : Ptr) (next : Io Located)
      → Ends IsLocated next
      → Ends IsLocated (find_file_system fw sizes handle next)
  unfolding find_file_system ask
  find_file_system-Ends handle next h =
      Ends-each IsLocated (find_file_system fw sizes handle next) (λ m.
        let answer = fw.file_system m.events handle in
        Ends_run IsLocated _
          (Ends-if IsLocated (fw.efi_error answer.0)
            (perror (codes "[locate_config] error getting file system protocol") answer.0 >> next)
            (open_root fw sizes answer.1 next) (λ e. Ends-then IsLocated (perror _ answer.0) next h)
            (λ e. open_root-Ends answer.1 next h))
          (ask fw sizes answer m).1)

  search_volumes-Ends : (handles : List Ptr) → Ends IsLocated (search_volumes fw sizes handles)
  unfolding search_volumes
  search_volumes-Ends [] =
      Ends-then IsLocated (print _ _) (pure (not_found, none))
        (Ends-pure IsLocated (not_found, none) uefi.not_found_error)
  search_volumes-Ends (handle ∷ handles) =
      Ends-then IsLocated (show_device_path fw sizes handle)
        (find_file_system fw sizes handle (search_volumes fw sizes handles))
        (find_file_system-Ends handle (search_volumes fw sizes handles)
          (search_volumes-Ends handles))

  search_handles-Ends : Ends IsLocated (search_handles fw sizes)
  unfolding search_handles ask
  search_handles-Ends = Ends-each IsLocated (search_handles fw sizes) (λ m.
      let answer = fw.locate_file_systems m.events max_handles in
      Ends_run IsLocated _
        (Ends-if IsLocated (fw.efi_error answer.0) (pure (answer.0, none))
          (search_volumes fw sizes answer.1) (λ e. Ends-pure IsLocated (answer.0, none) e)
          (λ e. search_volumes-Ends answer.1))
        (ask fw sizes answer m).1)

  -- `wboot_locate_config` returns an error and no config, or success and a config.
  pub wboot_locate_config-IsLocated : Ends IsLocated (wboot_locate_config fw sizes)
  unfolding wboot_locate_config
  wboot_locate_config-IsLocated =
      Ends-bind IsLocated (get_device_path_to_text fw sizes)
        (λ status. if fw.efi_error status then pure (status, none) else search_handles fw sizes)
        (λ status.
          Ends-if IsLocated (fw.efi_error status) _ _ (λ e. Ends-pure IsLocated (status, none) e)
            (λ e. search_handles-Ends))
