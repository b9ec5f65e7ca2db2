-- ===== src/Config/Locate/Balance.antt =====
-- The account of `wboot_locate_config` of src/phase3/wboot_config.c with the firmware.
use wboot.Prelude.{
  ◌≡◌, refl, arith, Bool, true, false, Option, none, some, List, [], ◌∷◌, Text, codes,
  if◌then◌else◌,
}
use wboot.Efi.{Ptr, Firmware, EfiStatus}
use wboot.Stdlib.Printf.{wide}
use wboot.Stdlib.Alloc.{Machine, Io, ◌>>◌, perror, strerror}
use wboot.Stdlib.Alloc.Balance.{
  Resource, IsReal, Balanced, Balanced-trans, Balanced-refl, print-Balanced,
}
use wboot.Config.Load.{Sizes, LoadedConfig, wboot_load_config}
use wboot.Config.Load.Account.{loaded_refs}
use wboot.Config.Load.Ownership.{wboot_load_config-Loads}
use wboot.Config.Locate.{
  Located, ask, get_device_path_to_text, print_device_path, show_device_path, accept, load_root,
  open_root, find_file_system, search_volumes, search_handles, wboot_locate_config, max_handles,
}

module _ (fw : Firmware) (sizes : Sizes) (r : Resource) (real : IsReal r) where
  -- Boot services go on, and what is out is what the result refers to.
  abbrev pub Locates : Machine → Located × Machine → Type 0
  Locates m ((status, cfg), m') = Balanced r 0 m (loaded_refs fw sizes r real cfg) m'

  print_device_path-Balanced :
      (answer : Ptr × Text) (m : Machine)
      → m.bs_exited ≡ false
      → Balanced r 0 m 0 (print_device_path fw sizes answer m).1
  unfolding print_device_path
  print_device_path-Balanced (text, path) m h = ground arith

  ask-Balanced :
      {A : Type 0} (answer : EfiStatus × A) (m : Machine)
      → m.bs_exited ≡ false
      → Balanced r 0 m 0 (ask fw sizes answer m).1
  unfolding ask
  ask-Balanced answer m h = record { accounts = refl; still_running = h }

  perror-Balanced :
      (message : Text) (status : EfiStatus) (m : Machine)
      → m.bs_exited ≡ false
      → Balanced r 0 m 0 (perror message status m).1
  unfolding perror
  perror-Balanced message status m h =
      print-Balanced fw r 0 m h (codes "%s: %s\r\n") (wide message ∷ wide (strerror status) ∷ [])

  Balanced-if :
      (b : Bool) (f g : Io (Unit {0})) {m : Machine} (m' : Machine)
      → Balanced r 0 m 0 (f m').1
      → Balanced r 0 m 0 (g m').1
      → Balanced r 0 m 0 ((if b then f else g) m').1
  Balanced-if true f g m' h k = h
  Balanced-if false f g m' h k = k

  show_device_path-Balanced :
      (handle : Ptr) (m : Machine)
      → m.bs_exited ≡ false
      → Balanced r 0 m 0 (show_device_path fw sizes handle m).1
  unfolding show_device_path ask
  show_device_path-Balanced handle m h =
      let answer = fw.device_path m.events handle in
      let m' = (ask fw sizes answer m).1 in
      let asked = ask-Balanced answer m h in
      Balanced-trans asked (
        Balanced-if (fw.efi_error answer.0) _ _ m'
          (perror-Balanced (codes "[locate_config] error getting device path") answer.0 m'
            asked.still_running)
          (print_device_path-Balanced (fw.convert_device_path m'.events answer.1) m'
            asked.still_running))

  Locates-if :
      (b : Bool) (f g : Io Located) {m : Machine} (m' : Machine)
      → Locates m (f m')
      → Locates m (g m')
      → Locates m ((if b then f else g) m')
  Locates-if true f g m' h k = h
  Locates-if false f g m' h k = k

  -- A loop's rest that locates from every machine that still has boot services.
  LocatesAll : Io Located → Type 0
  LocatesAll next = (m : Machine) → m.bs_exited ≡ false → Locates m (next m)

  perror-Locates :
      (message : Text) (status : EfiStatus) (next : Io Located) (m : Machine)
      → m.bs_exited ≡ false
      → LocatesAll next
      → Locates m ((perror message status >> next) m)
  unfolding LocatesAll
  perror-Locates message status next m h all =
      let said = perror-Balanced message status m h in
      Balanced-trans said (all (perror message status m).1 said.still_running)

  load_root-Locates :
      (root : Ptr) (next : Io Located) → LocatesAll next → LocatesAll (load_root fw sizes root next)
  unfolding load_root accept LocatesAll
  load_root-Locates root next all m h =
      accepted (wboot_load_config fw sizes root m)
        (wboot_load_config-Loads fw sizes r real root m h)
    where
      accepted :
          (x : Option LoadedConfig × Machine)
          → Balanced r 0 m (loaded_refs fw sizes r real x.0) x.1
          → Locates m (accept fw sizes x.0 next x.1)
      accepted (none, m') k = Balanced-trans k (all m' k.still_running)
      accepted (some cfg, m') k = k

  open_root-Locates :
      (fs : Ptr) (next : Io Located) → LocatesAll next → LocatesAll (open_root fw sizes fs next)
  unfolding open_root ask LocatesAll
  open_root-Locates fs next all m h =
      let answer = fw.open_volume m.events fs in
      let m' = (ask fw sizes answer m).1 in
      let asked = ask-Balanced answer m h in
      Balanced-trans asked (
        Locates-if (fw.efi_error answer.0) _ _ m'
          (perror-Locates (codes " [locate_config] error opening volume") answer.0 next m'
            asked.still_running all)
          (load_root-Locates answer.1 next all m' asked.still_running))

  find_file_system-Locates :
      (handle : Ptr) (next : Io Located)
      → LocatesAll next
      → LocatesAll (find_file_system fw sizes handle next)
  unfolding find_file_system ask LocatesAll
  find_file_system-Locates handle next all m h =
      let answer = fw.file_system m.events handle in
      let m' = (ask fw sizes answer m).1 in
      let asked = ask-Balanced answer m h in
      Balanced-trans asked (
        Locates-if (fw.efi_error answer.0) _ _ m'
          (perror-Locates (codes "[locate_config] error getting file system protocol") answer.0 next
            m' asked.still_running all)
          (open_root-Locates answer.1 next all m' asked.still_running))

  search_volumes-Locates : (handles : List Ptr) → LocatesAll (search_volumes fw sizes handles)
  unfolding search_volumes LocatesAll
  search_volumes-Locates [] m h = record { accounts = refl; still_running = h }
  search_volumes-Locates (handle ∷ handles) m h =
      let shown = show_device_path-Balanced handle m h in
      Balanced-trans shown (
        find_file_system-Locates handle (search_volumes fw sizes handles)
          (search_volumes-Locates handles) (show_device_path fw sizes handle m).1
          shown.still_running)

  search_handles-Locates : LocatesAll (search_handles fw sizes)
  unfolding search_handles ask LocatesAll
  search_handles-Locates m h =
      let answer = fw.locate_file_systems m.events max_handles in
      let m' = (ask fw sizes answer m).1 in
      let asked = ask-Balanced answer m h in
      Balanced-trans asked (
        Locates-if (fw.efi_error answer.0) _ _ m' (Balanced-refl r 0 m' asked.still_running)
          (search_volumes-Locates answer.1 m' asked.still_running))

  get_device_path_to_text-Balanced :
      (m : Machine) → m.bs_exited ≡ false → Balanced r 0 m 0 (get_device_path_to_text fw sizes m).1
  unfolding get_device_path_to_text
  get_device_path_to_text-Balanced m h = ground arith

  -- Over all the volumes that `wboot_locate_config` tries, with boot services up: of the buffers and
  -- files that the firmware lent, what has not been given back, exactly once, is the config
  -- returned and its texts. What `OpenVolume` opens is not counted.
  pub wboot_locate_config-Locates :
      (m : Machine) → m.bs_exited ≡ false → Locates m (wboot_locate_config fw sizes m)
  unfolding wboot_locate_config LocatesAll
  wboot_locate_config-Locates m h =
      let x = get_device_path_to_text fw sizes m in
      let asked = get_device_path_to_text-Balanced m h in
      Balanced-trans asked (
        Locates-if (fw.efi_error x.0) _ _ x.1 (Balanced-refl r 0 x.1 asked.still_running)
          (search_handles-Locates x.1 asked.still_running))
