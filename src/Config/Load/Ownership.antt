-- ===== src/Config/Load/Ownership.antt =====
-- The account of `wboot_load_config` of src/phase3/wboot_config.c with the firmware.
use wboot.Prelude.{ℕ, ◌+◌, ◌*◌, ◌%◌, ◌≡◌, arith, false, not, none, [], ◌∷◌, codes, ◌==◌, length}
use wboot.Prelude.Words.{u64_mod}
use wboot.Efi.{Ptr, Firmware}
use wboot.Efi.Files.{
  open_file, get_info, read_file, close_file, open_file-Balanced, close_file-Balanced,
  get_info-Balanced, read_file-Balanced,
}
use wboot.Stdlib.Alloc.{Machine, ◌>>◌, pure, free}
use wboot.Stdlib.Printf.{word}
use wboot.Stdlib.Alloc.Balance.{
  Resource, refers, refers_file, IsReal, free-Balanced, Balanced-trans, Balanced-refl,
}
use wboot.Config.Load.{
  Sizes, drop_data, close_both, read_data, load_data, load_info, load_file, load_volume,
  wboot_load_config,
}
use wboot.Config.Load.Account.{
  print-Loads, Loads-malloc, perror-Loads, perror_errno-Loads, Loads-if, Loads, Loads-when,
}
use wboot.Config.Load.Finish.{parse_data-Loads, drop_data-Loads}

module _ (fw : Firmware) (sizes : Sizes) (r : Resource) (real : IsReal r) where
  read_data-Loads :
      (root config_ptr config_data config_file : Ptr) (size : ℕ) (m : Machine)
      → m.bs_exited ≡ false
      → Loads fw sizes r real
          (refers r config_ptr + refers r config_data + refers_file r config_file)
          m
          (read_data fw sizes root config_ptr config_data config_file size m)
  unfolding read_data
  read_data-Loads root config_ptr config_data config_file size m h =
      let k = refers r config_ptr + refers r config_data + refers_file r config_file in
      let (status, bytes) = (read_file fw config_file size m).0 in
      let m' = (read_file fw config_file size m).1 in
      let read = read_file-Balanced fw r k m h config_file size in
      let drop = drop_data fw sizes config_ptr config_data config_file in
      let dropped = drop_data-Loads fw sizes r real config_ptr config_data config_file in
      Balanced-trans read (
        Loads-if fw sizes r real (fw.efi_error status) _ _
          (perror-Loads fw sizes r real (codes "error reading config file") status drop k m'
            read.still_running dropped)
          (Loads-if fw sizes r real (not (length bytes == size)) _ _
            (print-Loads fw sizes r real
              (codes "error: expected to read %u bytes but read %u bytes\n")
              (word size ∷ word (length bytes) ∷ []) drop k m' read.still_running dropped)
            (parse_data-Loads fw sizes r real root config_ptr config_data config_file bytes m'
              read.still_running)))

  close_both-Loads :
      (config_ptr config_file : Ptr) (m : Machine)
      → m.bs_exited ≡ false
      → Loads fw sizes r real
          (refers r config_ptr + refers_file r config_file)
          m
          (close_both fw sizes config_ptr config_file m)
  unfolding close_both
  close_both-Loads config_ptr config_file m h =
      let closed = close_file-Balanced fw r 0 m h config_file in
      let last =
        free-Balanced fw r 0 (close_file config_file m).1 closed.still_running config_ptr real in
      record { accounts = omega arith; still_running = last.still_running }

  read_given-Loads :
      (root config_ptr config_file : Ptr) (size : ℕ) (config_data : Ptr) (m : Machine)
      → m.bs_exited ≡ false
      → Loads fw sizes r real
          (refers r config_ptr + refers_file r config_file + refers r config_data)
          m
          (read_data fw sizes root config_ptr config_data config_file size m)
  read_given-Loads root config_ptr config_file size config_data m h =
      let done = read_data-Loads root config_ptr config_data config_file size m h in
      record { accounts = omega arith; still_running = done.still_running }

  load_data-Loads :
      (root config_ptr config_file : Ptr) (size : ℕ) (m : Machine)
      → m.bs_exited ≡ false
      → Loads fw sizes r real
          (refers r config_ptr + refers_file r config_file)
          m
          (load_data fw sizes root config_ptr config_file size m)
  unfolding load_data
  load_data-Loads root config_ptr config_file size m h =
      let k = refers r config_ptr + refers_file r config_file in
      Loads-malloc fw sizes r real ((size + 1) % u64_mod) _ _ k m h
        (λ p m1 h1.
          perror_errno-Loads fw sizes r real (codes "error allocating memory for config data")
            (close_both fw sizes config_ptr config_file) _ m1 h1
            (close_both-Loads config_ptr config_file))
        (read_given-Loads root config_ptr config_file size)

  load_info-Loads :
      (root config_ptr config_file file_info : Ptr) (m : Machine)
      → m.bs_exited ≡ false
      → Loads fw sizes r real
          (refers r config_ptr + refers_file r config_file + refers r file_info)
          m
          (load_info fw sizes root config_ptr config_file file_info m)
  unfolding load_info
  load_info-Loads root config_ptr config_file file_info m h =
      let k = refers r config_ptr + refers_file r config_file in
      let asked = get_info-Balanced fw r (k + refers r file_info) m h config_file in
      let (status, size) = (get_info fw config_file m).0 in
      let m' = (get_info fw config_file m).1 in
      Balanced-trans asked (
        Loads-if fw sizes r real (fw.efi_error status) _ _
          (perror-Loads fw sizes r real (codes "error getting config file info") status
            (free fw file_info >> close_both fw sizes config_ptr config_file)
            (k + refers r file_info) m' asked.still_running
            (λ m1 h1.
              let freed = free-Balanced fw r k m1 h1 file_info real in
              Balanced-trans freed (
                close_both-Loads config_ptr config_file (free fw file_info m1).1
                  freed.still_running)))
          (let freed = free-Balanced fw r k m' asked.still_running file_info real in
            Balanced-trans freed (
              load_data-Loads root config_ptr config_file size (free fw file_info m').1
                freed.still_running)))

  load_file-Loads :
      (root config_ptr config_file : Ptr) (m : Machine)
      → m.bs_exited ≡ false
      → Loads fw sizes r real
          (refers r config_ptr + refers_file r config_file)
          m
          (load_file fw sizes root config_ptr config_file m)
  unfolding load_file
  load_file-Loads root config_ptr config_file m h =
      Loads-malloc fw sizes r real (sizes.file_info + 512 * 2) _ _
        (refers r config_ptr + refers_file r config_file) m h
        (λ p m1 h1.
          perror_errno-Loads fw sizes r real (codes "error allocating memory for config file info")
            (close_both fw sizes config_ptr config_file) _ m1 h1
            (close_both-Loads config_ptr config_file))
        (load_info-Loads root config_ptr config_file)

  load_volume-Loads :
      (root config_ptr : Ptr) (m : Machine)
      → m.bs_exited ≡ false
      → Loads fw sizes r real (refers r config_ptr) m (load_volume fw sizes root config_ptr m)
  unfolding load_volume
  load_volume-Loads root config_ptr m h =
      let k = refers r config_ptr in
      let (status, config_file) = (open_file fw root (codes "wboot.conf") m).0 in
      let m' = (open_file fw root (codes "wboot.conf") m).1 in
      let opened = open_file-Balanced fw r k m h root (codes "wboot.conf") in
      Loads-when fw sizes r real (fw.efi_error status) _ _ m'
        (λ e.
          let freed = free-Balanced fw r 0 m' opened.still_running config_ptr real in
          record {
            accounts = ground (arith, e, opened.accounts, freed.accounts);
            still_running = freed.still_running;
          })
        (λ e.
          let loaded = load_file-Loads root config_ptr config_file m' opened.still_running in
          record {
            accounts = ground (arith, e, opened.accounts, loaded.accounts);
            still_running = loaded.still_running;
          })

  -- On every path of `wboot_load_config`, with boot services up: of the buffers and files that the
  -- firmware lent, what has not been given back, exactly once, is the config returned and its texts.
  pub wboot_load_config-Loads :
      (root : Ptr) (m : Machine)
      → m.bs_exited ≡ false
      → Loads fw sizes r real 0 m (wboot_load_config fw sizes root m)
  unfolding wboot_load_config
  wboot_load_config-Loads root m h =
      Loads-malloc fw sizes r real sizes.config (λ p. pure none) (load_volume fw sizes root) 0 m h
        (λ p m1 h1. Balanced-refl r 0 m1 h1)
        (λ p m1 h1.
          let loaded = load_volume-Loads root p m1 h1 in
          record { accounts = omega arith; still_running = loaded.still_running })
