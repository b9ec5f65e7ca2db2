-- ===== src/Efi/Uefi.antt =====
-- What the UEFI specification says of the status codes that the sources return.
use wboot.Prelude.{ℕ, ◌≡◌, ◌≢◌, Bool, true, false}
use wboot.Efi.{
  Ptr, Events, EfiStatus, Firmware, success, invalid_parameter, out_of_resources, bad_buffer_size,
  not_found, buffer_too_small,
}

-- `status == EFI_BUFFER_TOO_SMALL` and `status == EFI_SUCCESS`
abbrev pub is_buffer_too_small : EfiStatus → Bool
is_buffer_too_small buffer_too_small = true
is_buffer_too_small _ = false

abbrev pub is_success : EfiStatus → Bool
is_success success = true
is_success _ = false

-- EFI_ERROR holds of the error codes and not of EFI_SUCCESS; what the services promise.
pub record IsUefi (fw : Firmware) : Type 0 where
  pub success_none : fw.efi_error success ≡ false
  pub invalid_parameter_error : fw.efi_error invalid_parameter ≡ true
  pub out_of_resources_error : fw.efi_error out_of_resources ≡ true
  pub bad_buffer_size_error : fw.efi_error bad_buffer_size ≡ true
  pub not_found_error : fw.efi_error not_found ≡ true
  pub buffer_too_small_error : fw.efi_error buffer_too_small ≡ true
  -- `GetInfo` and `GetMemoryMap` without a buffer never succeed, and `AllocatePool` gives no NULL.
  pub info_size_error :
      (events : Events) (file : Ptr) → fw.efi_error (fw.get_info_size events file).0 ≡ true
  pub map_size_error : (events : Events) → fw.efi_error (fw.get_memory_map events 0).status ≡ true
  pub pool_real :
      (events : Events) (size : ℕ)
      → fw.efi_error (fw.allocate_pool events size).0 ≡ false
      → (fw.allocate_pool events size).1 ≢ 0

-- At some point of the run, a service succeeded and gave this.
pub record Gave (fw : Firmware) {A : Type 0} (service : Events → EfiStatus × A) (a : A)
    : Type 0 where
  pub events : Events
  pub status : EfiStatus
  pub answer : service events ≡ (status, a)
  pub succeeded : fw.efi_error status ≡ false
