-- ===== src/Efi.antt =====
-- The names of UEFI that the sources use, and the firmware as a parameter. None of it is the
-- program's code: the constants are gnu-efi's, the services the firmware's.
--
-- A call of a service is an event that holds the answer. An answer may depend on all events
-- before it, so nothing is assumed of the firmware but what a theorem names.
pub mod Files
pub mod Maps
pub mod Pages
pub mod Uefi
use wboot.Prelude.{ℕ, Bool, List, ◌∷◌, Text}
use wboot.Stdlib.Printf.{Arg}

-- EFI_STATUS by the names that `strerror` (src/shared/wstdlib.c) knows.
pub data EfiStatus : Type 0 where
  success load_error invalid_parameter unsupported bad_buffer_size buffer_too_small : EfiStatus
  not_ready device_error write_protected out_of_resources volume_corrupted : EfiStatus
  volume_full no_media media_changed not_found access_denied no_response no_mapping : EfiStatus
  timeout not_started already_started aborted icmp_error tftp_error protocol_error : EfiStatus
  incompatible_version security_violation crc_error end_of_media end_of_file : EfiStatus
  invalid_language compromised_data ip_address_conflict http_error : EfiStatus
  other_status : ℕ → EfiStatus

-- A pointer that the program gets from the firmware; 0 is NULL.
abbrev pub Ptr : Type 0
Ptr = ℕ

pub data Event : Type 0 where
  -- `AllocatePool`: the size, and the pointer or the error
  pool_allocated : ℕ → Ptr → Event
  pool_refused : ℕ → EfiStatus → Event
  -- `FreePool`
  pool_freed : Ptr → EfiStatus → Event
  -- a call of `printf`, by its format and arguments; what one does is in Stdlib.Printf
  printed : Text → List Arg → Event
  -- `Open` of a path below a directory: the file, or the error
  file_opened : Ptr → Text → Ptr → Event
  open_refused : Ptr → Text → EfiStatus → Event
  file_closed : Ptr → Event
  -- `GetInfo`, `Read`
  info_read : Ptr → EfiStatus → Event
  file_read : Ptr → ℕ → EfiStatus → Event
  -- `LocateProtocol`, `LocateHandle`, `HandleProtocol`, `OpenVolume`, `ConvertDevicePathToText`
  service_called : EfiStatus → Event
  -- `SetPosition` of a file
  position_set : Ptr → ℕ → EfiStatus → Event
  -- `AllocatePages`: the number of pages, and the address or the error; `FreePages`
  pages_allocated : ℕ → Ptr → Event
  pages_refused : ℕ → EfiStatus → Event
  pages_freed : Ptr → ℕ → Event
  -- `GetMemoryMap`, with the key that it gave; `ExitBootServices`, with the key that it was given
  map_read : EfiStatus → ℕ → Event
  exit_called : ℕ → EfiStatus → Event
  -- `SetMode` of a graphics output
  mode_set : Ptr → ℕ → EfiStatus → Event

abbrev pub Events : Type 0
Events = List Event

-- EFI_MEMORY_TYPE by the names that the sources use; any other value is `other_type`.
pub data MemoryType : Type 0 where
  reserved_memory_type loader_code loader_data boot_services_code boot_services_data : MemoryType
  runtime_services_code runtime_services_data conventional_memory unusable_memory : MemoryType
  acpi_reclaim_memory acpi_memory_nvs memory_mapped_io memory_mapped_io_port_space : MemoryType
  pal_code persistent_memory : MemoryType
  other_type : ℕ → MemoryType

-- The fields of EFI_MEMORY_DESCRIPTOR that are read.
pub record MemoryDescriptor : Type 0 where
  pub kind : MemoryType
  pub physical_start : ℕ
  pub number_of_pages : ℕ

-- The ways in which the sources ask `AllocatePages`.
pub data PageRequest : Type 0 where
  any_pages : PageRequest
  max_address at_address : Ptr → PageRequest

-- What `GetMemoryMap` answers: `size` is the size of the map, also where the buffer is too small.
pub record MapAnswer : Type 0 where
  pub status : EfiStatus
  pub size : ℕ
  pub key : ℕ
  pub desc_size : ℕ
  pub desc_ver : ℕ
  pub descs : List MemoryDescriptor

-- The firmware's answers, by the events so far, the newest first.
pub record Firmware : Type 0 where
  -- the macro EFI_ERROR
  pub efi_error : EfiStatus → Bool
  -- the number that EFI_STATUS is
  pub status_number : EfiStatus → ℕ
  pub allocate_pool : Events → ℕ → EfiStatus × Ptr
  pub free_pool : Events → Ptr → EfiStatus
  -- `root->Open(root, &file, path, EFI_FILE_MODE_READ, 0)`
  pub open_file : Events → Ptr → Text → EfiStatus × Ptr
  -- `file->GetInfo(file, &gEfiFileInfoGuid, …)`, and `FileSize`
  pub get_info : Events → Ptr → EfiStatus × ℕ
  -- `file->Read(file, &size, buffer)`: the bytes that are read, at most `size`
  pub read_file : Events → Ptr → ℕ → EfiStatus × List ℕ
  -- `LocateProtocol` of the protocol that writes device paths as text
  pub locate_device_path_to_text : Events → EfiStatus
  -- `LocateHandle` of the file systems: the handles, at most as many as the buffer takes
  pub locate_file_systems : Events → ℕ → EfiStatus × List Ptr
  -- `HandleProtocol` for a handle's device path, and for its file system
  pub device_path : Events → Ptr → EfiStatus × Ptr
  pub file_system : Events → Ptr → EfiStatus × Ptr
  -- `ConvertDevicePathToText`: a text from the pool; NULL is 0
  pub convert_device_path : Events → Ptr → Ptr × Text
  -- `fs->OpenVolume(fs, &root)`
  pub open_volume : Events → Ptr → EfiStatus × Ptr
  -- `file->SetPosition(file, position)`
  pub set_position : Events → Ptr → ℕ → EfiStatus
  -- `file->GetInfo(file, &gEfiFileInfoGuid, &size, NULL)`: the size of the information
  pub get_info_size : Events → Ptr → EfiStatus × ℕ
  -- `AllocatePages` for a number of pages
  pub allocate_pages : Events → PageRequest → ℕ → EfiStatus × Ptr
  -- `GetMemoryMap` with a buffer of a size; without one the size is 0
  pub get_memory_map : Events → ℕ → MapAnswer
  -- `ExitBootServices` with a key
  pub exit_boot_services : Events → ℕ → EfiStatus
