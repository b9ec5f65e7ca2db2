-- ===== src/Lib.antt =====
-- wboot, a UEFI boot loader for Linux built in three phases: models of its C code, and theorems on them.
--
-- The parts of the program. src/phase1 is a program that prints a greeting; src/phase2 loads a
-- kernel with fixed names and reports on it; src/phase3, the boot loader, reads `wboot.conf`, loads
-- the kernel and the initial file system, fills the kernel's boot parameters in, leaves boot
-- services and jumps to the kernel. Phases 2 and 3 stand on src/shared/wstdlib.c, a small C library
-- over the firmware.
--
-- What is modelled, and where:
--   Stdlib/Text      the text functions of src/shared/wstdlib.c: `strlen8`, `strcmp`, `strcmp8`,
--                    `strncmp`, `strchr`, `strtok_r`, `strtoul`. A text is the list of its units
--                    in front of the NUL. `strtok_r` cuts a text where it writes a NUL: the part
--                    in front is the token, and `*saveptr` is the part behind.
--   Stdlib/Memory    `memcpy`, `memset`, `memmove`: a memory is a function from addresses.
--   Stdlib/Printf    `printf` with its buffer of 1024 units, a console with what is pending and
--                    what went to the serial port. `none` is a run without a meaning in C: a
--                    write past the buffer, a read past the format, a missing argument.
--   Stdlib/Alloc     `malloc`, `free`, `calloc`, `strdup8`, `perror`, `strerror`, `errno`, as actions
--                    on a machine that records what the firmware was asked and what it answered.
--   Efi              the firmware: EFI_STATUS, the services as a record of answers that may depend
--                    on all that happened before. Efi/Files has the file protocol's calls, Efi/Pages
--                    those for pages, Efi/Maps those for the memory map, Efi/Uefi what is promised.
--   Config           the values of src/phase3/wboot_config.c: `is_ws`, `trim_trailing_ws`,
--                    `parse_u32`, `parse_mode_format`, `strdup8_to16`; Config/Line has
--                    `parse_config_mode` and `parse_config_line`, Config/Load
--                    `wboot_load_config` from the first `malloc` to the last `free`.
--   Config/Locate    `wboot_locate_config`: the search over the volumes.
--   Memmap           `wboot_translate_memmap` and `add_e820ext` of src/phase3/wboot.c: the table of
--                    the boot parameters and the extended one, newest entry first, and the linked
--                    list of setup data as a store of nodes.
--   Kernel           `wboot_get_kernel_entry` of src/phase3/wboot.c, on a memory of bytes; the headers
--                    are read from the memory as it is at each read, behind the copies too.
--   Linux            the structs of src/shared/linux.h: `setup_header_t` from its 123 bytes, and
--                    `boot_params_t` without its padding. Linux/Layout is an independent account of
--                    the layout: the bytes that the fields stand for.
--   Loader           src/phase3/wboot.c from `wboot_open_kernel` to `wboot_exit_bs`, one child for
--                    each function: Header, Decompress, Initramfs, BootParams, AllocateE820,
--                    ExitBs. Each early return is a definition of its own, as deep in the source as
--                    the code behind it.
--   Graphics         src/phase3/wboot_graphics.c: Bits (`find_bits`, `pixel_bpp`), Mode (the choice
--                    of the mode), Primary (the choice of the display), Screen (`screen_info_t` and
--                    the EDID), Setup (`wboot_setup_graphics`). What the displays answer is a
--                    record, as the firmware is.
--   Main             `efi_main` of src/phase3/main.c, up to the label `exit`. The hand-off has the boot
--                    parameters as the translation of the memory map leaves them.
--   Phase2           src/phase2/wboot.c: Locate (`wboot_locate_kernel`), Header
--                    (`wboot_read_setup_header`, `wboot_dump_setup_header`), Initramfs
--                    (`wboot_load_initramfs`).
--   Prelude          names of the library, Boolean tests, lists measured by native numbers.
--   Examples         the theorems at concrete inputs, and runs of the models.
--
-- How they interact: a line of the configuration is cut by `strtok_r`, its numbers are read by
-- `strtoul`, its texts copied by `malloc` and freed when the line is given again, and a failure is
-- reported by `printf`. `efi_main` calls the loader's functions one after the other and stops at
-- the first error; the size that `wboot_allocate_e820` computes is what `wboot_translate_memmap`
-- needs behind `wboot_exit_bs`. The loader composes them in the order of the source; in its machine a
-- call of `printf` is one event with its format and arguments, and Stdlib/Printf says what it does.
--
-- Bounds and fuel: a UINTN is a number below 2 ^ 64, and every product and sum of the source that
-- can wrap keeps its remainder. The loops over the digits of a word take 65 rounds, one more than
-- the binary digits of a word, and each round divides by 10 or 16. The loop over the lines takes
-- the length of the file and one more, since each call of `strtok_r` leaves a shorter text. The
-- walk over the setup data takes as many rounds as its caller gives, and the loop over the segments
-- 65536, more than any `e_phnum` of 16 bits. The loop over a display's modes and that over the
-- handles are structural.
--
-- Not modelled: the wait for the serial port, the console's keys (`read_char`), the jump of
-- src/phase3/wboot_handoff.s, which is assembly, phase 1, and of phase 2 `efi_main` and
-- `wboot_decompress_kernel`. The firmware, gnu-efi and zstd are parameters; what a theorem asks of
-- them is in Efi/Uefi (`IsUefi`) and Loader/Decompress/Elf (`IsZstd`).
pub mod Prelude
pub mod Stdlib
pub mod Efi
pub mod Config
pub mod Graphics
pub mod Kernel
pub mod Linux
pub mod Loader
pub mod Main
pub mod Memmap
pub mod Phase2
pub mod Examples
