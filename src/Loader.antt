-- ===== src/Loader.antt =====
-- src/phase3/wboot.c, but for the translation of the memory map and the kernel's segments.
pub mod Header
pub mod Decompress
pub mod Initramfs
pub mod BootParams
pub mod AllocateE820
pub mod ExitBs
