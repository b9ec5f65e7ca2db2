-- ===== src/Phase2.antt =====
-- The loader of src/phase2/wboot.c, an earlier form of that of src/phase3/wboot.c: the search for the
-- kernel, its header, and the initial file system, which goes to a buffer of the pool.
pub mod Header
pub mod Initramfs
pub mod Locate
