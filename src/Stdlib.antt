-- ===== src/Stdlib.antt =====
-- src/shared/wstdlib.c, a module for each family of functions.
pub mod Text
pub mod Memory
pub mod Printf
pub mod Alloc
