-- ===== src/Examples.antt =====
-- The theorems at concrete inputs, and runs of the models of src/shared and src/phase3.
pub mod Text
pub mod Printf
pub mod Config
pub mod Memmap
pub mod Kernel
pub mod Graphics
pub mod Loader
