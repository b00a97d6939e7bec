-- ===== src/Loader64.antt =====
-- The 64-bit loader: src/runtime64/loader64.c.
pub mod Image
pub mod Relocations
pub mod Tests
