-- ===== src/Guest.antt =====
-- Putting a 32-bit image where the recompiled code expects one: src/runtime/guest.c.
pub mod Image
pub mod Fingerprint
pub mod Snapshot
pub mod Imports
pub mod Tests
