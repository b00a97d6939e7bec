-- ===== src/Allnet.antt =====
-- The ALL.Net server and the calls that lead the game to it: src/runtime/allnet.c.
pub mod Reply
pub mod Request
pub mod Names
pub mod Link
pub mod Tests
