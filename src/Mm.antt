-- ===== src/Mm.antt =====
-- The memory functions of mini-libc/src/mm.
pub mod State
pub mod Code
pub mod Find
pub mod Update
pub mod Mappings
pub mod Holds
pub mod Malloc
pub mod Cleanup
mod Tests
