-- ===== src/Sys.antt =====
-- The system call wrappers of mini-libc/src: io, stat, process and stdio.
pub mod Code
pub mod Wrappers
pub mod Puts
mod Tests
