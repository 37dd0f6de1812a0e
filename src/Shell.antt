-- ===== src/Shell.antt =====
-- The shell of mini-shell/src.
pub mod Syntax
pub mod Process
pub mod Code
pub mod Run
pub mod Main
pub mod Tidy
pub mod Descriptors
pub mod Kernel
pub mod Refine
pub mod Operators
pub mod Meaning
pub mod Words
pub mod Line
pub mod Tests
