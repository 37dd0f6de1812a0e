-- ===== src/CString.antt =====
-- The string functions of mini-libc/src/string/string.c.
pub mod Code
pub mod Str
pub mod Copy
pub mod Compare
pub mod Search
pub mod Find
pub mod Tests
