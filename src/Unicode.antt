-- ===== src/Unicode.antt =====
-- lib/unicode and include/cextras/unicode.h.
pub mod Utf8
pub mod Width
pub mod Codegen
