-- ===== src/Memory.antt =====
-- lib/memory and include/cextras/memory.h.
pub mod Pool
pub mod Rc
pub mod Utils
