-- ===== src/Concurrency.antt =====
-- lib/concurrency and include/cextras/concurrency.h.
pub mod Threadpool
pub mod Family
pub mod Future
pub mod Semaphore
