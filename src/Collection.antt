-- ===== src/Collection.antt =====
-- lib/collection and include/cextras/collection.h.
pub mod RadixTree
pub mod RcRadixTree
pub mod RcMap
pub mod Lru
pub mod Buffer
pub mod RcHashMap
pub mod Collector
