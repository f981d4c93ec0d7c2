-- ===== src/Lib.antt =====
-- cextras, a C library of containers, memory helpers, concurrency primitives and UTF-8 functions.
--
-- Files and what they model:
--   * Memory/Pool: lib/memory/prealloc_pool.c. An address is a chunk number and an offset; `get`
--     is cx_prealloc_pool_get, `recycle` cx_prealloc_pool_recycle, `cleanup`
--     cx_prealloc_pool_cleanup; a failed assertion of cx_prealloc_pool_init2 is `none`. The
--     answers of realloc and calloc are the parameter `Allocator`.
--   * Memory/Rc: lib/memory/rc.c; a run of several threads is a list of atomic operations.
--   * Memory/Utils: lib/memory/utils.c over a parameter calloc.
--   * Collection/RadixTree: lib/collection/radix_tree.c over two pools, one for branches and one
--     for leaves. `get`, `new_leaf`, `put` and `delete` are the functions cx_radix_tree_*. A
--     result `none` stands for undefined behaviour.
--   * Collection/RcRadixTree: lib/collection/rc_radix_tree.c over the radix tree; the cleanup
--     callback is the list of its arguments.
--   * Collection/RcMap: lib/collection/rc_map.c, an array of elements with a counter each.
--     `insert` is cx_rc_map_set; pointers are addresses.
--   * Collection/RcHashMap: lib/collection/rc_hash_map.c over layers of RcMap. `probe` is the pair
--     of loops that cx_rc_hash_map_put, cx_rc_hash_map_retain and cx_rc_hash_map_release_key
--     share, with its test as an argument. The answers of realloc and calloc are the parameter
--     `Memory`.
--   * Collection/Lru: lib/collection/lru.c. `Backend` is struct CxLruBackendImpl over an abstract
--     state, and Lru/Refs has `Counting`, what the LRU needs of it. Lru/OverMap, Lru/OverTree and
--     Lru/OverHashMap are the three backends, cx_lru_rc_map, cx_lru_rc_radix_tree and
--     cx_lru_rc_hash_map, and fill that interface; Lru/Order reads the ring as a queue, and
--     Lru/Session is the life of an LRU from cx_lru_init to cx_lru_cleanup.
--   * Collection/Buffer: lib/collection/buffer.c. `Machine` has realloc and __builtin_clzll, whose
--     documented behaviour the records Reallocates and CountsZeros state.
--   * Collection/Collector: lib/collection/collector.c over two buffers. The callback and its
--     iterator are a function on a state, and pointers are the words that the block holds.
--   * Unicode/Utf8: lib/unicode/utf8.c and lib/unicode/utf16.c over the tables that
--     lib/unicode/codegen/byte_size.c prints. Encode has the encoding of RFC 3629, which the
--     functions are compared with.
--   * Unicode/Width: lib/unicode/unicode-width.c over generated tables; `cp_width` is cx_cp_width,
--     `cols` cx_utf8_cols, `colidx` cx_utf8_colidx.
--   * Unicode/Codegen: lib/unicode/codegen/char_width.c, which generates those tables. The file
--     takes the ranges that parse_range reads, and the printed text is the arrays that it defines;
--     Codegen/Parse has parse_range and main, over lines of characters, with strtok and sscanf as
--     the C standard describes them.
--   * Concurrency/Threadpool: lib/concurrency/threadpool.c. The file has the functions as one
--     thread runs them over linked queues of tasks; Threadpool/Queues has the invariant of all
--     queues and the task pool together, which Schedule and Take keep; Threadpool/System has
--     clients and workers together, as a step relation over queues of numbers.
--   * Concurrency/Future: lib/concurrency/future.c, the threads that wait for a value and resolve
--     it, as a step relation; the pthread calls behave as their documentation says. `Destroy` says
--     where cx_future_destroy is defined.
--   * Concurrency/Semaphore: lib/concurrency/semaphore.c, in the same way, with the failures of
--     the pthread calls.
--   * Base: Boolean tests, lists, 64-bit words and their bytes over the native numbers.
--
-- How they interact: the radix tree takes branches and leaves from two pools and recycles them
-- there, the reference-counted tree keeps its counters in the leaves of a radix tree, the hash map
-- is made of reference-counted arrays, and the LRU calls its backend, which is one of the
-- reference-counted containers. The collector appends to two buffers and joins them. The
-- threadpool takes its tasks from a pool. The widths of a string are found character by character
-- with the UTF-8 functions, in the tables that the generator prints. The counter, the future and
-- the semaphore stand alone.
--
-- Bounds and fuel. `size_t` and `uint64_t` have 64 bits, `int` and `uint32_t` have 32; a result
-- that an `int` cannot hold is undefined and comes as `none`. The loops over the levels of a radix
-- tree run on fuel: the capacity is a word, and each round shifts it by 8 bits, so that 9 rounds
-- reach capacity 0 and 8 rounds of resize reach the largest capacity. The loops of the UTF-8
-- functions have one round of fuel more than the string has bytes, and each round moves on by a
-- byte at least; so have the loops over the columns of a string. worker_find_task has one round
-- for each worker, and the probing of the hash map has as many rounds as its loops count. The loop
-- of cx_collect has a round for each value and one for the end of the iterator.
--
-- Not modelled: failures of calloc and of the functions on files in the generator;
-- lib/unicode/codegen/char_info.c, a near-copy of the generator that no build file names. Code
-- under `#if 0` is not compiled.
pub mod Base
pub mod Memory
pub mod Unicode
pub mod Concurrency
pub mod Collection
