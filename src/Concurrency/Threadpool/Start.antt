-- ===== src/Concurrency/Threadpool/Start.antt =====
-- A threadpool that was just initialised, and one that is cleaned up.
use cextras.Base.{
  ℕ, zero, suc, ◌*◌, ◌<◌, ◌≤◌, le→leb, is_some, ◌≡◌, refl, Bool, true, false, none, some, List, [],
  arith, replicate, length, get_elem?, get_elem?→lt, get_elem?-replicate, length-replicate,
  if◌then◌else◌, ◌==◌, word,
}
use cextras.Memory.Pool
use cextras.Memory.Pool.{Ptr}
use cextras.Memory.Pool.Failure.{numbers, zeroed-IsValid, cleanup-numbers}
use cextras.Concurrency.Threadpool.{Task, Worker, Threadpool, all_ok, init, cleanup}
use cextras.Concurrency.Threadpool.Queues.{IsThreadpool}

all_ok-true : (n : ℕ) → all_ok n (λ i. true) ≡ true
all_ok-true zero = refl
all_ok-true (suc n) = all_ok-true n

module _ (cpu_count worker_count size : ℕ) (memory : Ptr → Task) where
  abbrev pub count : ℕ
  count = if worker_count == 0 then cpu_count else worker_count

  abbrev idle : Worker
  idle = record { head = none; tail = none; queue_length = 0 }

  abbrev fresh_pool : Threadpool
  fresh_pool = record {
    workers = replicate count idle;
    running = true;
    active_tasks = 0;
    task_pool = Pool.zeroed 8 size;
    tasks = memory;
  }

  idle-at : (k : ℕ) (w : Worker) → get_elem? (replicate count idle) k ≡ some w → w ≡ idle
  idle-at k w at =
      let below = get_elem?→lt (replicate count idle) k w at in
      let there = get_elem?-replicate count k idle (rw (length-replicate count idle) at below) in cc

  pub fresh_pool-IsThreadpool :
      0 < size → 8 * size < word → IsThreadpool fresh_pool (λ e. false) [] (λ k. [])
  fresh_pool-IsThreadpool pos small = record {
    pool = zeroed-IsValid 8 size (omega arith) pos small;
    queue = λ k w at.
        rw (idle-at k w at)
          (record { links = refl; tail = refl; distinct = tt; queue_length = refl });
    small = λ k w at. rw (idle-at k w at) (omega arith);
    owned = λ k t there. cc;
    disjoint = λ j k t at_j at_k. cc;
  }

  -- cx_threadpool_init, where every call that it makes succeeds and a task has room for a pointer, gives as many workers as it is asked
  -- for, or as there are processors, with empty queues, and a valid pool.
  init-fresh_pool :
      8 ≤ size
      → (init true (λ i. true) (λ i. true) cpu_count worker_count size memory ≡ some fresh_pool)
        × (length fresh_pool.workers ≡ count)
  init-fresh_pool room =
      (rw (all_ok-true count, le→leb 8 size room) refl, length-replicate count idle)

-- cx_threadpool_cleanup of a valid pool frees each chunk of the task pool exactly once and its array, whatever tasks
-- are still in the queues.
cleanup_lem :
    {tp : Threadpool} {held : Ptr → Bool} {recycled : List Ptr} {queues : ℕ → List Ptr}
    → IsThreadpool tp held recycled queues
    → cleanup tp
      ≡ some (
        record tp { running = false; workers = [] },
        record {
          freed_chunks = numbers tp.task_pool.pool_count 1;
          freed_array = is_some tp.task_pool.pools;
        },
      )
cleanup_lem v = rw (cleanup-numbers v.pool) refl
