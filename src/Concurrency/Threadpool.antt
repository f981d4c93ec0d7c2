-- ===== src/Concurrency/Threadpool.antt =====
-- lib/concurrency/threadpool.c: workers with a queue of tasks each.
--
-- Here are the functions as one thread runs them, with the tasks in memory that a preallocation
-- pool gives; Threadpool/System has the threads together. A function of the pthread library that
-- may fail is an argument which says whether it succeeds. The result `none` is undefined behaviour:
-- a division by 0, `__builtin_unreachable`, or a thread joined that was never started.
pub mod Queue
pub mod Choice
pub mod Queues
pub mod Start
pub mod NewTask
pub mod Link
pub mod Schedule
pub mod Take
pub mod System
pub mod Inv
mod Tests
use cextras.Base.{
  ℕ, zero, suc, ◌+◌, ◌-◌, ◌%◌, Bool, true, false, Option, none, some, List, [], ◌∷◌, ◌&&◌, ltb,
  ◌==◌, if◌then◌else◌, get_elem?, set, length, replicate, word, max_word,
}
use cextras.Memory.Pool
use cextras.Memory.Pool.{Ptr, ptr_eq, Allocator, Pool, Freed}

-- `struct CxTask`
pub record Task : Type 0 where
  pub function : ℕ
  pub arg : ℕ
  pub next : Option Ptr

-- `struct CxWorker`, without the thread, the mutex and the condition.
pub record Worker : Type 0 where
  pub head : Option Ptr
  pub tail : Option Ptr
  pub queue_length : ℕ

-- `struct CxThreadpool`; `tasks` is what the memory of the task pool holds.
pub record Threadpool : Type 0 where
  pub workers : List Worker
  pub running : Bool
  pub active_tasks : ℕ
  pub task_pool : Pool
  pub tasks : Ptr → Task

infixl 5 ◌>>=◌
abbrev pub ◌>>=◌ {ℓ κ} : {A : Type ℓ} {B : Type κ} → Option A → (A → Option B) → Option B
none >>= f = none
some a >>= f = f a

abbrev pub assign : (Ptr → Task) → Ptr → Task → Ptr → Task
assign m p t a = if ptr_eq a p then t else m a

-- task_new
pub task_new : Allocator → Threadpool → (function arg : ℕ) → Option Ptr × Threadpool
task_new h tp function arg =
    let (r, pool) = Pool.get h tp.task_pool in
    let tp' = record tp { task_pool = pool } in
    elim r [
      | none ↦ (none, tp')
      | some p ↦ (
        some p,
        record tp' {
          tasks = assign tp.tasks p (record { function = function; arg = arg; next = none });
        },
      )
    ]

-- task_free
abbrev pub task_free : Threadpool → Option Ptr → Threadpool
task_free tp task = record tp { task_pool = Pool.recycle tp.task_pool task }

abbrev pub pop_head : (Ptr → Task) → Worker → Option Ptr → Option Ptr × Worker
pop_head tasks w none = (none, w)
pop_head tasks w (some task) =
    let head = (tasks task).next in
    (
      some task,
      record {
        head = head;
        tail = elim head [ none ↦ none | some t ↦ w.tail ];
        queue_length = (w.queue_length + (word - 1)) % word;
      },
    )

-- worker_get_task
pub worker_get_task : (Ptr → Task) → Worker → Option Ptr × Worker
worker_get_task tasks w = pop_head tasks w w.head

-- The end of a round of worker_find_task: on without a task, or out of the loop.
abbrev pub go_on :
    Threadpool
    → ℕ
    → (Threadpool → Option (Option Ptr × Threadpool))
    → Option Ptr × Worker
    → Option (Option Ptr × Threadpool)
go_on tp k rest (none, w) = rest (record tp { workers = set tp.workers k w })
go_on tp k rest (some t, w) = some (some t, record tp { workers = set tp.workers k w })

-- The loop of worker_find_task, with the rounds that are left.
pub find_from : (rounds i worker_index : ℕ) → Threadpool → Option (Option Ptr × Threadpool)
unfolding worker_get_task
find_from zero i worker_index tp = some (none, tp)
find_from (suc n) i worker_index tp =
    let k = (i + worker_index) % length tp.workers in
    get_elem? tp.workers k >>= λ candidate.
    go_on tp k (find_from n (i + 1) worker_index) (worker_get_task tp.tasks candidate)

-- worker_find_task
pub worker_find_task : ℕ → Threadpool → Option (Option Ptr × Threadpool)
unfolding find_from
worker_find_task worker_index tp = find_from (length tp.workers) 0 worker_index tp

-- The scan of cx_threadpool_schedule for the shortest queue: the candidate so far and its length.
pub scan : List Worker → (i : ℕ) → Option ℕ → (min_queue_length : ℕ) → Option ℕ
scan [] i worker min_queue_length = worker
scan (candidate ∷ rest) i worker min_queue_length =
    let shorter = ltb candidate.queue_length min_queue_length in
    scan rest (i + 1) (if shorter then some i else worker)
      (if shorter then candidate.queue_length else min_queue_length)

abbrev pub link : (Ptr → Task) → Option Ptr → Ptr → Ptr → Task
link tasks none task = tasks
link tasks (some t) task = assign tasks t (record (tasks t) { next = some task })

-- The part of cx_threadpool_schedule that links the task into the worker's queue.
pub enqueue : (Ptr → Task) → Worker → Ptr → (Ptr → Task) × Worker
enqueue tasks w task = (
  link tasks w.tail task,
  record {
    head = elim w.tail [ none ↦ some task | some t ↦ w.head ];
    tail = some task;
    queue_length = (w.queue_length + 1) % word;
  },
)

-- cx_threadpool_schedule after task_new; the Boolean says whether the worker's mutex was locked.
pub assign_task : Bool → Threadpool → Option Ptr → Option Threadpool
unfolding scan enqueue
assign_task lock_ok tp none = some tp
assign_task lock_ok tp (some task) = scan tp.workers 0 none max_word >>= λ k.
    get_elem? tp.workers k >>= λ worker.
    let (tasks, worker') = enqueue tp.tasks worker task in
    if lock_ok
    then some (record tp {
      tasks = tasks;
      workers = set tp.workers k worker';
      active_tasks = (tp.active_tasks + 1) % word;
    })
    else some (task_free tp (some task))

-- cx_threadpool_schedule, which returns 0 always.
pub schedule : Allocator → Bool → Threadpool → (function arg : ℕ) → Option Threadpool
unfolding task_new assign_task
schedule h lock_ok tp function arg =
    let (task, tp') = task_new h tp function arg in assign_task lock_ok tp' task

abbrev pub all_ok : ℕ → (ℕ → Bool) → Bool
all_ok zero ok = true
all_ok (suc n) ok = ok n && all_ok n ok

-- cx_threadpool_init, which returns 0 always: a failure of worker_init or worker_start cleans up, and
-- worker_cleanup then joins a thread that was not started; after a failure of `calloc` it reads
-- through NULL. The arguments say whether `calloc`, worker_init and worker_start succeed; `size` is
-- the size of a task.
abbrev pub init :
    (calloc_ok : Bool)
    → (inits starts : ℕ → Bool) → (cpu_count worker_count size : ℕ) → (Ptr → Task)
    → Option Threadpool
init calloc_ok inits starts cpu_count worker_count size memory =
    let n = if worker_count == 0 then cpu_count else worker_count in
    if calloc_ok && (all_ok n inits && all_ok n starts)
    then (Pool.init size >>= λ task_pool. some (record {
      workers = replicate n (record { head = none; tail = none; queue_length = 0 });
      running = true;
      active_tasks = 0;
      task_pool = task_pool;
      tasks = memory;
    }))
    else none

-- cx_threadpool_cleanup, which returns 0: the workers are told to stop, joined and freed, and then the
-- chunks of the task pool are. The second result is what of it.
abbrev pub cleanup : Threadpool → Option (Threadpool × Freed)
cleanup tp =
    Pool.cleanup tp.task_pool >>= λ freed. some (record tp { running = false; workers = [] }, freed)
