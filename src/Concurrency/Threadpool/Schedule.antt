-- ===== src/Concurrency/Threadpool/Schedule.antt =====
-- cx_threadpool_schedule on the queues of a threadpool.
use cextras.Base.{
  ℕ, ◌+◌, ◌*◌, ◌%◌, ◌<◌, ◌≡◌, refl, Bool, true, false, none, some, List, ◌∷◌, arith, length,
  length-set, get_elem?, word, max_word,
}
use cextras.Memory.Pool
use cextras.Memory.Pool.{Ptr, ptr_eq, Allocator}
use cextras.Memory.Pool.Inv.{Succeeds}
use cextras.Memory.Pool.Fresh.{add, remove, ptr_eq_refl}
use cextras.Memory.Pool.Recycle.{rest, Handed, get-Handed}
use cextras.Concurrency.Threadpool.{Worker, Threadpool, task_free, scan, schedule}
use cextras.Concurrency.Threadpool.Choice.{IsLeast, scan-IsLeast}
use cextras.Concurrency.Threadpool.Queues.{IsThreadpool, task_free-IsThreadpool}
use cextras.Concurrency.Threadpool.NewTask.{
  Calls, Calls-link, with_task, task_new-issued, unheld, unqueued, with_task-IsThreadpool,
}
use cextras.Concurrency.Threadpool.Link.{
  put_at, linked, linked-IsThreadpool, assign_task-locked, assign_task-refused,
}

-- What cx_threadpool_schedule comes to where the mutex of the worker is locked: a task for the call is
-- at the end of a queue that is no longer than any other, and no other task changes.
pub record Scheduled (tp : Threadpool) (held : Ptr → Bool) (recycled : List Ptr)
    (queues : ℕ → List Ptr) (function arg : ℕ) (tp' : Threadpool) : Type 0 where
  pub task : Ptr
  pub index : ℕ
  pub worker : Worker
  pub there : get_elem? tp.workers index ≡ some worker
  pub least : IsLeast worker.queue_length tp.workers
  pub unheld : held task ≡ false
  pub valid : IsThreadpool tp' (add task held) (rest recycled) (put_at queues index task)
  pub calls : Calls tp'.tasks task function arg
  pub others :
      (t : Ptr) → ptr_eq t task ≡ false → Calls tp'.tasks t (tp.tasks t).function (tp.tasks t).arg
  pub count : length tp'.workers ≡ length tp.workers
  pub active : tp'.active_tasks ≡ (tp.active_tasks + 1) % word

-- And where it is not: the task was given back, and the queues are as before.
pub record Refused (tp : Threadpool) (held : Ptr → Bool) (recycled : List Ptr)
    (queues : ℕ → List Ptr) (tp' : Threadpool) : Type 0 where
  pub task : Ptr
  pub unheld : held task ≡ false
  pub valid : IsThreadpool tp' (remove task (add task held)) (task ∷ rest recycled) queues
  pub workers : tp'.workers ≡ tp.workers
  pub active : tp'.active_tasks ≡ tp.active_tasks

abbrev pub Outcome :
    Bool → Threadpool → (Ptr → Bool) → List Ptr → (ℕ → List Ptr) → ℕ → ℕ → Threadpool → Type 0
Outcome true tp held recycled queues function arg = Scheduled tp held recycled queues function arg
Outcome false tp held recycled queues function arg = Refused tp held recycled queues

-- The call goes through, with that outcome.
abbrev pub HasScheduled :
    Allocator → Bool → Threadpool → (Ptr → Bool) → List Ptr → (ℕ → List Ptr) → ℕ → ℕ → Type 0
HasScheduled h lock_ok tp held recycled queues function arg =
    (tp' : Threadpool) × (schedule h lock_ok tp function arg ≡ some tp')
    × Outcome lock_ok tp held recycled queues function arg tp'

module _ {h : Allocator} {tp : Threadpool} {held : Ptr → Bool} {recycled : List Ptr}
    {queues : ℕ → List Ptr} (s : Succeeds h) (v : IsThreadpool tp held recycled queues)
    (grows : tp.task_pool.chunk_size * 2 < word) (function arg : ℕ) where
  module _ (e : Ptr) (out : Handed tp.task_pool held recycled (Pool.get h tp.task_pool) e) (k : ℕ)
      (w : Worker) (at : get_elem? tp.workers k ≡ some w)
      (chosen : scan tp.workers 0 none max_word ≡ some k) where
    abbrev ready_pool : Threadpool
    ready_pool = with_task v function arg h e out

    mine : add e held e ≡ true
    mine = rw (ptr_eq_refl e) refl

    locked :
        w.queue_length < max_word
        → IsLeast w.queue_length tp.workers
        → HasScheduled h true tp held recycled queues function arg
    unfolding schedule
    locked short least =
        let valid = with_task-IsThreadpool v function arg h e out in
        let gone = unqueued v function arg h e out in
        let ready : (ready_pool.tasks e).next ≡ none = rw (ptr_eq_refl e) refl in
        (
          linked valid e mine gone ready k w,
          rw (task_new-issued v function arg h e out)
              (assign_task-locked valid e mine gone ready k w chosen at),
          record {
            task = e;
            index = k;
            worker = w;
            there = at;
            least = least;
            unheld = unheld v function arg h e out;
            valid = linked-IsThreadpool valid e mine gone ready k w at short;
            calls = Calls-link ready_pool.tasks w.tail e e (record {
              function_is = rw (ptr_eq_refl e) refl;
              arg_is = rw (ptr_eq_refl e) refl;
            });
            others = λ t other.
                Calls-link ready_pool.tasks w.tail e t
                  (record { function_is = rw other refl; arg_is = rw other refl });
            count = length-set tp.workers k _;
            active = refl;
          },
        )

    unlocked : HasScheduled h false tp held recycled queues function arg
    unfolding schedule
    unlocked =
        let valid = with_task-IsThreadpool v function arg h e out in
        let gone = unqueued v function arg h e out in
        let ready : (ready_pool.tasks e).next ≡ none = rw (ptr_eq_refl e) refl in
        (
          task_free ready_pool (some e),
          rw (task_new-issued v function arg h e out)
              (assign_task-refused valid e mine gone ready k w chosen at),
          record {
            task = e;
            unheld = unheld v function arg h e out;
            valid = task_free-IsThreadpool e valid mine gone;
            workers = refl;
            active = refl;
          },
        )

  -- cx_threadpool_schedule in a valid pool, where the allocator does not fail and some queue is
  -- shorter than the largest number: it puts a task for the call, which no other queue or client
  -- has, at the end of a queue that is no longer than any other, counts it as active, changes no
  -- other queue and no other task's call, and the invariant holds. Where the mutex of that queue
  -- cannot be locked, it gives the task back and changes no queue.
  pub schedule-Scheduled :
      (lock_ok : Bool) (i : ℕ) (w : Worker)
      → get_elem? tp.workers i ≡ some w
      → w.queue_length < max_word
      → HasScheduled h lock_ok tp held recycled queues function arg
  unfolding schedule
  schedule-Scheduled lock_ok i w at short =
      let (e, out) = get-Handed recycled s v.pool grows in
      let (k, u, chosen, there, least) = scan-IsLeast tp.workers i w at short in
      by_lock lock_ok e out k u there chosen (omega (arith, least i w at, short)) least
    where
      by_lock :
          (lock_ok : Bool) (e : Ptr)
          → Handed tp.task_pool held recycled (Pool.get h tp.task_pool) e
          → (k : ℕ) (u : Worker) → get_elem? tp.workers k ≡ some u
          → scan tp.workers 0 none max_word ≡ some k
          → u.queue_length < max_word
          → IsLeast u.queue_length tp.workers
          → HasScheduled h lock_ok tp held recycled queues function arg
      by_lock true e out k u there chosen small least = locked e out k u there chosen small least
      by_lock false e out k u there chosen small least = unlocked e out k u there chosen
