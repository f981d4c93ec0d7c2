-- ===== src/Concurrency/Threadpool/Tests.antt =====
-- Two workers and a few tasks.
use cextras.Base.{◌≤◌, ◌≡◌, refl, true, false, none, [], arith, count, replicate}
use cextras.Memory.Pool
use cextras.Memory.Pool.{Ptr, Allocator}
use cextras.Memory.Pool.Inv.{Succeeds}
use cextras.Memory.Pool.Fresh.{add}
use cextras.Concurrency.Threadpool.{Task, Threadpool, worker_find_task}
use cextras.Concurrency.Threadpool.Queues.{IsThreadpool}
use cextras.Concurrency.Threadpool.Start.{fresh_pool-IsThreadpool}
use cextras.Concurrency.Threadpool.Link.{put_at}
use cextras.Concurrency.Threadpool.Schedule.{HasScheduled, schedule-Scheduled}
use cextras.Concurrency.Threadpool.Take.{Taken, worker_find_task-Taken}
use cextras.Concurrency.Threadpool.System.{
  State, Step, take, call, finish, start, Reach, here, next, MayReturn, running_task, finishing,
}
use cextras.Concurrency.Threadpool.System as System
use cextras.Concurrency.Threadpool.Inv.{Reach-done}

abbrev good : Allocator
good = record { realloc_ok = λ n. true; calloc_ok = λ n. true }

good-Succeeds : Succeeds good
good-Succeeds = record { realloc = λ n. refl; calloc = λ n. refl }

abbrev memory : Ptr → Task
memory p = record { function = 0; arg = 0; next = none }

-- Two workers with nothing to do.
abbrev pair : Threadpool
pair = record {
  workers = replicate 2 (record { head = none; tail = none; queue_length = 0 });
  running = true;
  active_tasks = 0;
  task_pool = Pool.zeroed 8 24;
  tasks = memory;
}

pair-IsThreadpool : IsThreadpool pair (λ e. false) [] (λ k. [])
pair-IsThreadpool = fresh_pool-IsThreadpool 4 2 24 memory (omega arith) (omega arith)

schedule-Scheduled_example : HasScheduled good true pair (λ e. false) [] (λ k. []) 5 6
schedule-Scheduled_example =
    schedule-Scheduled good-Succeeds pair-IsThreadpool (omega arith) 5 6 true 1
      (record { head = none; tail = none; queue_length = 0 }) refl (omega arith)

-- The pool with that task.
busy : HasScheduled good true pair (λ e. false) [] (λ k. []) 5 6
busy =
    schedule-Scheduled good-Succeeds pair-IsThreadpool (omega arith) 5 6 true 1
      (record { head = none; tail = none; queue_length = 0 }) refl (omega arith)

worker_find_task-Taken_example :
    Taken busy.0
      (add busy.2.task (λ e. false))
      []
      (put_at (λ k. []) busy.2.index busy.2.task)
      (worker_find_task 1 busy.0)
worker_find_task-Taken_example = worker_find_task-Taken busy.2.valid 1 (omega (arith, busy.2.count))

-- Task 7 is scheduled, taken and called, and its worker is about to count it off.
called : (s : State) × Reach 2 s × (s.places 1 ≡ finishing 7) × (count 7 s.done ≡ 1)
called = (
  _,
  next
      (next (next here (System.schedule 0 7 (omega arith)))
        (take 1 0 7 [] (omega arith) (omega arith) refl refl))
      (call 1 7 (omega arith) refl),
  refl,
  refl,
)

Reach-done_example :
    (count 7 called.0.done ≤ count 7 called.0.scheduled)
    × (MayReturn called.0 → count 7 called.0.done ≡ count 7 called.0.scheduled)
unfolding called
Reach-done_example = Reach-done called.1 (omega arith) 7
