-- ===== src/Concurrency/Threadpool/System.antt =====
-- The threads of a pool together: any number of clients that schedule tasks and wait, and the
-- workers, in any order of steps.
--
-- A queue is a list of tasks, which Threadpool/Queue shows the linked tasks to be; a task is a
-- number. What a thread does while it holds the mutex of a queue is one step, and so is each access
-- to an atomic counter elsewhere. The calls of pthread_cond_wait and pthread_cond_signal only decide
-- when a thread tries again: a worker may try at any time.
use cextras.Base.{ℕ, ◌+◌, ◌-◌, ◌%◌, word, ◌<◌, ◌≡◌, Bool, true, false, List, [], ◌∷◌, ◌++◌}
use cextras.Concurrency.Family.{update}

-- Where a worker stands in worker_run.
pub data Place : Type 0 where
  looking : Place  -- head of the loop, worker_find_task or worker_wait_for_task
  running_task : (task : ℕ) → Place  -- before the call of the function has returned
  finishing : (task : ℕ) → Place  -- before it takes one off active_tasks
  stopped : Place

-- `scheduled` and `done` are the history: the tasks scheduled so far, and those whose function has
-- returned.
pub record State : Type 0 where
  pub queues : ℕ → List ℕ
  pub active_tasks : ℕ
  pub running : Bool
  pub places : ℕ → Place
  pub scheduled : List ℕ
  pub done : List ℕ

pub data Step (worker_count : ℕ) (s : State) : State → Type 0 where
  -- cx_threadpool_schedule puts the task at the end of a queue and counts it.
  schedule :
      (k task : ℕ)
      → k < worker_count
      → Step worker_count s (record s {
        queues = update s.queues k (s.queues k ++ (task ∷ []));
        active_tasks = (s.active_tasks + 1) % word;
        scheduled = task ∷ s.scheduled;
      })
  -- Worker `i` takes the first task of some queue.
  take :
      (i k task : ℕ) (rest : List ℕ)
      → i < worker_count
      → k < worker_count
      → s.places i ≡ looking
      → s.queues k ≡ task ∷ rest
      → Step worker_count s (record s {
        queues = update s.queues k rest;
        places = update s.places i (running_task task);
      })
  -- `task->function(task->arg)` returns.
  call :
      (i task : ℕ)
      → i < worker_count
      → s.places i ≡ running_task task
      → Step worker_count s
          (record s { places = update s.places i (finishing task); done = task ∷ s.done })
  -- The worker takes the task off the count.
  finish :
      (i task : ℕ)
      → i < worker_count
      → s.places i ≡ finishing task
      → Step worker_count s (record s {
        places = update s.places i looking;
        active_tasks = (s.active_tasks + (word - 1)) % word;
      })
  -- cx_threadpool_cleanup
  stop : Step worker_count s (record s { running = false })
  -- The worker leaves its loop.
  leave :
      (i : ℕ)
      → i < worker_count
      → s.places i ≡ looking
      → s.running ≡ false
      → Step worker_count s (record s { places = update s.places i stopped })

abbrev pub start : State
start = record {
  queues = λ k. [];
  active_tasks = 0;
  running = true;
  places = λ i. looking;
  scheduled = [];
  done = [];
}

pub data Reach (worker_count : ℕ) : State → Type 0 where
  here : Reach worker_count start
  next : {s t : State} → Reach worker_count s → Step worker_count s t → Reach worker_count t

-- cx_threadpool_wait returns in a state where it reads 0.
abbrev pub MayReturn : State → Type 0
MayReturn s = s.active_tasks ≡ 0
