-- ===== src/Concurrency/Threadpool/Inv.antt =====
-- Every task that was scheduled is counted, and is in one place.
use cextras.Base.{
  ℕ, ◌+◌, ◌≤◌, ◌<◌, ◌≡◌, refl, [], ◌∷◌, ◌++◌, arith, ◌==◌, if◌then◌else◌, length, length-append,
  count, word, count-append, count-le-length,
}
use cextras.Concurrency.Family.{update, total, total-update, total-zero, total-ge, total_mono}
use cextras.Concurrency.Threadpool.System.{
  Place, looking, running_task, finishing, stopped, State, Step, schedule, take, call, finish, stop,
  leave, start, Reach, here, next, MayReturn,
}

-- Whether a worker has a task that active_tasks counts.
abbrev busy : Place → ℕ
busy looking = 0
busy (running_task t) = 1
busy (finishing t) = 1
busy stopped = 0

-- Whether a worker has the task `a`, whose function has not returned.
abbrev holds : ℕ → Place → ℕ
holds a looking = 0
holds a (running_task t) = if t == a then 1 else 0
holds a (finishing t) = 0
holds a stopped = 0

holds-le-busy : (a : ℕ) (p : Place) → holds a p ≤ busy p
holds-le-busy a looking = omega arith
holds-le-busy a (running_task t) = ground arith
holds-le-busy a (finishing t) = omega arith
holds-le-busy a stopped = omega arith

-- The tasks that active_tasks stands for: those in the queues and those of the workers.
abbrev open_tasks : ℕ → State → ℕ
open_tasks n s = total length n s.queues + total busy n s.places

-- active_tasks counts the open tasks, as far as a word can, and every task is in a queue, with a
-- worker or done as often as it was scheduled.
pub record Inv (n : ℕ) (s : State) : Type 0 where
  pub active : length s.scheduled < word → s.active_tasks ≡ open_tasks n s
  pub bounded : open_tasks n s ≤ length s.scheduled
  pub tasks :
      (a : ℕ)
      → count a s.scheduled
        ≡ count a s.done + total (count a) n s.queues + total (holds a) n s.places

Inv-start : (n : ℕ) → Inv n start
Inv-start n = record {
  active = λ small. omega (
    arith,
    total-zero (length {A = ℕ}) n (λ k. []) (λ i h. refl),
    total-zero busy n (λ i. looking) (λ i h. refl),
  );
  bounded = omega (
    arith,
    total-zero (length {A = ℕ}) n (λ k. []) (λ i h. refl),
    total-zero busy n (λ i. looking) (λ i h. refl),
  );
  tasks = λ a. omega (
    arith,
    total-zero (count a) n (λ k. []) (λ i h. refl),
    total-zero (holds a) n (λ i. looking) (λ i h. refl),
  );
}

-- How a step changes the number of open tasks.
opened :
    (n : ℕ) (s : State) (k task : ℕ)
    → k < n
    → total length n (update s.queues k (s.queues k ++ (task ∷ []))) ≡ total length n s.queues + 1
opened n s k task h = omega (
  arith,
  total-update length n s.queues k (s.queues k ++ (task ∷ [])) h,
  length-append (s.queues k) (task ∷ []),
)

pub Step-Inv : {n : ℕ} {s t : State} → Step n s t → Inv n s → Inv n t
Step-Inv {n} {s} (schedule k task h) inv =
    let xs = s.queues k ++ (task ∷ []) in
    let more = opened n s k task h in
    record {
      active = λ small. omega (arith, inv.active (omega arith), inv.bounded, more);
      bounded = omega (arith, inv.bounded, more);
      tasks = λ a. ground (
        arith,
        inv.tasks a,
        total-update (count a) n s.queues k xs h,
        count-append a (s.queues k) (task ∷ []),
      );
    }
Step-Inv {n} {s} (take i k task rest h h' p q) inv = record {
  active = λ small. omega (
    arith,
    inv.active small,
    rw q at (total-update length n s.queues k rest h'),
    rw p at (total-update busy n s.places i (running_task task) h),
  );
  bounded = omega (
    arith,
    inv.bounded,
    rw q at (total-update length n s.queues k rest h'),
    rw p at (total-update busy n s.places i (running_task task) h),
  );
  tasks = λ a. ground (
    arith,
    inv.tasks a,
    rw q at (total-update (count a) n s.queues k rest h'),
    rw p at (total-update (holds a) n s.places i (running_task task) h),
  );
}
Step-Inv {n} {s} (call i task h p) inv = record {
  active = λ small.
      omega (arith, inv.active small, rw p at (total-update busy n s.places i (finishing task) h));
  bounded = omega (arith, inv.bounded, rw p at (total-update busy n s.places i (finishing task) h));
  tasks = λ a.
      ground (arith, inv.tasks a, rw p at (total-update (holds a) n s.places i (finishing task) h));
}
Step-Inv {n} {s} (finish i task h p) inv = record {
  active = λ small.
      let one_less = rw p at (total-update busy n s.places i looking h) in
      omega (arith, inv.active small, inv.bounded, one_less);
  bounded = omega (arith, inv.bounded, rw p at (total-update busy n s.places i looking h));
  tasks = λ a. omega (arith, inv.tasks a, rw p at (total-update (holds a) n s.places i looking h));
}
Step-Inv stop inv = record { active = inv.active; bounded = inv.bounded; tasks = inv.tasks }
Step-Inv {n} {s} (leave i h p r) inv = record {
  active =
      λ small. omega (arith, inv.active small, rw p at (total-update busy n s.places i stopped h));
  bounded = omega (arith, inv.bounded, rw p at (total-update busy n s.places i stopped h));
  tasks = λ a. omega (arith, inv.tasks a, rw p at (total-update (holds a) n s.places i stopped h));
}

pub Reach-Inv : {n : ℕ} {s : State} → Reach n s → Inv n s
Reach-Inv {n} here = Inv-start n
Reach-Inv (next r st) = Step-Inv st (Reach-Inv r)

-- In every state that the threads reach, with fewer tasks scheduled so far than a `size_t` can count,
-- no task has been run more often than it was scheduled; and where cx_threadpool_wait may return,
-- every task has been run as often as it was scheduled.
pub Reach-done :
    {n : ℕ} {s : State}
    → Reach n s
    → length s.scheduled < word
    → (a : ℕ)
    → (count a s.done ≤ count a s.scheduled) × (MayReturn s → count a s.done ≡ count a s.scheduled)
Reach-done {n} {s} r small a =
    let inv = Reach-Inv r in
    (
      omega (arith, inv.tasks a),
      λ zero_active. omega (
        arith,
        inv.tasks a,
        inv.active small,
        zero_active,
        total_mono (count a) length n s.queues (count-le-length a),
        total_mono (holds a) busy n s.places (holds-le-busy a),
      ),
    )

-- The worker that takes a task off active_tasks finds it above 0.
finish-pos :
    {n : ℕ} {s : State} (i task : ℕ)
    → Reach n s
    → length s.scheduled < word
    → i < n
    → s.places i ≡ finishing task
    → 0 < s.active_tasks
finish-pos {n} {s} i task r small h p =
    let inv = Reach-Inv r in omega (arith, inv.active small, rw p at (total-ge busy n s.places i h))
