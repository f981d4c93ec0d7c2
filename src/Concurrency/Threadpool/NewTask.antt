-- ===== src/Concurrency/Threadpool/NewTask.antt =====
-- task_new: a task of the pool that is in no queue.
use cextras.Base.{ℕ, ◌≡◌, refl, Bool, false, Option, none, some, List, arith, inl, inr, Bool-cases}
use cextras.Memory.Pool
use cextras.Memory.Pool.{Ptr, ptr_eq, Allocator}
use cextras.Memory.Pool.Fresh.{add, ptr_eq→eq}
use cextras.Memory.Pool.Recycle.{rest, Handed}
use cextras.Concurrency.Threadpool.{Task, Threadpool, assign, link, task_new}
use cextras.Concurrency.Threadpool.Queue.{Links-assign}
use cextras.Concurrency.Threadpool.Queues.{has, has-Absent, IsThreadpool}

-- The task `t` stands for the call `function arg`.
pub record Calls (tasks : Ptr → Task) (t : Ptr) (function arg : ℕ) : Type 0 where
  pub function_is : (tasks t).function ≡ function
  pub arg_is : (tasks t).arg ≡ arg

pub Calls-link :
    (m : Ptr → Task) (p : Option Ptr) (e t : Ptr) {function arg : ℕ}
    → Calls m t function arg
    → Calls (link m p e) t function arg
Calls-link m none e t c = c
Calls-link m (some u) e t c = elim (Bool-cases (ptr_eq t u)) [
  | inl same ↦
      let one : t ≡ u = ptr_eq→eq t u same in
      record {
        function_is = rw same (rw one at (c.function_is));
        arg_is = rw same (rw one at (c.arg_is));
      }
  | inr other ↦ record { function_is = rw other (c.function_is); arg_is = rw other (c.arg_is) }
]

module _ {tp : Threadpool} {held : Ptr → Bool} {recycled : List Ptr} {queues : ℕ → List Ptr}
    (v : IsThreadpool tp held recycled queues) (function arg : ℕ) where
  abbrev issued : Ptr → Pool.Pool → Threadpool
  issued e p = record tp {
    task_pool = p;
    tasks = assign tp.tasks e (record { function = function; arg = arg; next = none });
  }

  module _ (h : Allocator) (e : Ptr)
      (out : Handed tp.task_pool held recycled (Pool.get h tp.task_pool) e) where
    abbrev pub with_task : Threadpool
    with_task = issued e (Pool.get h tp.task_pool).1

    pub task_new-issued : task_new h tp function arg ≡ (some e, with_task)
    unfolding task_new
    task_new-issued = rw (task_new, out.got) refl

    pub unheld : held e ≡ false
    unheld = elim (Bool-cases (held e)) [
      | inl mine ↦ absurd (ground (arith, out.apart e mine, v.pool.element_pos))
      | inr free ↦ free
    ]

    pub unqueued : (k : ℕ) → has e (queues k) ≡ false
    unqueued k = elim (Bool-cases (has e (queues k))) [
      | inl there ↦ absurd (ground (arith, v.owned k e there, unheld))
      | inr gone ↦ gone
    ]

    pub with_task-IsThreadpool : IsThreadpool with_task (add e held) (rest recycled) queues
    with_task-IsThreadpool = record {
      pool = out.valid;
      queue = λ k w at.
          let q = v.queue k w at in
          record {
            links =
                Links-assign tp.tasks e (record { function = function; arg = arg; next = none })
                  w.head (queues k) q.links (has-Absent e (queues k) (unqueued k));
            tail = q.tail;
            distinct = q.distinct;
            queue_length = q.queue_length;
          };
      small = v.small;
      owned = λ k t there. ground (arith, v.owned k t there);
      disjoint = v.disjoint;
    }
