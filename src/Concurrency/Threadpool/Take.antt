-- ===== src/Concurrency/Threadpool/Take.antt =====
-- A task that worker_find_task takes off a queue, and task_free behind its run.
use cextras.Base.{
  ℕ, ◌<◌, ◌≡◌, refl, ap, Bool, true, false, Option, none, some, List, [], ◌∷◌, arith, inl, inr,
  length, get_elem?, word, Bool-cases, ◌==◌, eq→==, ne→not-==, ==→eq, not-==→ne, get_elem?→lt,
  get_elem?-lt,
}
use cextras.Memory.Pool.{Ptr}
use cextras.Memory.Pool.Fresh.{remove, ptr_eq_refl}
use cextras.Concurrency.Family.{update}
use cextras.Concurrency.Threadpool.{Task, Worker, Threadpool, task_free, worker_find_task}
use cextras.Concurrency.Threadpool.Queue.{IsQueue, worker_get_task-cons}
use cextras.Concurrency.Threadpool.Choice.{
  FoundTask, nothing, task_of, taken_from, worker_find_task-FoundTask,
}
use cextras.Concurrency.Threadpool.Queues.{
  worker-set, has, Absent-has, IsThreadpool, task_free-IsThreadpool,
}

-- A queue that starts with the task.
headed :
    {m : Ptr → Task} {w : Worker} {t : Ptr} (xs : List Ptr)
    → IsQueue m w xs
    → w.head ≡ some t
    → (ys : List Ptr) × (xs ≡ t ∷ ys)
headed [] q e = absurd (cc (q.links, e))
headed (x ∷ xs) q e = let same : x ≡ _ = cc (q.links.0, e) in (xs, ap (λ y. y ∷ xs) same)

-- A queue without a first task.
unheaded : {m : Ptr → Task} {w : Worker} (xs : List Ptr) → IsQueue m w xs → w.head ≡ none → xs ≡ []
unheaded [] q e = refl
unheaded (x ∷ xs) q e = absurd (cc (q.links.0, e))

-- What worker_find_task comes to on the queues: all are empty and nothing is changed, or the first
-- task of one is taken off, which is then in no queue; task_free gives it back to the pool.
pub data Taken (tp : Threadpool) (held : Ptr → Bool) (recycled : List Ptr) (queues : ℕ → List Ptr)
    : Option (Option Ptr × Threadpool) → Type 0 where
  none_left :
      ((k : ℕ) → k < length tp.workers → queues k ≡ [])
      → Taken tp held recycled queues (some (none, tp))
  first_of :
      (k : ℕ) (t : Ptr) (ts : List Ptr) (tp' : Threadpool)
      → queues k ≡ t ∷ ts
      → IsThreadpool tp' held recycled (update queues k ts)
      → IsThreadpool (task_free tp' (some t)) (remove t held) (t ∷ recycled) (update queues k ts)
      → tp'.tasks ≡ tp.tasks
      → tp'.active_tasks ≡ tp.active_tasks
      → Taken tp held recycled queues (some (some t, tp'))

module _ {tp : Threadpool} {held : Ptr → Bool} {recycled : List Ptr} {queues : ℕ → List Ptr}
    (v : IsThreadpool tp held recycled queues) (k : ℕ) (w : Worker)
    (at : get_elem? tp.workers k ≡ some w) (t : Ptr) (ts : List Ptr)
    (first : queues k ≡ t ∷ ts) where
  -- A task that is left in a queue was there.
  where_was : (j : ℕ) (u : Ptr) → has u (update queues k ts j) ≡ true → has u (queues j) ≡ true
  where_was j u h = elim (Bool-cases (k == j)) [
    | inl here ↦
        let same : k ≡ j = ==→eq k j here in
        let old : has u (queues k) ≡ true = rw first (tail_has u (rw here at h)) in rw same at old
    | inr away ↦ rw away at h
  ]
    where
      tail_has : (u : Ptr) → has u ts ≡ true → has u (t ∷ ts) ≡ true
      tail_has u h = ground (arith, h)

  front-IsQueue : IsQueue tp.tasks w (t ∷ ts)
  front-IsQueue = rw (← first) (v.queue k w at)

  short : length (t ∷ ts) < word
  short = omega (arith, front-IsQueue.queue_length, v.small k w at)

  taken-IsThreadpool : IsThreadpool (taken_from tp k w) held recycled (update queues k ts)
  taken-IsThreadpool =
      let (w', got, q) = worker_get_task-cons tp.tasks w t ts front-IsQueue short in
      let below = get_elem?→lt tp.workers k w at in
      rw got (record {
        pool = v.pool;
        queue = λ j u at_j. elim (worker-set tp.workers k j w' u below at_j) [
          | inl (same, new) ↦ rw (← same, new, eq→== k k refl) q
          | inr (apart, old) ↦ rw (ne→not-== k j apart) (v.queue j u old)
        ];
        small = λ j u at_j. elim (worker-set tp.workers k j w' u below at_j) [
          | inl (same, new) ↦ rw new (omega (arith, q.queue_length, short))
          | inr (apart, old) ↦ v.small j u old
        ];
        owned = λ j u there. v.owned j u (where_was j u there);
        disjoint = λ i j u at_i at_j. v.disjoint i j u (where_was i u at_i) (where_was j u at_j);
      })

  here_now : has t (queues k) ≡ true
  here_now = rw (first, ptr_eq_refl t) refl

  unqueued : (j : ℕ) → has t (update queues k ts j) ≡ false
  unqueued j = elim (Bool-cases (k == j)) [
    | inl here ↦ rw here (Absent-has t ts front-IsQueue.distinct.0)
    | inr away ↦ elim (Bool-cases (has t (queues j))) [
      | inl both ↦ absurd (not-==→ne k j away (v.disjoint k j t here_now both))
      | inr gone ↦ rw away gone
    ]
  ]

module _ {tp : Threadpool} {held : Ptr → Bool} {recycled : List Ptr} {queues : ℕ → List Ptr}
    (v : IsThreadpool tp held recycled queues) where
  found-Taken :
      {r : Option (Option Ptr × Threadpool)} → FoundTask tp r → Taken tp held recycled queues r
  found-Taken (nothing empty) = none_left (λ k below.
      let (w, at) = get_elem?-lt tp.workers k below in
      unheaded (queues k) (v.queue k w at) (empty k w at))
  found-Taken (task_of k w t at head) =
      let (ts, first) = headed (queues k) (v.queue k w at) head in
      let valid = taken-IsThreadpool v k w at t ts first in
      let mine = v.owned k t (here_now v k w at t ts first) in
      first_of k t ts (taken_from tp k w) first valid
        (task_free-IsThreadpool t valid mine (unqueued v k w at t ts first)) refl refl

  -- In a valid pool worker_find_task of a worker ends after a round for each worker. Either all queues
  -- are empty and it changes nothing, or it takes the first task off one queue and changes no other;
  -- the invariant holds then, and again after task_free of that task.
  pub worker_find_task-Taken :
      (index : ℕ)
      → index < length tp.workers
      → Taken tp held recycled queues (worker_find_task index tp)
  worker_find_task-Taken index at = found-Taken (worker_find_task-FoundTask tp index at)
