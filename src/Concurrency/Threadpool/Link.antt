-- ===== src/Concurrency/Threadpool/Link.antt =====
-- The link of a task behind a queue in cx_threadpool_schedule, on all queues.
use cextras.Base.{
  ℕ, ◌+◌, ◌%◌, ◌<◌, ◌≡◌, refl, sym, ◌∙◌, Bool, true, false, none, some, List, [], ◌∷◌, ◌++◌, arith,
  ◌⊎◌, inl, inr, length, length-append, get_elem?, set, word, max_word, Bool-cases, ◌==◌, ◌≢◌,
  eq→==, get_elem?→lt, ne→not-==, ==→eq,
}
use cextras.Memory.Pool.{Ptr}
use cextras.Concurrency.Family.{update}
use cextras.Concurrency.Threadpool.{Worker, Threadpool, task_free, scan, enqueue, assign_task}
use cextras.Concurrency.Threadpool.Queue.{enqueue-Enqueued}
use cextras.Concurrency.Threadpool.Queues.{
  worker-set, has, has-Absent, last-has, has-append, IsThreadpool,
}

-- The queues of a threadpool in which a task is put at the end of one.
abbrev pub put_at : (ℕ → List Ptr) → ℕ → Ptr → ℕ → List Ptr
put_at queues k e = update queues k (queues k ++ (e ∷ []))

module _ {tp : Threadpool} {held : Ptr → Bool} {recycled : List Ptr} {queues : ℕ → List Ptr}
    (v : IsThreadpool tp held recycled queues) (e : Ptr) (mine : held e ≡ true)
    (unqueued : (k : ℕ) → has e (queues k) ≡ false) (ready : (tp.tasks e).next ≡ none) where
  abbrev pub linked : ℕ → Worker → Threadpool
  linked k w = record tp {
    tasks = (enqueue tp.tasks w e).0;
    workers = set tp.workers k (enqueue tp.tasks w e).1;
    active_tasks = (tp.active_tasks + 1) % word;
  }

  -- Where a task is after it.
  where_is :
      (j k : ℕ) (t : Ptr)
      → has t (put_at queues k e j) ≡ true
      → (has t (queues j) ≡ true) ⊎ ((t ≡ e) × (j ≡ k))
  where_is j k t h = elim (Bool-cases (k == j)) [
    | inl here ↦
        let same : k ≡ j = ==→eq k j here in
        elim (has-append t e (queues k) (rw here at h)) [
          | inl old ↦ inl (rw same at old)
          | inr new ↦ inr (new, sym same)
        ]
    | inr away ↦ inl (rw away at h)
  ]

  elsewhere : (j k : ℕ) (t : Ptr) → k ≢ j → has t (queues k) ≡ true → has t (queues j) ≡ false
  elsewhere j k t apart there = elim (Bool-cases (has t (queues j))) [
    | inl both ↦ absurd (apart (v.disjoint k j t there both))
    | inr gone ↦ gone
  ]

  pub linked-IsThreadpool :
      (k : ℕ) (w : Worker)
      → get_elem? tp.workers k ≡ some w
      → w.queue_length < max_word
      → IsThreadpool (linked k w) held recycled (put_at queues k e)
  linked-IsThreadpool k w at short =
      let q = v.queue k w at in
      let absent = has-Absent e (queues k) (unqueued k) in
      let room : length (queues k) + 1 < word = omega (arith, q.queue_length) in
      let below = get_elem?→lt tp.workers k w at in
      let done = enqueue-Enqueued tp.tasks w (queues k) e q absent ready room in
      record {
        pool = v.pool;
        queue = λ j u at_j. elim (worker-set tp.workers k j _ u below at_j) [
          | inl (same, new) ↦ rw (← same, new, eq→== k k refl) (done.queue)
          | inr (apart, old) ↦ rw (ne→not-== k j apart) (
              done.others u (queues j) (v.queue j u old) (λ t end.
                has-Absent t (queues j) (elsewhere j k t apart (last-has t (queues k) end))))
        ];
        small = λ j u at_j. elim (worker-set tp.workers k j _ u below at_j) [
          | inl (same, new) ↦
              rw new
                (omega (arith, done.queue.queue_length, length-append (queues k) (e ∷ []), room))
          | inr (apart, old) ↦ v.small j u old
        ];
        owned = λ j t there. elim (where_is j k t there) [
          | inl old ↦ v.owned j t old
          | inr new ↦ rw new.0 mine
        ];
        disjoint = λ i j t at_i at_j. elim (where_is i k t at_i) [
          | inl old ↦ elim (where_is j k t at_j) [
            | inl old' ↦ v.disjoint i j t old old'
            | inr new ↦ absurd (ground (arith, unqueued i, rw new.0 at old))
          ]
          | inr new ↦ elim (where_is j k t at_j) [
            | inl old' ↦ absurd (ground (arith, unqueued j, rw new.0 at old'))
            | inr new' ↦ new.1 ∙ sym new'.1
          ]
        ];
      }

  pub assign_task-locked :
      (k : ℕ) (w : Worker)
      → scan tp.workers 0 none max_word ≡ some k
      → get_elem? tp.workers k ≡ some w
      → assign_task true tp (some e) ≡ some (linked k w)
  unfolding assign_task
  assign_task-locked k w chosen at = rw (chosen, at) refl

  pub assign_task-refused :
      (k : ℕ) (w : Worker)
      → scan tp.workers 0 none max_word ≡ some k
      → get_elem? tp.workers k ≡ some w
      → assign_task false tp (some e) ≡ some (task_free tp (some e))
  unfolding assign_task
  assign_task-refused k w chosen at = rw (chosen, at) refl
