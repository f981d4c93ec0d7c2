-- ===== src/Concurrency/Threadpool/Queue.antt =====
-- The queue of a worker, as a list of tasks.
use cextras.Base.{
  suc, ◌+◌, ◌-◌, ◌%◌, ◌<◌, ◌≡◌, refl, sym, ap, ◌∙◌, false, Option, none, some, List, [], ◌∷◌, ◌++◌,
  arith, length, length-append, word,
}
use mathlib.Core.Path.{subst}
use cextras.Memory.Pool.{Ptr, ptr_eq}
use cextras.Memory.Pool.Fresh.{ptr_eq_refl}
use cextras.Concurrency.Threadpool.{Task, Worker, assign, link, worker_get_task, enqueue}

abbrev pub Absent : Ptr → List Ptr → Type 0
Absent p [] = Unit
Absent p (x ∷ xs) = (ptr_eq x p ≡ false) × Absent p xs

abbrev pub Distinct : List Ptr → Type 0
Distinct [] = Unit
Distinct (x ∷ xs) = Absent x xs × Distinct xs

-- From `p` the tasks are linked in this order, the last one to NULL.
abbrev pub Links : (Ptr → Task) → Option Ptr → List Ptr → Type 0
Links m p [] = p ≡ none
Links m p (x ∷ xs) = (p ≡ some x) × Links m (m x).next xs

abbrev pub last : List Ptr → Option Ptr
last [] = none
last (x ∷ []) = some x
last (x ∷ (y ∷ xs)) = last (y ∷ xs)

pub record IsQueue (m : Ptr → Task) (w : Worker) (xs : List Ptr) : Type 0 where
  pub links : Links m w.head xs
  pub tail : w.tail ≡ last xs
  pub distinct : Distinct xs
  pub queue_length : w.queue_length ≡ length xs

-- worker_get_task of a queue with a task takes the first one off it.
pub worker_get_task-cons :
    (m : Ptr → Task) (w : Worker) (x : Ptr) (xs : List Ptr)
    → IsQueue m w (x ∷ xs)
    → length (x ∷ xs) < word
    → (w' : Worker) × (worker_get_task m w ≡ (some x, w')) × IsQueue m w' xs
unfolding worker_get_task
worker_get_task-cons m w x [] q h = (
  record { head = none; tail = none; queue_length = 0 },
  rw (q.links.0, q.links.1, q.queue_length) refl,
  record { links = refl; tail = refl; distinct = tt; queue_length = refl },
)
worker_get_task-cons m w x (y ∷ xs) q h =
    let fewer : (w.queue_length + (word - 1)) % word ≡ suc (length xs) =
      omega (arith, q.queue_length) in
    (
      record { head = some y; tail = w.tail; queue_length = suc (length xs) },
      rw (q.links.0, q.links.1.0, fewer) refl,
      record {
        links = (refl, q.links.1.1);
        tail = q.tail;
        distinct = q.distinct.1;
        queue_length = refl;
      },
    )

-- worker_get_task of an empty queue finds nothing and changes nothing.
pub worker_get_task-nil :
    (m : Ptr → Task) (w : Worker) → IsQueue m w [] → worker_get_task m w ≡ (none, w)
unfolding worker_get_task
worker_get_task-nil m w q = rw q.links refl

-- A write to a task that is not in the list leaves the links alone.
pub Links-assign :
    (m : Ptr → Task) (t : Ptr) (v : Task) (p : Option Ptr) (xs : List Ptr)
    → Links m p xs
    → Absent t xs
    → Links (assign m t v) p xs
Links-assign m t v p [] l a = l
Links-assign m t v p (x ∷ xs) l a = (l.0, rw a.0 (Links-assign m t v (m x).next xs l.1 a.1))

last-Absent : (x t : Ptr) (xs : List Ptr) → last xs ≡ some t → Absent x xs → ptr_eq t x ≡ false
last-Absent x t [] e a = cc
last-Absent x t (y ∷ []) e a = let same : y ≡ t = cc in rw (← same) a.0
last-Absent x t (y ∷ (z ∷ xs)) e a = last-Absent x t (z ∷ xs) e a.1

-- Linking a task behind the last one.
Links-append :
    (m : Ptr → Task) (new t : Ptr) (p : Option Ptr) (xs : List Ptr)
    → Links m p xs
    → last xs ≡ some t
    → Distinct xs
    → Absent new xs
    → (m new).next ≡ none
    → Links (assign m t (record (m t) { next = some new })) p (xs ++ (new ∷ []))
Links-append m new t p [] l e d a n = cc
Links-append m new t p (x ∷ []) l e d a n =
    let same : x ≡ t = cc in
    let other : ptr_eq new t ≡ false = ground (arith, a.0, rw same at a.0) in
    (l.0, rw (same, ptr_eq_refl t, other) (refl, n))
Links-append m new t p (x ∷ (y ∷ xs)) l e d a n =
    let other : ptr_eq x t ≡ false = ground (arith, last-Absent x t (y ∷ xs) e d.0) in
    (l.0, rw other (Links-append m new t (m x).next (y ∷ xs) l.1 e d.1 a.1 n))

Distinct-append :
    (xs : List Ptr) (new : Ptr) → Distinct xs → Absent new xs → Distinct (xs ++ (new ∷ []))
Distinct-append [] new d a = (tt, tt)
Distinct-append (x ∷ xs) new d a =
    (Absent-append x new xs d.0 (ground arith), Distinct-append xs new d.1 a.1)
  where
    Absent-append :
        (x new : Ptr) (xs : List Ptr)
        → Absent x xs
        → ptr_eq new x ≡ false
        → Absent x (xs ++ (new ∷ []))
    Absent-append x new [] a e = (e, tt)
    Absent-append x new (y ∷ xs) a e = (a.0, Absent-append x new xs a.1 e)

last-append : (xs : List Ptr) (new : Ptr) → last (xs ++ (new ∷ [])) ≡ some new
last-append [] new = refl
last-append (x ∷ []) new = refl
last-append (x ∷ (y ∷ xs)) new = last-append (y ∷ xs) new

-- The queue of the worker has the new task at its end, and every other queue is as it was.
pub record Enqueued (m : Ptr → Task) (xs : List Ptr) (new : Ptr) (r : (Ptr → Task) × Worker)
    : Type 0 where
  pub queue : IsQueue r.0 r.1 (xs ++ (new ∷ []))
  pub others :
      (w : Worker) (ys : List Ptr)
      → IsQueue m w ys
      → ((t : Ptr) → last xs ≡ some t → Absent t ys)
      → IsQueue r.0 w ys

-- The link of cx_threadpool_schedule puts a task that is in no queue at the end of the worker's, and
-- keeps every queue that has no task in common with that one.
pub enqueue-Enqueued :
    (m : Ptr → Task) (w : Worker) (xs : List Ptr) (new : Ptr)
    → IsQueue m w xs
    → Absent new xs
    → (m new).next ≡ none
    → length xs + 1 < word
    → Enqueued m xs new (enqueue m w new)
unfolding enqueue
enqueue-Enqueued m w [] new q a n h = record {
  queue = record {
    links = rw q.tail (refl, n);
    tail = refl;
    distinct = (tt, tt);
    queue_length = rw q.queue_length refl;
  };
  others = λ w' ys q' a. rw q.tail q';
}
enqueue-Enqueued m w (x ∷ xs) new q a n h = by_tail (last-some x xs)
  where
    more : (w.queue_length + 1) % word ≡ length ((x ∷ xs) ++ (new ∷ []))
    more = omega (arith, q.queue_length, length-append xs (new ∷ []))

    last-some : (x : Ptr) (xs : List Ptr) → (t : Ptr) × (last (x ∷ xs) ≡ some t)
    last-some x [] = (x, refl)
    last-some x (y ∷ xs) = last-some y xs

    by_tail : (t : Ptr) × (last (x ∷ xs) ≡ some t) → Enqueued m (x ∷ xs) new (enqueue m w new)
    by_tail (t, e) =
        let linked : link m w.tail new ≡ assign m t (record (m t) { next = some new }) =
          ap (λ p. link m p new) (q.tail ∙ e) in
        let end : w.tail ≡ some t = q.tail ∙ e in
        let head : elim w.tail [ none ↦ some new | some u ↦ w.head ] ≡ w.head = rw end refl in
        record {
          queue = record {
            links = rw head (
                subst (λ f. Links f w.head ((x ∷ xs) ++ (new ∷ []))) (sym linked)
                  (Links-append m new t w.head (x ∷ xs) q.links e q.distinct a n));
            tail = sym (last-append (x ∷ xs) new);
            distinct = Distinct-append (x ∷ xs) new q.distinct a;
            queue_length = more;
          };
          others = λ w' ys q' a'. record {
            links =
                subst (λ f. Links f w'.head ys) (sym linked)
                  (Links-assign m t (record (m t) { next = some new }) w'.head ys q'.links
                    (a' t e));
            tail = q'.tail;
            distinct = q'.distinct;
            queue_length = q'.queue_length;
          };
        }
