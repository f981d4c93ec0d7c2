-- ===== src/Concurrency/Threadpool/Choice.antt =====
-- Which queue a task goes to, and which one it is taken from.
use cextras.Base.{
  ℕ, zero, suc, ◌+◌, ◌-◌, ◌%◌, ◌≤◌, ◌<◌, ◌≡◌, refl, sym, ap, ◌∙◌, Option, none, some, List, [], ◌∷◌,
  arith, length, get_elem?, set, ltb, leb, Bool-cases, inl, inr, max_word, Option-cases,
  get_elem?-lt, get_elem?→lt,
}
use native.Mathlib.Nat.{mod-eq_of_lt, add-mod_right, mod-lt}
use cextras.Memory.Pool.{Ptr}
use cextras.Concurrency.Threadpool.{
  Task, Worker, Threadpool, scan, worker_get_task, find_from, worker_find_task,
}

abbrev pub IsLeast : ℕ → List Worker → Type 0
IsLeast n ws = (j : ℕ) (w : Worker) → get_elem? ws j ≡ some w → n ≤ w.queue_length

-- What the scan over `ws` from the number `i` on gives.
data Scanned (ws : List Worker) (i : ℕ) (o : Option ℕ) (bound : ℕ) : Option ℕ → Type 0 where
  kept : IsLeast bound ws → Scanned ws i o bound o
  found :
      (j : ℕ) (w : Worker)
      → get_elem? ws j ≡ some w
      → w.queue_length < bound
      → IsLeast w.queue_length ws
      → Scanned ws i o bound (some (i + j))

scan-Scanned :
    (ws : List Worker) (i : ℕ) (o : Option ℕ) (bound : ℕ) → Scanned ws i o bound (scan ws i o bound)
unfolding scan
scan-Scanned [] i o bound = kept (λ j w e. cc)
scan-Scanned (v ∷ ws) i o bound = elim (Bool-cases (ltb v.queue_length bound)) [
  | inl shorter ↦
      rw shorter (taken (ground arith) (scan-Scanned ws (i + 1) (some i) v.queue_length))
  | inr other ↦ rw other (passed (ground arith) (scan-Scanned ws (i + 1) o bound))
]
  where
    with_first : {n : ℕ} → n ≤ v.queue_length → IsLeast n ws → IsLeast n (v ∷ ws)
    with_first h l zero w e = let same : v ≡ w = cc in rw (← same) h
    with_first h l (suc j) w e = l j w e

    shift : (j : ℕ) → i + 1 + j ≡ i + suc j
    shift j = omega arith

    taken :
        v.queue_length < bound
        → {r : Option ℕ} → Scanned ws (i + 1) (some i) v.queue_length r
        → Scanned (v ∷ ws) i o bound r
    taken h (kept l) =
        let no : i + 0 ≡ i = omega arith in
        let first : Scanned (v ∷ ws) i o bound (some (i + 0)) =
          found 0 v refl h (with_first (omega arith) l) in
        rw no at first
    taken h (found j w e less l) =
        rw (shift j) (found (suc j) w e (omega arith) (with_first (omega arith) l))

    passed :
        bound ≤ v.queue_length
        → {r : Option ℕ} → Scanned ws (i + 1) o bound r
        → Scanned (v ∷ ws) i o bound r
    passed h (kept l) = kept (with_first h l)
    passed h (found j w e less l) =
        rw (shift j) (found (suc j) w e less (with_first (omega arith) l))

-- The scan of cx_threadpool_schedule, where some queue length is below the largest number, chooses a
-- worker whose queue is no longer than any other.
pub scan-IsLeast :
    (ws : List Worker) (i : ℕ) (v : Worker)
    → get_elem? ws i ≡ some v
    → v.queue_length < max_word
    → (k : ℕ) × (w : Worker) × (scan ws 0 none max_word ≡ some k)
      × (get_elem? ws k ≡ some w)
      × IsLeast w.queue_length ws
scan-IsLeast ws i v here h =
    by_result (scan ws 0 none max_word) refl (scan-Scanned ws 0 none max_word)
  where
    by_result :
        (r : Option ℕ)
        → scan ws 0 none max_word ≡ r
        → Scanned ws 0 none max_word r
        → (k : ℕ) × (w : Worker) × (scan ws 0 none max_word ≡ some k)
          × (get_elem? ws k ≡ some w)
          × IsLeast w.queue_length ws
    by_result _ e (kept l) = absurd (omega (arith, l i v here, h))
    by_result _ e (found j w at less l) =
        let no : 0 + j ≡ j = omega arith in (j, w, rw no at e, at, l)

set_same : (ws : List Worker) (k : ℕ) (w : Worker) → get_elem? ws k ≡ some w → set ws k w ≡ ws
set_same [] k w e = refl
set_same (v ∷ ws) zero w e = let same : v ≡ w = cc in ap (λ u. u ∷ ws) (sym same)
set_same (v ∷ ws) (suc k) w e = ap (λ us. v ∷ us) (set_same ws k w e)

head-none : (m : Ptr → Task) (w : Worker) → w.head ≡ none → worker_get_task m w ≡ (none, w)
unfolding worker_get_task
head-none m w e = rw e refl

head-some :
    (m : Ptr → Task) (w : Worker) (t : Ptr)
    → w.head ≡ some t
    → worker_get_task m w ≡ (some t, (worker_get_task m w).1)
unfolding worker_get_task
head-some m w t e = rw e refl

-- The pool after a task was taken off the queue `k`.
abbrev pub taken_from : Threadpool → ℕ → Worker → Threadpool
taken_from tp k w = record tp { workers = set tp.workers k (worker_get_task tp.tasks w).1 }

-- What worker_find_task comes to: every queue is empty and nothing is changed, or it takes the first
-- task off the queue of some worker.
pub data FoundTask (tp : Threadpool) : Option (Option Ptr × Threadpool) → Type 0 where
  nothing :
      ((k : ℕ) (w : Worker) → get_elem? tp.workers k ≡ some w → w.head ≡ none)
      → FoundTask tp (some (none, tp))
  task_of :
      (k : ℕ) (w : Worker) (t : Ptr)
      → get_elem? tp.workers k ≡ some w
      → w.head ≡ some t
      → FoundTask tp (some (some t, taken_from tp k w))

module _ (tp : Threadpool) (index : ℕ) (at : index < length tp.workers) where
  abbrev nth : ℕ → ℕ
  nth i = (i + index) % length tp.workers

  -- The round that reads the queue `k`.
  round_of : (k : ℕ) → k < length tp.workers → (i : ℕ) × (i < length tp.workers) × (nth i ≡ k)
  round_of k h = elim (Bool-cases (leb index k)) [
    | inl after ↦ (
      k - index,
      omega arith,
      let sum : k - index + index ≡ k = ground arith in rw sum (mod-eq_of_lt h),
    )
    | inr before ↦ (
      k + length tp.workers - index,
      ground arith,
      let sum : k + length tp.workers - index + index ≡ k + length tp.workers = omega arith in
          rw sum (add-mod_right k (length tp.workers) ∙ mod-eq_of_lt h),
    )
  ]

  find_from-empty :
      (n i : ℕ) (w : Worker)
      → get_elem? tp.workers (nth i) ≡ some w
      → w.head ≡ none
      → find_from (suc n) i index tp ≡ find_from n (i + 1) index tp
  unfolding find_from
  find_from-empty n i w r empty =
      let got : worker_get_task tp.tasks w ≡ (none, w) = head-none tp.tasks w empty in
      let same : taken_from tp (nth i) w ≡ tp =
        rw got (ap (λ ws. record tp { workers = ws }) (set_same tp.workers (nth i) w r)) in
      rw (r, got) (ap (find_from n (i + 1) index) (rw got at same))

  find_from-task :
      (n i : ℕ) (w : Worker) (t : Ptr)
      → get_elem? tp.workers (nth i) ≡ some w
      → w.head ≡ some t
      → find_from (suc n) i index tp ≡ some (some t, taken_from tp (nth i) w)
  unfolding find_from
  find_from-task n i w t r head =
      let got : worker_get_task tp.tasks w ≡ (some t, (worker_get_task tp.tasks w).1) =
        head-some tp.tasks w t head in
      rw (r, got) refl

  find_from-FoundTask :
      (n i : ℕ)
      → n + i ≡ length tp.workers
      → ((j : ℕ) → j < i → (w : Worker) → get_elem? tp.workers (nth j) ≡ some w → w.head ≡ none)
      → FoundTask tp (find_from n i index tp)
  unfolding find_from
  find_from-FoundTask zero i e seen = nothing (λ k w r.
      let (j, h, same) = round_of k (get_elem?→lt tp.workers k w r) in
      seen j (omega arith) w (rw same r))
  find_from-FoundTask (suc n) i e seen =
      let (w, r) = get_elem?-lt tp.workers (nth i) (mod-lt (i + index) (omega arith)) in
      elim (Option-cases w.head) [
        | inl empty ↦
            rw (find_from-empty n i w r empty)
              (find_from-FoundTask n (i + 1) (omega arith) (next w r empty))
        | inr (t, head) ↦ rw (find_from-task n i w t r head) (task_of (nth i) w t r head)
      ]
    where
      next :
          (w : Worker)
          → get_elem? tp.workers (nth i) ≡ some w
          → w.head ≡ none
          → (j : ℕ) → j < i + 1
          → (v : Worker) → get_elem? tp.workers (nth j) ≡ some v
          → v.head ≡ none
      next w r empty j h v r' = elim (Bool-cases (ltb j i)) [
        | inl before ↦ seen j (ground arith) v r'
        | inr here ↦ let same : j ≡ i = ground arith in let one : w ≡ v = cc in rw (← one) empty
      ]

  -- In a pool with the index of a worker worker_find_task ends after a round for each worker, and
  -- finds a task if there is one in any queue; otherwise it changes nothing.
  pub worker_find_task-FoundTask : FoundTask tp (worker_find_task index tp)
  unfolding worker_find_task
  worker_find_task-FoundTask =
      find_from-FoundTask (length tp.workers) 0 (omega arith) (λ j h. absurd (omega arith))
