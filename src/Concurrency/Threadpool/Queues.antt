-- ===== src/Concurrency/Threadpool/Queues.antt =====
-- All queues of a threadpool at once, as lists of tasks.
use cextras.Base.{
  ℕ, ◌<◌, ◌≡◌, refl, Bool, true, false, some, List, [], ◌∷◌, ◌++◌, arith, if◌then◌else◌, ◌⊎◌, inl,
  inr, get_elem?, set, length, word, Bool-cases, ◌≢◌, ◌==◌, ==→eq, not-==→ne, get_elem?-set_self,
  get_elem?-set_ne,
}
use cextras.Memory.Pool.{Ptr, ptr_eq}
use cextras.Memory.Pool.Inv as PoolInv
use cextras.Memory.Pool.Fresh.{remove, ptr_eq→eq, ptr_eq_refl}
use cextras.Memory.Pool.Recycle.{recycle-IsValid}
use cextras.Concurrency.Threadpool.{Worker, Threadpool, task_free}
use cextras.Concurrency.Threadpool.Queue.{Absent, IsQueue, last}

-- Whether a task is in a queue.
abbrev pub has : Ptr → List Ptr → Bool
has t [] = false
has t (x ∷ xs) = if ptr_eq x t then true else has t xs

pub has-Absent : (t : Ptr) (xs : List Ptr) → has t xs ≡ false → Absent t xs
has-Absent t [] e = tt
has-Absent t (x ∷ xs) e = elim (Bool-cases (ptr_eq x t)) [
  | inl same ↦ absurd (ground (arith, rw same at e))
  | inr other ↦ (other, has-Absent t xs (rw other at e))
]

pub Absent-has : (t : Ptr) (xs : List Ptr) → Absent t xs → has t xs ≡ false
Absent-has t [] a = refl
Absent-has t (x ∷ xs) a = rw a.0 (Absent-has t xs a.1)

pub last-has : (t : Ptr) (xs : List Ptr) → last xs ≡ some t → has t xs ≡ true
last-has t [] e = cc
last-has t (x ∷ []) e = let same : x ≡ t = cc in rw (same, ptr_eq_refl t) refl
last-has t (x ∷ (y ∷ xs)) e = elim (Bool-cases (ptr_eq x t)) [
  | inl same ↦ rw same refl
  | inr other ↦ rw other (last-has t (y ∷ xs) e)
]

pub has-append :
    (t e : Ptr) (xs : List Ptr) → has t (xs ++ (e ∷ [])) ≡ true → (has t xs ≡ true) ⊎ (t ≡ e)
has-append t e [] h = elim (Bool-cases (ptr_eq e t)) [
  | inl same ↦ let one : e ≡ t = ptr_eq→eq e t same in inr (cc)
  | inr other ↦ absurd (ground (arith, rw other at h))
]
has-append t e (x ∷ xs) h = elim (Bool-cases (ptr_eq x t)) [
  | inl same ↦ inl (rw same refl)
  | inr other ↦ rw other (has-append t e xs (rw other at h))
]

-- The workers of a pool in which one was written.
pub worker-set :
    (ws : List Worker) (k j : ℕ) (w u : Worker)
    → k < length ws
    → get_elem? (set ws k w) j ≡ some u
    → ((k ≡ j) × (u ≡ w)) ⊎ ((k ≢ j) × (get_elem? ws j ≡ some u))
worker-set ws k j w u below at = elim (Bool-cases (k == j)) [
  | inl here ↦
      let same : k ≡ j = ==→eq k j here in
      let there : get_elem? (set ws k w) j ≡ some w =
        rw (← same) (get_elem?-set_self ws k w below) in
      inl (same, cc)
  | inr away ↦
      let apart : k ≢ j = not-==→ne k j away in
      inr (apart, rw (get_elem?-set_ne ws k j w apart) at at)
]

-- The tasks that are in a queue are elements of the task pool that have not been recycled, and no
-- task is in two queues.
pub record IsThreadpool (tp : Threadpool) (held : Ptr → Bool) (recycled : List Ptr)
    (queues : ℕ → List Ptr) : Type 0 where
  pub pool : PoolInv.IsValid tp.task_pool held recycled
  pub queue : (k : ℕ) (w : Worker) → get_elem? tp.workers k ≡ some w → IsQueue tp.tasks w (queues k)
  pub small : (k : ℕ) (w : Worker) → get_elem? tp.workers k ≡ some w → w.queue_length < word
  pub owned : (k : ℕ) (t : Ptr) → has t (queues k) ≡ true → held t ≡ true
  pub disjoint : (j k : ℕ) (t : Ptr) → has t (queues j) ≡ true → has t (queues k) ≡ true → j ≡ k

-- task_free of a task that is in no queue.
pub task_free-IsThreadpool :
    {tp : Threadpool} {held : Ptr → Bool} {recycled : List Ptr} {queues : ℕ → List Ptr} (e : Ptr)
    → IsThreadpool tp held recycled queues
    → held e ≡ true
    → ((k : ℕ) → has e (queues k) ≡ false)
    → IsThreadpool (task_free tp (some e)) (remove e held) (e ∷ recycled) queues
task_free-IsThreadpool {queues = queues} e v mine unqueued = record {
  pool = recycle-IsValid e v.pool mine;
  queue = v.queue;
  small = v.small;
  owned = λ k t there. elim (Bool-cases (ptr_eq t e)) [
    | inl same ↦
        let one : t ≡ e = ptr_eq→eq t e same in absurd (ground (arith, unqueued k, rw one at there))
    | inr other ↦ rw other (v.owned k t there)
  ];
  disjoint = v.disjoint;
}
