-- ===== src/Concurrency/Semaphore/Results.antt =====
-- What a semaphore promises the threads that use it.
use cextras.Base.{
  ℕ, ◌+◌, ◌<◌, ◌==◌, if◌then◌else◌, ◌≡◌, refl, true, false, arith, word, Option-cases, inl, inr,
}
use cextras.Concurrency.Semaphore.{Place, idle, is_asleep, State, Reach, Destroyed, destroyed}
use cextras.Concurrency.Semaphore.Inv.{inside, is_calling}
use cextras.Concurrency.Semaphore.Moves.{Reach-Inv}

-- In every reachable state, unless more posts than a word can count were made, the counter is the
-- number that the semaphore was initialised with and the posts, less the waits that counted down: a
-- wait never takes what no post has put there, and nothing is lost between threads.
pub Reach-conserved :
    {initial : ℕ} {s : State}
    → Reach initial s
    → initial + s.semaphore.posts < word
    → s.semaphore.count + s.semaphore.takes ≡ initial + s.semaphore.posts
Reach-conserved r h = (Reach-Inv r).conserved h

inside-is_calling : (p : Place) → inside p ≡ true → is_calling p ≡ true
inside-is_calling idle h = h
inside-is_calling p h = ground arith

is_asleep-is_calling : (p : Place) → is_calling p ≡ false → is_asleep p ≡ false
is_asleep-is_calling idle h = refl
is_asleep-is_calling p h = ground arith

-- In every reachable state in which no thread is in a call, after calls that failed or returned,
-- cx_semaphore_destroy is defined: no thread has the mutex or waits for the condition. Its result is
-- that of pthread_mutex_destroy if it is an error, and otherwise that of pthread_cond_destroy.
pub Reach-Destroyed :
    {initial : ℕ} {s : State}
    → Reach initial s
    → ((i : ℕ) → is_calling (s.places i) ≡ false)
    → (mutex_rv cond_rv : ℕ)
    → Destroyed s mutex_rv cond_rv (if mutex_rv == 0 then cond_rv else mutex_rv)
Reach-Destroyed {s = s} r out mutex_rv cond_rv =
    let inv = Reach-Inv r in
    destroyed
      (elim (Option-cases s.semaphore.mutex) [
        | inl free ↦ free
        | inr (i, owned) ↦
            let calls = inside-is_calling (s.places i) (inv.held i owned) in
            absurd (ground (arith, out i, calls))
      ])
      (λ i. is_asleep-is_calling (s.places i) (out i))
