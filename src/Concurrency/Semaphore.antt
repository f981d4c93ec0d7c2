-- ===== src/Concurrency/Semaphore.antt =====
-- lib/concurrency/semaphore.c: a counter that threads count down and wait for.
--
-- The threads that call cx_semaphore_wait and cx_semaphore_post on one semaphore, in any order of
-- steps: one for each call of the pthread library and each access to `count`. That library behaves
-- as in Concurrency/Future; a signal wakes a sleeper if there is one. A lock, a wait and a signal
-- may fail, and the unlock of a mutex that the thread holds does not.
pub mod Inv
pub mod Moves
mod Results
mod Tests
use cextras.Base.{
  ℕ, zero, suc, ◌+◌, ◌-◌, ◌%◌, ◌≡◌, ◌≢◌, Bool, true, false, Option, none, some, word, ◌==◌,
  if◌then◌else◌,
}
use cextras.Concurrency.Family.{update}

-- `struct CxSemaphore`; `mutex` is the holder, and `takes` and `posts` are the history: how often a
-- wait has counted down, and a post up.
pub record Semaphore : Type 0 where
  pub count : ℕ
  pub mutex : Option ℕ
  pub takes : ℕ
  pub posts : ℕ

-- Where a thread stands in a call; between the lock and the unlock from `testing` on.
pub data Place : Type 0 where
  idle : Place
  waiting : Place  -- cx_semaphore_wait before pthread_mutex_lock
  asleep : Place  -- in pthread_cond_wait
  woken : Place  -- there, to get the mutex again
  posting : Place  -- cx_semaphore_post before pthread_mutex_lock
  testing : Place  -- head of the loop of cx_semaphore_wait
  taking : (count : ℕ) → Place  -- behind it, with what it read of `count`
  holding : Place  -- cx_semaphore_post with the mutex
  adding : (count : ℕ) → Place  -- with what it read of `count`
  signalling : Place  -- before pthread_cond_signal
  leaving : Place  -- before the last pthread_mutex_unlock
  failing : Place  -- before the one on an error
  returned : Place
  failed : Place

-- A step of thread `i` that changes no other thread.
pub data Move (i : ℕ) (s : Semaphore) : Place → Semaphore → Place → Type 0 where
  call_wait : Move i s idle s waiting
  fail_lock : Move i s waiting s failed
  lock_wait : s.mutex ≡ none → Move i s waiting (record s { mutex = some i }) testing
  sleep : s.count ≡ 0 → Move i s testing (record s { mutex = none }) asleep
  fail_sleep : s.count ≡ 0 → Move i s testing s failing
  wake : Move i s asleep s woken
  relock : s.mutex ≡ none → Move i s woken (record s { mutex = some i }) testing
  read : s.count ≢ 0 → Move i s testing s (taking s.count)
  count_down :
      {n : ℕ} → Move i s (taking n) (record s { count = n - 1; takes = s.takes + 1 }) leaving
  call_post : Move i s idle s posting
  fail_lock_post : Move i s posting s failed
  lock_post : s.mutex ≡ none → Move i s posting (record s { mutex = some i }) holding
  read_post : Move i s holding s (adding s.count)
  count_up :
      {n : ℕ}
      → Move i s (adding n) (record s { count = (n + 1) % word; posts = s.posts + 1 }) signalling
  fail_signal : Move i s signalling s failing
  unlock : Move i s leaving (record s { mutex = none }) returned
  unlock_failing : Move i s failing (record s { mutex = none }) failed

pub record State : Type 0 where
  pub semaphore : Semaphore
  pub places : ℕ → Place

abbrev pub is_asleep : Place → Bool
is_asleep asleep = true
is_asleep p = false

pub data Step (s : State) : State → Type 0 where
  move :
      (i : ℕ) {t : Semaphore} {p : Place}
      → Move i s.semaphore (s.places i) t p
      → Step s (record { semaphore = t; places = update s.places i p })
  -- pthread_cond_signal wakes thread `j`.
  signal :
      (i j : ℕ)
      → s.places i ≡ signalling
      → is_asleep (s.places j) ≡ true
      → Step s (record s { places = update (update s.places j woken) i leaving })
  -- pthread_cond_signal where no thread sleeps.
  signal_none :
      (i : ℕ)
      → s.places i ≡ signalling
      → ((j : ℕ) → is_asleep (s.places j) ≡ false)
      → Step s (record s { places = update s.places i leaving })

-- cx_semaphore_init, with the results of pthread_mutex_init and pthread_cond_init.
abbrev pub init : (mutex_rv cond_rv : ℕ) → ℕ → ℕ × Option Semaphore
init zero zero count = (0, some (record { count = count; mutex = none; takes = 0; posts = 0 }))
init zero (suc e) count = (suc e, none)
init (suc e) cond_rv count = (suc e, none)

-- What the threads reach from a call of cx_semaphore_init that returned 0.
pub data Reach (initial : ℕ) : State → Type 0 where
  here :
      (mutex_rv cond_rv : ℕ) {s : Semaphore}
      → init mutex_rv cond_rv initial ≡ (0, some s)
      → Reach initial (record { semaphore = s; places = λ i. idle })
  next : {s t : State} → Reach initial s → Step s t → Reach initial t

-- cx_semaphore_destroy with its result, which is defined where no thread has the mutex and none waits
-- for the condition; the arguments are the results of pthread_mutex_destroy and pthread_cond_destroy.
pub data Destroyed (s : State) (mutex_rv cond_rv : ℕ) : ℕ → Type 0 where
  destroyed :
      s.semaphore.mutex ≡ none
      → ((i : ℕ) → is_asleep (s.places i) ≡ false)
      → Destroyed s mutex_rv cond_rv (if mutex_rv == 0 then cond_rv else mutex_rv)
