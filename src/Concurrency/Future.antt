-- ===== src/Concurrency/Future.antt =====
-- lib/concurrency/future.c: a value that threads wait for.
--
-- The threads that call cx_future_wait and cx_future_resolve on one future, in any order of steps:
-- one for each call of the pthread library and each access to the future. As that library
-- documents it, a mutex has one holder, pthread_cond_wait gives the mutex up and sleeps in one step,
-- a broadcast wakes all sleepers, and a sleeper may also wake by itself. A value is an address, and
-- `none` is NULL.
pub mod Inv
pub mod Moves
mod Results
mod Tests
use cextras.Base.{ℕ, ◌≡◌, Bool, true, false, Option, none, some}
use cextras.Concurrency.Family.{update}

-- `struct CxFuture`; `mutex` is the holder.
pub record Future : Type 0 where
  pub in_value : Option ℕ
  pub mutex : Option ℕ
  pub out_value : Option ℕ

-- Where a thread stands. A thread makes one call; `decided` has the result of cx_future_resolve,
-- true for 0.
pub data Place : Type 0 where
  idle : Place
  waiting : Place  -- cx_future_wait before pthread_mutex_lock
  testing : Place  -- head of its loop, with the mutex
  asleep : Place  -- in pthread_cond_wait
  woken : Place  -- there, to get the mutex again
  leaving : (value : ℕ) → Place  -- with out_value, before pthread_mutex_unlock
  returned : (value : ℕ) → Place
  resolving : (value : Option ℕ) → Place  -- cx_future_resolve before pthread_mutex_lock
  deciding : (value : Option ℕ) → Place  -- with the mutex
  stored : (value : Option ℕ) → Place  -- before pthread_cond_broadcast
  decided : (ok : Bool) (value : Option ℕ) → Place  -- before pthread_mutex_unlock
  resolved : (ok : Bool) (value : Option ℕ) → Place

-- A step of thread `i` that changes no other thread.
pub data Move (i : ℕ) (f : Future) : Place → Future → Place → Type 0 where
  call_wait : Move i f idle f waiting
  lock_wait : f.mutex ≡ none → Move i f waiting (record f { mutex = some i }) testing
  sleep : f.out_value ≡ none → Move i f testing (record f { mutex = none }) asleep
  wake : Move i f asleep f woken
  relock : f.mutex ≡ none → Move i f woken (record f { mutex = some i }) testing
  read : (v : ℕ) → f.out_value ≡ some v → Move i f testing f (leaving v)
  unlock_wait : {v : ℕ} → Move i f (leaving v) (record f { mutex = none }) (returned v)
  call_resolve : (v : Option ℕ) → Move i f idle f (resolving v)
  lock_resolve :
      {v : Option ℕ}
      → f.mutex ≡ none
      → Move i f (resolving v) (record f { mutex = some i }) (deciding v)
  refuse : {v : Option ℕ} (u : ℕ) → f.out_value ≡ some u → Move i f (deciding v) f (decided false v)
  store :
      {v : Option ℕ}
      → f.out_value ≡ none
      → Move i f (deciding v) (record f { out_value = v }) (stored v)
  unlock_resolve :
      {ok : Bool} {v : Option ℕ}
      → Move i f (decided ok v) (record f { mutex = none }) (resolved ok v)

pub record State : Type 0 where
  pub future : Future
  pub places : ℕ → Place

-- pthread_cond_broadcast on a thread.
abbrev pub rouse : Place → Place
rouse asleep = woken
rouse p = p

pub data Step (s : State) : State → Type 0 where
  move :
      (i : ℕ) {f : Future} {p : Place}
      → Move i s.future (s.places i) f p
      → Step s (record { future = f; places = update s.places i p })
  broadcast :
      (i : ℕ) {v : Option ℕ}
      → s.places i ≡ stored v
      → Step s (record s { places = update (λ j. rouse (s.places j)) i (decided true v) })

-- cx_future_init; the Boolean says whether `calloc` succeeds.
abbrev pub init : Bool → Option ℕ → Option Future
init false in_value = none
init true in_value = some (record { in_value = in_value; mutex = none; out_value = none })

-- cx_future_get_in_value
abbrev pub get_in_value : Future → Option ℕ
get_in_value f = f.in_value

-- What the threads reach from cx_future_init on.
pub data Reach (in_value : Option ℕ) : State → Type 0 where
  here :
      {f : Future}
      → init true in_value ≡ some f
      → Reach in_value (record { future = f; places = λ i. idle })
  next : {s t : State} → Reach in_value s → Step s t → Reach in_value t

abbrev pub is_asleep : Place → Bool
is_asleep asleep = true
is_asleep p = false

-- cx_future_destroy with its result, which is defined where no thread has the mutex and none waits for
-- the condition.
pub data Destroy (s : State) : ℕ → Type 0 where
  destroy : s.future.mutex ≡ none → ((i : ℕ) → is_asleep (s.places i) ≡ false) → Destroy s 0
