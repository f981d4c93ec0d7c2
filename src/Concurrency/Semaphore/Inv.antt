-- ===== src/Concurrency/Semaphore/Inv.antt =====
-- What holds in every state that the threads of a semaphore reach.
use cextras.Base.{ℕ, ◌+◌, ◌<◌, ◌≡◌, Bool, true, false, Option, none, some, word}
use cextras.Concurrency.Semaphore.{
  Semaphore, Place, idle, returned, failed, testing, taking, holding, adding, signalling, leaving,
  failing,
}

-- Between the lock and the unlock of the mutex.
abbrev pub inside : Place → Bool
inside testing = true
inside (taking n) = true
inside holding = true
inside (adding n) = true
inside signalling = true
inside leaving = true
inside failing = true
inside p = false

-- Whether the thread is in a call.
abbrev pub is_calling : Place → Bool
is_calling idle = false
is_calling returned = false
is_calling failed = false
is_calling p = true

-- What the thread has read of `count` and will write back, one less or one more.
abbrev pub to_take : Place → Option ℕ
to_take (taking n) = some n
to_take p = none

abbrev pub to_add : Place → Option ℕ
to_add (adding n) = some n
to_add p = none

pub record Inv (initial : ℕ) (s : Semaphore) (places : ℕ → Place) : Type 0 where
  pub owner : (i : ℕ) → inside (places i) ≡ true → s.mutex ≡ some i
  pub held : (i : ℕ) → s.mutex ≡ some i → inside (places i) ≡ true
  pub take : (i n : ℕ) → to_take (places i) ≡ some n → (s.count ≡ n) × (0 < n)
  pub add : (i n : ℕ) → to_add (places i) ≡ some n → s.count ≡ n
  pub conserved : initial + s.posts < word → s.count + s.takes ≡ initial + s.posts
