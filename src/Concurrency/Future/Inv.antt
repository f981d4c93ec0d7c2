-- ===== src/Concurrency/Future/Inv.antt =====
-- What holds in every state that the threads of a future reach.
use cextras.Base.{ℕ, ◌≡◌, Bool, true, false, Option, none, some}
use cextras.Concurrency.Future.{
  is_asleep, idle, Future, Place, testing, leaving, returned, deciding, stored, decided, resolved,
}

-- Between the lock and the unlock of the mutex.
abbrev pub inside : Place → Bool
inside testing = true
inside (leaving v) = true
inside (deciding v) = true
inside (stored v) = true
inside (decided ok v) = true
inside p = false

-- The value that a call of cx_future_wait has read.
abbrev pub has_read : Place → Option ℕ
has_read (leaving v) = some v
has_read (returned v) = some v
has_read p = none

-- The value that a call of cx_future_resolve has stored, if it is not NULL.
abbrev pub has_stored : Place → Option ℕ
has_stored (stored v) = v
has_stored (decided true v) = v
has_stored (resolved true v) = v
has_stored p = none

-- Whether the thread is in a call.
abbrev pub is_calling : Place → Bool
is_calling idle = false
is_calling (returned v) = false
is_calling (resolved ok v) = false
is_calling p = true

-- Whether a broadcast is still to come.
abbrev pub will_broadcast : Place → Bool
will_broadcast (stored v) = true
will_broadcast p = false

pub record Inv (f : Future) (places : ℕ → Place) : Type 0 where
  pub owner : (i : ℕ) → inside (places i) ≡ true → f.mutex ≡ some i
  pub held : (i : ℕ) → f.mutex ≡ some i → inside (places i) ≡ true
  pub agrees : (i v : ℕ) → has_read (places i) ≡ some v → f.out_value ≡ some v
  pub keeps : (i v : ℕ) → has_stored (places i) ≡ some v → f.out_value ≡ some v
  pub origin : (v : ℕ) → f.out_value ≡ some v → (i : ℕ) × (has_stored (places i) ≡ some v)
  pub once : (i j v u : ℕ) → has_stored (places i) ≡ some v → has_stored (places j) ≡ some u → i ≡ j
  pub awake :
      (i v : ℕ)
      → is_asleep (places i) ≡ true
      → f.out_value ≡ some v
      → (j : ℕ) × (will_broadcast (places j) ≡ true)
