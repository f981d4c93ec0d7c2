-- ===== src/Concurrency/Future/Results.antt =====
-- What a future promises the threads that use it.
use cextras.Base.{ℕ, ◌≡◌, refl, true, false, Option, some, arith, Option-cases, inl, inr}
use cextras.Concurrency.Future.{
  Place, State, Reach, asleep, returned, idle, is_asleep, get_in_value, Destroy, destroy,
}
use cextras.Concurrency.Future.Inv.{inside, is_calling, has_stored, will_broadcast}
use cextras.Concurrency.Future.Moves.{Reach-Inv, Reach-in_value}

-- In every reachable state, a value that a call of cx_future_wait returned was stored by a call of
-- cx_future_resolve, and no other thread's call has stored a value or will report that it has.
pub Reach-returned :
    {in_value : Option ℕ} {s : State}
    → Reach in_value s
    → (i v : ℕ) → s.places i ≡ returned v
    → (k : ℕ) × (has_stored (s.places k) ≡ some v)
      × ((j u : ℕ) → has_stored (s.places j) ≡ some u → (j ≡ k) × (u ≡ v))
Reach-returned {s} r i v e =
    let inv = Reach-Inv r in
    let out = inv.agrees i v (ground arith) in
    let found = inv.origin v out in
    (
      found.0,
      found.1,
      λ j u h. (inv.once j found.0 u v h found.1, ground (arith, inv.keeps j u h, out)),
    )

-- In every reachable state, while the value of the future is set, a thread that sleeps in
-- cx_future_wait has its wake-up to come: some thread stands right before its broadcast.
pub Reach-awake :
    {in_value : Option ℕ} {s : State}
    → Reach in_value s
    → (i v : ℕ) → s.places i ≡ asleep
    → s.future.out_value ≡ some v
    → (j : ℕ) × (will_broadcast (s.places j) ≡ true)
Reach-awake r i v e o = (Reach-Inv r).awake i v (ground arith) o

inside-is_calling : (p : Place) → inside p ≡ true → is_calling p ≡ true
inside-is_calling idle h = h
inside-is_calling p h = ground arith

is_asleep-is_calling : (p : Place) → is_calling p ≡ false → is_asleep p ≡ false
is_asleep-is_calling idle h = refl
is_asleep-is_calling p h = ground arith

-- In every reachable state in which no thread is in a call, cx_future_get_in_value still returns what
-- cx_future_init was given, and cx_future_destroy is defined and returns 0: no thread has the mutex or
-- waits for the condition, whatever calls there were before.
pub Reach-Destroy :
    {in_value : Option ℕ} {s : State}
    → Reach in_value s
    → ((i : ℕ) → is_calling (s.places i) ≡ false)
    → (get_in_value s.future ≡ in_value) × Destroy s 0
Reach-Destroy {s = s} r out =
    let inv = Reach-Inv r in
    (
      Reach-in_value r,
      destroy
          (elim (Option-cases s.future.mutex) [
            | inl free ↦ free
            | inr (i, owned) ↦
                let calls = inside-is_calling (s.places i) (inv.held i owned) in
                absurd (ground (arith, out i, calls))
          ])
          (λ i. is_asleep-is_calling (s.places i) (out i)),
    )
