-- ===== src/Concurrency/Future/Tests.antt =====
-- Thread 0 waits, thread 1 resolves the future with 7.
use cextras.Base.{ℕ, zero, suc, arith, false, ◌≡◌, refl, true, none, some}
use cextras.Concurrency.Family.{update}
use cextras.Concurrency.Future.{
  idle, waiting, testing, asleep, leaving, resolving, deciding, resolved, returned, stored, decided,
  call_wait, lock_wait, sleep, relock, read, unlock_wait, call_resolve, lock_resolve, store,
  unlock_resolve, State, Destroy, get_in_value, rouse, move, broadcast, Reach, here, next,
}
use cextras.Concurrency.Future.Inv.{has_stored, is_calling, will_broadcast}
use cextras.Concurrency.Future.Results.{Reach-returned, Reach-awake, Reach-Destroy}

abbrev asleep_state : State
asleep_state = record {
  future = record { in_value = some 3; mutex = some 1; out_value = some 7 };
  places =
      update
        (update
          (update (update (update (update (λ i. idle) 0 waiting) 0 testing) 0 asleep) 1
            (resolving (some 7)))
          1 (deciding (some 7)))
        1 (stored (some 7));
}

asleep_state-Reach : Reach (some 3) asleep_state
asleep_state-Reach =
    next
      (next
        (next
          (next (next (next (here refl) (move 0 call_wait)) (move 0 (lock_wait refl)))
            (move 0 (sleep refl)))
          (move 1 (call_resolve (some 7))))
        (move 1 (lock_resolve refl)))
      (move 1 (store refl))

Reach-awake_example : (j : ℕ) × (will_broadcast (asleep_state.places j) ≡ true)
Reach-awake_example = Reach-awake asleep_state-Reach 0 7 refl refl

abbrev returned_state : State
returned_state = record {
  future = record { in_value = some 3; mutex = none; out_value = some 7 };
  places =
      update
        (update
          (update
            (update (update (λ j. rouse (asleep_state.places j)) 1 (decided true (some 7))) 1
              (resolved true (some 7)))
            0 testing)
          0 (leaving 7))
        0 (returned 7);
}

returned_state-Reach : Reach (some 3) returned_state
returned_state-Reach =
    next
      (next
        (next (next (next asleep_state-Reach (broadcast 1 refl)) (move 1 unlock_resolve))
          (move 0 (relock refl)))
        (move 0 (read 7 refl)))
      (move 0 unlock_wait)

Reach-returned_example :
    (k : ℕ) × (has_stored (returned_state.places k) ≡ some 7)
    × ((j u : ℕ) → has_stored (returned_state.places j) ≡ some u → (j ≡ k) × (u ≡ 7))
Reach-returned_example = Reach-returned returned_state-Reach 0 7 refl

no_call : (i : ℕ) → is_calling (returned_state.places i) ≡ false
no_call zero = refl
no_call (suc zero) = refl
no_call (suc (suc i)) = ground arith

Reach-Destroy_example : (get_in_value returned_state.future ≡ some 3) × Destroy returned_state 0
Reach-Destroy_example = Reach-Destroy returned_state-Reach no_call
