-- ===== src/Concurrency/Semaphore/Tests.antt =====
-- Thread 0 waits for a semaphore of 0, and thread 1 posts.
use cextras.Base.{ℕ, zero, suc, false, ◌+◌, ◌≡◌, refl, arith, some, none}
use cextras.Concurrency.Family.{update}
use cextras.Concurrency.Semaphore.{
  Place, idle, waiting, asleep, woken, posting, testing, taking, holding, adding, signalling,
  leaving, returned, call_wait, lock_wait, sleep, relock, read, count_down, call_post, lock_post,
  read_post, count_up, unlock, Destroyed, State, move, signal, Reach, here, next,
}
use cextras.Concurrency.Semaphore.Inv.{is_calling}
use cextras.Concurrency.Semaphore.Results.{Reach-conserved, Reach-Destroyed}

abbrev slept : ℕ → Place
slept = update (update (update (λ i. idle) 0 waiting) 0 testing) 0 asleep

slept-Reach : Reach 0 (record {
  semaphore = record { count = 0; mutex = none; takes = 0; posts = 0 };
  places = slept;
})
slept-Reach =
    next (next (next (here 0 0 refl) (move 0 call_wait)) (move 0 (lock_wait refl)))
      (move 0 (sleep refl))

abbrev posted : ℕ → Place
posted =
    update
      (update
        (update
          (update (update (update (update slept 1 posting) 1 holding) 1 (adding 0)) 1 signalling) 0
          woken)
        1 leaving)
      1 returned

posted-Reach : Reach 0 (record {
  semaphore = record { count = 1; mutex = none; takes = 0; posts = 1 };
  places = posted;
})
posted-Reach =
    next
      (next
        (next
          (next (next (next slept-Reach (move 1 call_post)) (move 1 (lock_post refl)))
            (move 1 read_post))
          (move 1 count_up))
        (signal 1 0 refl refl))
      (move 1 unlock)

abbrev end : State
end = record {
  semaphore = record { count = 0; mutex = some 0; takes = 1; posts = 1 };
  places = update (update (update posted 0 testing) 0 (taking 1)) 0 leaving;
}

end-Reach : Reach 0 end
end-Reach =
    next (next (next posted-Reach (move 0 (relock refl))) (move 0 (read (omega arith))))
      (move 0 count_down)

Reach-conserved_example : end.semaphore.count + end.semaphore.takes ≡ 0 + end.semaphore.posts
Reach-conserved_example = Reach-conserved end-Reach (omega arith)

abbrev left : State
left = record {
  semaphore = record { count = 0; mutex = none; takes = 1; posts = 1 };
  places = update end.places 0 returned;
}

no_call : (i : ℕ) → is_calling (left.places i) ≡ false
no_call zero = refl
no_call (suc zero) = refl
no_call (suc (suc i)) = ground arith

Reach-Destroyed_example : Destroyed left 0 7 7
Reach-Destroyed_example = Reach-Destroyed (next end-Reach (move 0 unlock)) no_call 0 7
