-- ===== src/Memory/Rc/Tests.antt =====
-- A counter that is shared once and given back twice.
use cextras.Base.{◌≡◌, arith, List, [], ◌∷◌}
use cextras.Memory.Rc.{Op, retains, releases, run}
use cextras.Memory.Rc.Last.{Uses, done, share, give_back, answers, released, run-answers}

abbrev shared : List Op
shared = retains ∷ releases ∷ releases ∷ []

shared-Uses : Uses 1 shared 0
shared-Uses = share (omega arith) (give_back (give_back (done 0)))

run-answers_example :
    run shared (record { count = 1 }) ≡ (answers (released shared) 0, record { count = 0 })
run-answers_example = run-answers shared-Uses (omega arith) (omega arith)
