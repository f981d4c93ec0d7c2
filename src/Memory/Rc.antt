-- ===== src/Memory/Rc.antt =====
-- lib/memory/rc.c: an atomic reference counter.
--
-- Each operation is one atomic access, so a run of several threads is a list of operations in the
-- order in which they take effect. The counter is an `unsigned int` of 32 bits.
pub mod Last
mod Tests
use cextras.Base.{ℕ, ◌+◌, ◌-◌, ◌%◌, ◌^◌, Bool, List, [], ◌∷◌, ◌==◌}

-- `struct CxRc`
pub record Rc : Type 0 where
  pub count : ℕ

abbrev pub uint : ℕ
uint = 2 ^ 32

-- cx_rc_init
abbrev pub init : Rc
init = record { count = 1 }

-- cx_rc_retain
abbrev pub retain : Rc → Rc
retain rc = record { count = (rc.count + 1) % uint }

-- cx_rc_release: `atomic_fetch_sub` returns the count from before.
abbrev pub release : Rc → Bool × Rc
release rc = (rc.count == 1, record { count = (rc.count + (uint - 1)) % uint })

pub data Op : Type 0 where
  retains : Op
  releases : Op

abbrev pub with_result : Bool → List Bool × Rc → List Bool × Rc
with_result last (results, rc) = (last ∷ results, rc)

-- The results of the releases, in order, and the counter behind them.
pub run : List Op → Rc → List Bool × Rc
run [] rc = ([], rc)
run (retains ∷ ops) rc = run ops (retain rc)
run (releases ∷ ops) rc = let (last, rc') = release rc in with_result last (run ops rc')
