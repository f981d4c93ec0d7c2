-- ===== src/Memory/Rc/Last.antt =====
-- Which release is the last one.
use cextras.Base.{
  ℕ, zero, suc, ◌+◌, ◌-◌, ◌%◌, ◌≤◌, ◌<◌, ◌≡◌, refl, Bool, false, List, [], ◌∷◌, ◌==◌, arith, length,
}
use cextras.Memory.Rc.{Op, retains, releases, run, with_result, uint}

-- Operations by owners of references: from `n` references to `m`. A new reference is made of one
-- that is there, and each is given back once.
pub data Uses : ℕ → List Op → ℕ → Type 0 where
  done : (n : ℕ) → Uses n [] n
  share : {n m : ℕ} {ops : List Op} → 0 < n → Uses (n + 1) ops m → Uses n (retains ∷ ops) m
  give_back : {n m : ℕ} {ops : List Op} → Uses n ops m → Uses (suc n) (releases ∷ ops) m

abbrev pub released : List Op → ℕ
released [] = 0
released (retains ∷ ops) = released ops
released (releases ∷ ops) = suc (released ops)

-- `false` for each release, but `true` for the last one if no reference is left.
abbrev pub answers : ℕ → (left : ℕ) → List Bool
answers zero left = []
answers (suc zero) left = (left == 0) ∷ []
answers (suc (suc k)) left = false ∷ answers (suc k) left

-- No operation is possible without a reference.
Uses-zero : {m : ℕ} {ops : List Op} → Uses 0 ops m → (released ops ≡ 0) × (m ≡ 0) × (ops ≡ [])
Uses-zero (done _) = (refl, refl, refl)
Uses-zero (share h u) = absurd (omega arith)

-- With no release the references do not get fewer.
Uses-grow : {n m : ℕ} {ops : List Op} → Uses n ops m → released ops ≡ 0 → n ≤ m
Uses-grow (done n) e = omega arith
Uses-grow (share h u) e = omega (arith, Uses-grow u e)
Uses-grow (give_back u) e = absurd (omega (arith, e))

answers-suc :
    {n m : ℕ} {ops : List Op}
    → Uses n ops m
    → 0 < n
    → answers (suc (released ops)) m ≡ false ∷ answers (released ops) m
answers-suc {n = n} {m = m} {ops = ops} u pos = by_count (released ops) refl
  where
    by_count : (k : ℕ) → released ops ≡ k → answers (suc k) m ≡ false ∷ answers k m
    by_count zero e =
        let some_left : (m == 0) ≡ false = ground (arith, Uses-grow u e) in rw some_left refl
    by_count (suc k) e = refl

-- In a run of operations by owners of references that starts with one reference or more, and with
-- less than 2^32 references and operations together, every release returns false, but for the last
-- one if it gives back the last reference; that one returns true.
pub run-answers :
    {n m : ℕ} {ops : List Op}
    → Uses n ops m
    → 0 < n
    → n + length ops < uint
    → run ops (record { count = n }) ≡ (answers (released ops) m, record { count = m })
unfolding run
run-answers (done n) pos h = refl
run-answers {n = n} (share p u) pos h =
    let wrap : (n + 1) % uint ≡ n + 1 = omega arith in
    rw wrap (run-answers u (omega arith) (omega arith))
run-answers {m = m} (give_back {n = n} {ops = ops} u) pos h =
    let wrap : (suc n + (uint - 1)) % uint ≡ n = omega arith in
    rw wrap (behind n u (λ p. run-answers u p (omega arith)))
  where
    behind :
        (n : ℕ)
        → Uses n ops m
        → (0 < n
            → run ops (record { count = n }) ≡ (answers (released ops) m, record { count = m }))
        → with_result (suc n == 1) (run ops (record { count = n }))
          ≡ (answers (suc (released ops)) m, record { count = m })
    behind zero u ih = let (r, z, e) = Uses-zero u in rw (r, z, e) refl
    behind (suc n) u ih =
        let more : (suc (suc n) == 1) ≡ false = ground arith in
        rw (more, ih (omega arith), answers-suc u (omega arith)) refl
