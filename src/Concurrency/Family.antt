-- ===== src/Concurrency/Family.antt =====
-- The states of all threads, or of all queues, as a function from their numbers.
use cextras.Base.{
  ℕ, zero, suc, ◌+◌, ◌≤◌, ◌<◌, ◌≡◌, ◌≢◌, refl, arith, ◌==◌, if◌then◌else◌, Bool-cases, inl, inr,
  ltb,
}

-- The family with `new` as the state of `who`.
abbrev pub update {ℓ} : {S : Type ℓ} → (states : ℕ → S) (who : ℕ) (new : S) → ℕ → S
update states who new k = if who == k then new else states k

pub sum : (ℕ → ℕ) → ℕ → ℕ
sum g zero = 0
sum g (suc m) = g m + sum g m

part : (ℕ → ℕ) → (k m : ℕ) → ℕ
part g k m = if ltb k m then g k else 0

-- Two families that differ in one place.
sum-part :
    (g g' : ℕ → ℕ) (k : ℕ)
    → ((j : ℕ) → k ≢ j → g' j ≡ g j)
    → (m : ℕ) → sum g' m + part g k m ≡ sum g m + part g' k m
unfolding sum part
sum-part g g' k same zero = ground arith
sum-part g g' k same (suc m) = elim (Bool-cases (k == m)) [
  | inl here ↦ ground (arith, sum-part g g' k same m)
  | inr away ↦ ground (arith, same m (λ e. ground arith), sum-part g g' k same m)
]

module _ {ℓ} {S : Type ℓ} (weight : S → ℕ) where
  -- The sum of the weights of the first `m` states.
  pub total : ℕ → (ℕ → S) → ℕ
  total m states = sum (λ k. weight (states k)) m

  pub total-update :
      (m : ℕ) (states : ℕ → S) (who : ℕ) (new : S)
      → who < m
      → total m (update states who new) + weight (states who) ≡ total m states + weight new
  unfolding total part
  total-update m states who new below =
      let change =
        sum-part (λ k. weight (states k)) (λ k. weight (update states who new k)) who
          (λ j apart. ground arith) m in
      ground (arith, change)

  pub total-zero :
      (m : ℕ) (states : ℕ → S) → ((k : ℕ) → k < m → weight (states k) ≡ 0) → total m states ≡ 0
  unfolding total sum
  total-zero zero states none = refl
  total-zero (suc m) states none =
      omega (arith, none m (omega arith), total-zero m states (λ k below. none k (omega arith)))

  pub total-ge : (m : ℕ) (states : ℕ → S) (who : ℕ) → who < m → weight (states who) ≤ total m states
  unfolding total sum
  total-ge zero states who below = absurd (omega arith)
  total-ge (suc m) states who below = elim (Bool-cases (who == m)) [
    | inl here ↦ ground arith
    | inr away ↦ ground (arith, total-ge m states who)
  ]

pub total_mono {ℓ} :
    {S : Type ℓ} (light heavy : S → ℕ) (m : ℕ) (states : ℕ → S)
    → ((s : S) → light s ≤ heavy s)
    → total light m states ≤ total heavy m states
unfolding total sum
total_mono light heavy zero states le = omega arith
total_mono light heavy (suc m) states le =
    omega (arith, total_mono light heavy m states le, le (states m))
