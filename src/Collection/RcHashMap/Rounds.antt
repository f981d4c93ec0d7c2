-- ===== src/Collection/RcHashMap/Rounds.antt =====
-- The rounds of the probing over the indices.
use cextras.Base.{
  ℕ, zero, suc, ◌+◌, ◌%◌, ◌<◌, ◌≡◌, refl, ap, ◌⊎◌, Bool, true, false, Option, none, some, List, [],
  ◌∷◌, arith, get_elem?, inl, inr,
}
use cextras.Collection.RcMap.{◌>>=◌}
use cextras.Collection.RcHashMap.{Inner, probe_layers, probe, try_index, try_next}

module _ {A : Type 0} (test : Inner A → ℕ → Option Bool) (inners : List (Inner A)) (j i : ℕ) where
  -- A round that finds the place, by what it found at its index.
  pub round-cases :
      (o : Option (Option ℕ)) (k : ℕ) (rest : Option (Option (ℕ × ℕ)))
      → (o >>= try_index k rest) ≡ some (some (j, i))
      → ((o ≡ some none) × (rest ≡ some (some (j, i)))) ⊎ ((o ≡ some (some j)) × (k ≡ i))
  round-cases none k rest h = cc
  round-cases (some none) k rest h = inl (refl, h)
  round-cases (some (some l)) k rest h =
      let e : l ≡ j = cc in let e' : k ≡ i = cc in inr (ap some (ap some e), e')

  -- Where probing ends, the index has a first inner map that passes the test.
  pub probe-some :
      (n k size : ℕ)
      → probe test n k size inners ≡ some (some (j, i))
      → probe_layers test inners 0 i ≡ some (some j)
  unfolding probe
  probe-some zero k size h = cc
  probe-some (suc n) k size h =
      elim (round-cases (probe_layers test inners 0 (k % size)) (k % size)
        (probe test n (k % size + 1) size inners) h) [
          | inl missed ↦ probe-some n (k % size + 1) size missed.1
          | inr hit ↦ rw (← hit.1) hit.0
        ]

  -- Probing ends there in other inner maps and with another test too, if those miss where these did
  -- and hit at the end.
  pub probe-transfer :
      (test' : Inner A → ℕ → Option Bool) (inners' : List (Inner A))
      → ((k : ℕ)
          → probe_layers test inners 0 k ≡ some none
          → probe_layers test' inners' 0 k ≡ some none)
      → probe_layers test' inners' 0 i ≡ some (some j)
      → (n k size : ℕ) → probe test n k size inners ≡ some (some (j, i))
      → probe test' n k size inners' ≡ some (some (j, i))
  unfolding probe
  probe-transfer test' inners' miss hit zero k size h = cc
  probe-transfer test' inners' miss hit (suc n) k size h =
      elim (round-cases (probe_layers test inners 0 (k % size)) (k % size)
        (probe test n (k % size + 1) size inners) h) [
          | inl missed ↦
              rw (miss (k % size) missed.0)
                (probe-transfer test' inners' miss hit n (k % size + 1) size missed.1)
          | inr end ↦ rw (end.1, hit) refl
        ]

-- The place lies within the inner maps.
abbrev pub Within : ℕ → Option (ℕ × ℕ) → Type 0
Within size none = Unit
Within size (some (j, i)) = i < size

module _ {A : Type 0} (test : Inner A → ℕ → Option Bool) where
  probe_layers-Defined :
      (inners : List (Inner A)) (s i : ℕ)
      → ((k : ℕ) (inner : Inner A)
          → get_elem? inners k ≡ some inner
          → (b : Bool) × (test inner i ≡ some b))
      → (r : Option ℕ) × (probe_layers test inners s i ≡ some r)
  unfolding probe_layers
  probe_layers-Defined [] s i all = (none, refl)
  probe_layers-Defined (x ∷ xs) s i all =
      let (b, e) = all 0 x refl in
      rw e (by_test b (probe_layers-Defined xs (s + 1) i (λ k o l. all (suc k) o l)))
    where
      by_test :
          (b : Bool)
          → (r : Option ℕ) × (probe_layers test xs (s + 1) i ≡ some r)
          → (r : Option ℕ) × ((some b >>= try_next s (probe_layers test xs (s + 1) i)) ≡ some r)
      by_test true rest = (some s, refl)
      by_test false rest = rest

  -- Where the test is defined at every index, probing is.
  pub probe-Defined :
      (inners : List (Inner A)) (n k size : ℕ)
      → 0 < size
      → ((k i : ℕ) (inner : Inner A)
          → i < size
          → get_elem? inners k ≡ some inner
          → (b : Bool) × (test inner i ≡ some b))
      → (r : Option (ℕ × ℕ)) × (probe test n k size inners ≡ some r) × Within size r
  unfolding probe
  probe-Defined inners zero k size pos all = (none, refl, tt)
  probe-Defined inners (suc n) k size pos all =
      let below : k % size < size = grind arith in
      let (o, e) =
        probe_layers-Defined inners 0 (k % size) (λ l inner at. all l (k % size) inner below at) in
      rw e (by_layer o (probe-Defined inners n (k % size + 1) size pos all) below)
    where
      by_layer :
          (o : Option ℕ)
          → (r : Option (ℕ × ℕ)) × (probe test n (k % size + 1) size inners ≡ some r)
            × Within size r
          → k % size < size
          → (r : Option (ℕ × ℕ)) × (try_index (k % size) (probe test n (k % size + 1) size inners) o
              ≡ some r)
            × Within size r
      by_layer none rest below = rest
      by_layer (some j) rest below = (some (j, k % size), refl, below)
