-- ===== src/Collection/RcHashMap/Probe.antt =====
-- Where the probing of rc_hash_map.c stops.
use cextras.Base.{
  ℕ, zero, suc, ◌+◌, ◌<◌, ◌≡◌, refl, Bool, true, false, Option, none, some, List, [], ◌∷◌, arith,
  get_elem?,
}
use cextras.Collection.RcMap.{◌>>=◌}
use cextras.Collection.RcHashMap.{Inner, probe_layers, try_next}

module _ {A : Type 0} where
  -- No inner map passes the test at the index.
  abbrev pub Nowhere : (Inner A → ℕ → Option Bool) → List (Inner A) → ℕ → Type 0
  Nowhere test inners i =
      (k : ℕ) (inner : Inner A) → get_elem? inners k ≡ some inner → test inner i ≡ some false

  -- Inner map `j` is the first that passes the test at the index.
  pub record First (test : Inner A → ℕ → Option Bool) (inners : List (Inner A)) (i j : ℕ)
      : Type 0 where
    pub inner : Inner A
    pub at : get_elem? inners j ≡ some inner
    pub passes : test inner i ≡ some true
    pub before :
        (k : ℕ) (other : Inner A)
        → k < j
        → get_elem? inners k ≡ some other
        → test other i ≡ some false

  module _ (test : Inner A → ℕ → Option Bool) where
    here-First :
        (x : Inner A) (xs : List (Inner A)) (i : ℕ) → test x i ≡ some true → First test (x ∷ xs) i 0
    here-First x xs i e = record {
      inner = x;
      at = refl;
      passes = e;
      before = λ k o below l. absurd (omega arith);
    }

    later-First :
        (x : Inner A) (xs : List (Inner A)) (i j : ℕ)
        → test x i ≡ some false
        → First test xs i j
        → First test (x ∷ xs) i (suc j)
    later-First x xs i j e f = record {
      inner = f.inner;
      at = f.at;
      passes = f.passes;
      before = earlier;
    }
      where
        earlier :
            (k : ℕ) (o : Inner A)
            → k < suc j
            → get_elem? (x ∷ xs) k ≡ some o
            → test o i ≡ some false
        earlier zero o below l = let same : x ≡ o = cc in rw (← same) e
        earlier (suc k) o below l = f.before k o (omega arith) l

    pub probe_layers-some :
        (inners : List (Inner A)) (s i r : ℕ)
        → probe_layers test inners s i ≡ some (some r)
        → (j : ℕ) × (r ≡ s + j) × First test inners i j
    unfolding probe_layers
    probe_layers-some [] s i r h = cc
    probe_layers-some (x ∷ xs) s i r h =
        by_test (test x i) refl h (probe_layers-some xs (s + 1) i r)
      where
        by_test :
            (o : Option Bool)
            → test x i ≡ o
            → (o >>= try_next s (probe_layers test xs (s + 1) i)) ≡ some (some r)
            → (probe_layers test xs (s + 1) i ≡ some (some r)
                → (j : ℕ) × (r ≡ s + 1 + j) × First test xs i j)
            → (j : ℕ) × (r ≡ s + j) × First test (x ∷ xs) i j
        by_test none e h' rec = cc
        by_test (some true) e h' rec =
            let same : s ≡ r = cc in (0, omega arith, here-First x xs i e)
        by_test (some false) e h' rec =
            let (j, eq, f) = rec h' in (suc j, omega arith, later-First x xs i j e f)

    pub probe_layers-none :
        (inners : List (Inner A)) (s i : ℕ)
        → probe_layers test inners s i ≡ some none
        → Nowhere test inners i
    unfolding probe_layers
    probe_layers-none [] s i h k o l = cc
    probe_layers-none (x ∷ xs) s i h k o l =
        by_test (test x i) refl h (probe_layers-none xs (s + 1) i) k l
      where
        by_test :
            (b : Option Bool)
            → test x i ≡ b
            → (b >>= try_next s (probe_layers test xs (s + 1) i)) ≡ some none
            → (probe_layers test xs (s + 1) i ≡ some none → Nowhere test xs i)
            → (k : ℕ) → get_elem? (x ∷ xs) k ≡ some o
            → test o i ≡ some false
        by_test none e h' rec k l = cc
        by_test (some true) e h' rec k l = cc
        by_test (some false) e h' rec zero l = let same : x ≡ o = cc in rw (← same) e
        by_test (some false) e h' rec (suc k) l = rec h' k o l

    pub First-probe_layers :
        (inners : List (Inner A)) (s i j : ℕ)
        → First test inners i j
        → probe_layers test inners s i ≡ some (some (s + j))
    unfolding probe_layers
    First-probe_layers [] s i j f = absurd (cc (f.at))
    First-probe_layers (x ∷ xs) s i zero f =
        let same : x ≡ f.inner = cc in
        let now : test x i ≡ some true = rw same f.passes in
        let no : s + 0 ≡ s = omega arith in rw (now, no)
    First-probe_layers (x ∷ xs) s i (suc j) f =
        let more : s + suc j ≡ s + 1 + j = omega arith in
        rw (f.before 0 x (omega arith) refl, more)
          (First-probe_layers xs (s + 1) i j (record {
            inner = f.inner;
            at = f.at;
            passes = f.passes;
            before = λ k o below l. f.before (suc k) o (omega arith) l;
          }))

    pub Nowhere-probe_layers :
        (inners : List (Inner A)) (s i : ℕ)
        → Nowhere test inners i
        → probe_layers test inners s i ≡ some none
    unfolding probe_layers
    Nowhere-probe_layers [] s i h = refl
    Nowhere-probe_layers (x ∷ xs) s i h =
        rw (h 0 x refl) (Nowhere-probe_layers xs (s + 1) i (λ k o l. h (suc k) o l))
