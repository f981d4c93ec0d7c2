-- ===== src/Collection/RcHashMap/Place.antt =====
-- The place where cx_rc_hash_map_put stores a key is the one where cx_rc_hash_map_retain looks.
use cextras.Base.{
  get_elem?-set_cases, ℕ, zero, suc, ◌+◌, ◌%◌, ◌<◌, ◌≡◌, refl, sym, ◌∙◌, ap, ◌≢◌, Bool, true, false,
  Option, none, some, List, [], ◌∷◌, ◌++◌, arith, length, get_elem?, set, inl, inr, eq→==,
  get_elem?-set_self, get_elem?-set_ne, get_elem?→lt, get_elem?-append_left, get_elem?-append_right,
}
use cextras.Collection.RcMap
use cextras.Collection.RcMap.{RcMap, ◌>>=◌}
use cextras.Collection.RcHashMap.{
  Inner, has_key, takes_key, or_else, probe_layers, probe, try_index,
}
use cextras.Collection.RcHashMap.Probe.{
  Nowhere, First, probe_layers-some, probe_layers-none, First-probe_layers, Nowhere-probe_layers,
}
use cextras.Collection.RcHashMap.Rounds.{probe-some, probe-transfer}

-- A first round that finds no place.
round-none :
    (o : Option (Option ℕ)) (k : ℕ) (rest : Option (Option (ℕ × ℕ)))
    → (o >>= try_index k rest) ≡ some none
    → o ≡ some none
round-none none k rest h = cc
round-none (some none) k rest h = refl
round-none (some (some j)) k rest h = cc

module _ {A : Type 0} (key : ℕ) where
  -- A place that put passes by does not have the key.
  takes_key-false :
      (inner : Inner A) (i : ℕ)
      → takes_key key inner i ≡ some false
      → has_key key inner i ≡ some false
  takes_key-false inner i h = by_empty (RcMap.is_empty inner.values i) (has_key key inner i) h
    where
      by_empty :
          (e : Option Bool) (b : Option Bool)
          → (e >>= λ empty. or_else empty b) ≡ some false
          → b ≡ some false
      by_empty none b h' = cc
      by_empty (some true) b h' = cc
      by_empty (some false) b h' = h'

  module _ (inner inner' : Inner A) (i : ℕ) (keys : inner'.keys ≡ set inner.keys i key) where
    pub has_key-here : i < length inner.keys → has_key key inner' i ≡ some true
    has_key-here inside =
        rw (keys, get_elem?-set_self inner.keys i key inside, eq→== key key refl) refl

    has_key-away : (k : ℕ) → i ≢ k → has_key key inner' k ≡ has_key key inner k
    has_key-away k apart = rw (keys, get_elem?-set_ne inner.keys i k key apart) refl

  module _ (inners : List (Inner A)) (j i : ℕ) (inner inner' : Inner A)
      (at : get_elem? inners j ≡ some inner) (keys : inner'.keys ≡ set inner.keys i key) where
    missed :
        (k : ℕ)
        → Nowhere (takes_key key) inners k
        → i ≢ k
        → Nowhere (has_key key) (set inners j inner') k
    missed k nowhere apart l o e = elim (get_elem?-set_cases inners j l inner' o e) [
      | inl here ↦
          rw (here.1) (
            has_key-away inner inner' i keys k apart ∙ takes_key-false inner k (nowhere j inner at))
      | inr old ↦ takes_key-false o k (nowhere l o old)
    ]

    -- A key that put stores in a place that it found is the first that retain finds there.
    pub probe-set :
        (n k size : ℕ)
        → i < length inner.keys
        → probe (takes_key key) n k size inners ≡ some (some (j, i))
        → probe (has_key key) n k size (set inners j inner') ≡ some (some (j, i))
    probe-set n k size inside h =
        let end = probe-some (takes_key key) inners j i n k size h in
        let (j', same, f) = probe_layers-some (takes_key key) inners 0 i j end in
        let first : First (takes_key key) inners i j = let e : j' ≡ j = omega arith in rw (← e) f in
        probe-transfer (takes_key key) inners j i (has_key key) (set inners j inner')
          (λ l none_here. Nowhere-probe_layers (has_key key) (set inners j inner') 0 l (
            missed l (probe_layers-none (takes_key key) inners 0 l none_here)
              (λ s. let clash = ap (λ z. probe_layers (takes_key key) inners 0 z) s in cc)))
          (First-probe_layers (has_key key) (set inners j inner') 0 i j (record {
            inner = inner';
            at = get_elem?-set_self inners j inner' (get_elem?→lt inners j inner at);
            passes = has_key-here inner inner' i keys inside;
            before = λ l o below e. takes_key-false o i (
                first.before l o below
                  (sym (get_elem?-set_ne inners j l inner' (λ s. omega (arith, s))) ∙ e));
          })
            ∙ ap some (ap some (omega arith)))
          n k size h

  -- A key that put stores in a new inner map is the first that retain finds.
  pub probe-extended :
      (inners : List (Inner A)) (inner' : Inner A) (n i size : ℕ)
      → 0 < n
      → i < size
      → has_key key inner' i ≡ some true
      → probe (takes_key key) n i size inners ≡ some none
      → probe (has_key key) n i size (inners ++ (inner' ∷ [])) ≡ some (some (length inners, i))
  unfolding probe
  probe-extended inners inner' zero i size pos below here h = absurd (omega arith)
  probe-extended inners inner' (suc n) i size pos below here h =
      let same : i % size ≡ i = grind arith in
      let from_zero : 0 + length inners ≡ length inners = omega arith in
      let no_more : length inners + 0 ≡ length inners = omega arith in
      let missed =
        round-none (probe_layers (takes_key key) inners 0 (i % size)) (i % size)
          (probe (takes_key key) n (i % size + 1) size inners) h in
      let inners' = inners ++ (inner' ∷ []) in
      let first = First-probe_layers (has_key key) inners' 0 i (length inners) (record {
        inner = inner';
        at =
            ap (λ z. get_elem? inners' z) (sym no_more)
            ∙ get_elem?-append_right inners (inner' ∷ []) 0;
        passes = here;
        before = λ k o l e. takes_key-false o i (
            probe_layers-none (takes_key key) inners 0 i (rw same at missed) k o
              (sym (get_elem?-append_left inners (inner' ∷ []) k l) ∙ e));
      }) in
      rw (same, first ∙ ap (λ z. some (some z)) from_zero) refl

module _ {A : Type 0} (test : Inner A → ℕ → Option Bool) (inners : List (Inner A)) where
  -- Probing ends in an inner map that is there.
  pub probe-at :
      (n k size j i : ℕ)
      → probe test n k size inners ≡ some (some (j, i))
      → (inner : Inner A) × (get_elem? inners j ≡ some inner)
  probe-at n k size j i h =
      let (j', same, f) =
        probe_layers-some test inners 0 i j (probe-some test inners j i n k size h) in
      let e : j ≡ j' = omega arith in (f.inner, rw e f.at)
